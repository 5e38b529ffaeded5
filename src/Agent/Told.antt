-- ===== src/Agent/Told.antt =====
-- What a step of python/oneiro/agent.py says of the call, and what the record says of it.
use Prim.Native.String.{String}
use oneiro_ostis.Prelude.{
  ℕ, ◌≡◌, ◌≢◌, ◌⊎◌, inl, inr, refl, Bool, true, false, not, Option, none, some, List, Result, ok,
  err, ◌>>◌, contains, string_comparable, Bool-cases, if◌then◌else◌,
}
use oneiro_ostis.Prelude.Text.{is_empty, numeral}
use oneiro_ostis.Schedule.Text.{Unicode, int}
use oneiro_ostis.Records.Base.{RecordError, State, uncertain, is_state}
use oneiro_ostis.Records.Kinds.{Action, action_class, action_check}
use oneiro_ostis.Records.Stored.{AnyRecord, action}
use oneiro_ostis.Store.Graph.{StoreError}
use oneiro_ostis.Store.Writer.{Publication}
use oneiro_ostis.Memory.{Row, Rows, publish_record}
use oneiro_ostis.Approvals.{ApprovalError}
use oneiro_ostis.Tools.Effects.{get}
use oneiro_ostis.Tools.Schema.{ToolError, dictionary}
use oneiro_ostis.Tools.{Tool, Decision, allow, ask, deny, Verdict}
use oneiro_ostis.Tools.Reasons.{reasons, Reasoned, AllReasoned, check-Reasoned}
use oneiro_ostis.Agent.Steps.{
  ToolCall, Step, Ended, is_external, step_label, new_step, refused_step,
}
use oneiro_ostis.Agent.StoredStep.{stored_with, number_in}
use oneiro_ostis.Agent.ReadBack.{
  IsLine, step_index-label, stored_step-new_step, stored_step-refused_step,
}
use oneiro_ostis.Agent.Execute.{
  Moments, Setting, TurnError, or_refused, action_id, published, publish_checked, recorded,
  run_allowed, spent, spend_and_run, asked, ask_owner, carry_out, with_grant, if_granted, decided,
  with_tool, found_tool, execute,
}
use oneiro_ostis.Agent.Run.{World, Handler, run_handler, run_tool}
use oneiro_ostis.Agent.Safe.{
  RetrySafe, may_retry_cases, may_retry-uncertain, ended_as-uncertain, IsLine-reason,
}

module _ {O : Type 0} (number : List String → ℕ) (s : Setting O) (now : Moments) (reply_id : String)
    (index : ℕ) (call : ToolCall) where
  -- The record that was published for a step, and that it gives the step back.
  abbrev pub Told : Step → Rows → Type 0
  Told step log' =
      (act : Action) × (log : Rows) × (p : Publication AnyRecord) × (publish_record s.texts log
          (action act) act.id 0
        ≡ ok (p, log'))
      × (act.id ≡ action_id reply_id index)
      × (stored_with number act ≡ step)
      × RetrySafe step

  -- A step that is returned is told; a call that raises an error returns none.
  abbrev pub Tells : Result TurnError Step × World O → Type 0
  Tells (err e, w) = Unit
  Tells (ok step, w) = Told step w.log

  -- A step with its action, before it is recorded.
  abbrev Faithful : Step × Action → Type 0
  Faithful (step, act) =
      (act.id ≡ action_id reply_id index) × (stored_with number act ≡ step) × RetrySafe step

  module _ (numbers : number (step_label index) ≡ index) where
    published-Tells :
        (w : World O) (step : Step) (act : Action)
        (r : Result StoreError (Publication AnyRecord × Rows))
        → Faithful (step, act)
        → publish_record s.texts w.log (action act) act.id 0 ≡ r
        → Tells (published s now reply_id index call w step r)
    unfolding published
    published-Tells w step act (err e) h e' = tt
    published-Tells w step act (ok (p, log)) (named, read, safe) e =
        (act, w.log, p, e, named, read, safe)

    checked-Tells :
        (w : World O) (step : Step) (act : Action) (r : Result RecordError (Unit {0}))
        → Faithful (step, act)
        → Tells (publish_checked s now reply_id index call w step (r >> ok act))
    unfolding publish_checked
    checked-Tells w step act (err e) h = tt
    checked-Tells w step act (ok done) h = published-Tells w step act _ h refl

    recorded-Tells :
        (w : World O) (x : Step × Action)
        → Faithful x
        → Tells (recorded s now reply_id index call w x)
    unfolding recorded
    recorded-Tells w (step, act) h = checked-Tells w step act (action_check act) h

    refused-Faithful :
        (decision : Decision) (reason effect : String) (state : State)
        → decision ≢ allow
        → is_state state uncertain ≡ false
        → Faithful (
            refused_step now.acting index call decision reason state
              (action_id reply_id index)
              reply_id
              effect)
    refused-Faithful decision reason effect state h certain = (
      unfold refused_step in refl,
      stored_step-refused_step number now.acting index numbers call reason
          (action_id reply_id index) reply_id effect decision state h,
      unfold refused_step in (inl refl, inl certain),
    )

    new_step-Faithful :
        (tool reason effect : String) (ended : Ended)
        → IsLine reason
        → (is_state ended.state uncertain ≡ false) ⊎ (is_external effect ≡ true)
        → Faithful (
            new_step now.acting index tool call allow reason
              (action_id reply_id index)
              reply_id
              ended
              effect)
    new_step-Faithful tool reason effect ended line certain = (
      unfold new_step in refl,
      stored_step-new_step number now.acting index numbers call reason (action_id reply_id index)
          reply_id effect tool ended line,
      unfold new_step in
          (
            may_retry_cases effect ended.outcome ended.state,
            elim (Bool-cases (is_state ended.state uncertain)) [
              | inl e ↦ elim certain [
                | inl e' ↦ inl e'
                | inr e' ↦ inr (e', may_retry-uncertain effect ended.outcome ended.state e)
              ]
              | inr e ↦ inl e
            ],
          ),
    )

    run_handler-certain :
        (h : Option (Handler O)) (role limit effect : String) (w : World O)
        → (is_state (run_handler h call role limit effect w).0.state uncertain ≡ false)
          ⊎ (is_external effect ≡ true)
    unfolding run_handler
    run_handler-certain none role limit effect w = inl refl
    run_handler-certain (some handler) role limit effect w =
        ended_as-uncertain limit (is_external effect) (handler role call.arguments w).0

    run_allowed-Tells :
        (t : Tool (Handler O)) (effect reason : String) (w : World O)
        → contains reasons reason ≡ true
        → Tells (run_allowed s now reply_id index call t effect reason w)
    unfolding run_allowed
    run_allowed-Tells t effect reason w h =
        recorded-Tells (run_tool t call s.role s.tool_limit effect w).1 _ (
          new_step-Faithful t.name reason effect (run_tool t call s.role s.tool_limit effect w).0
            (IsLine-reason reason h)
            (unfold run_tool in run_handler-certain t.handler s.role s.tool_limit effect w))

    spent-Tells :
        (t : Tool (Handler O)) (effect reason : String) (w : World O)
        (r : Result ApprovalError Row × Rows)
        → contains reasons reason ≡ true
        → Tells (spent s now reply_id index call t effect reason w r)
    unfolding spent
    spent-Tells t effect reason w (err e, log) h = tt
    spent-Tells t effect reason w (ok row, log) h =
        run_allowed-Tells t effect reason (record w { log = log }) h

    asked-Tells :
        (effect reason : String) (w : World O) (r : Result ApprovalError Row × Rows)
        → Tells (asked s now reply_id index call effect reason w r)
    unfolding asked
    asked-Tells effect reason w (err e, log) = tt
    asked-Tells effect reason w (ok row, log) =
        recorded-Tells (record w { log = log }) _
          (refused-Faithful ask reason effect _ (λ e. cc) refl)

    carry_out-Tells :
        (t : Tool (Handler O)) (effect : String) (grant : Option Row) (v : Verdict) (w : World O)
        → Reasoned v
        → Tells (carry_out s now reply_id index call t effect grant v w)
    unfolding carry_out
    carry_out-Tells t effect none (allow, reason) w h =
        unfold spend_and_run in run_allowed-Tells t effect reason w h
    carry_out-Tells t effect (some grant) (allow, reason) w h =
        unfold spend_and_run in spent-Tells t effect reason w _ h
    carry_out-Tells t effect grant (ask, reason) w h =
        unfold ask_owner in asked-Tells effect reason w _
    carry_out-Tells t effect grant (deny, reason) w h =
        recorded-Tells w _ (refused-Faithful deny reason effect _ (λ e. cc) refl)

    with_grant-Tells :
        (t : Tool (Handler O)) (effect : String) (grant : Row) (v : Result ToolError Verdict)
        (w : World O)
        → AllReasoned v
        → Tells (with_grant s now reply_id index call t effect grant v w)
    unfolding with_grant
    with_grant-Tells t effect grant (err e) w h = tt
    with_grant-Tells t effect grant (ok v) w h = carry_out-Tells t effect (some grant) v w h

    if_granted-Tells :
        (t : Tool (Handler O)) (effect reason : String) (r : Result ApprovalError (Option Row))
        (w : World O)
        → Tells (if_granted s now reply_id index call t effect reason r w)
    unfolding if_granted
    if_granted-Tells t effect reason (err e) w = tt
    if_granted-Tells t effect reason (ok none) w = carry_out-Tells t effect none (ask, reason) w tt
    if_granted-Tells t effect reason (ok (some grant)) w =
        with_grant-Tells t effect grant _ w
          (check-Reasoned s.policy t s.role true false (dictionary call.arguments))

    decided-Tells :
        (t : Tool (Handler O)) (effect : String) (v : Result ToolError Verdict) (w : World O)
        → AllReasoned v
        → Tells (decided s now reply_id index call t effect (or_refused s.message_of v) w)
    unfolding decided
    decided-Tells t effect (err e) w h = carry_out-Tells t effect none (deny, _) w tt
    decided-Tells t effect (ok (allow, reason)) w h =
        carry_out-Tells t effect none (allow, reason) w h
    decided-Tells t effect (ok (ask, reason)) w h = if_granted-Tells t effect reason _ w
    decided-Tells t effect (ok (deny, reason)) w h =
        carry_out-Tells t effect none (deny, reason) w tt

    malformed-Tells :
        (b : Bool) (r r' : Result TurnError Step × World O)
        → Tells r
        → Tells r'
        → Tells (if b then r else r')
    malformed-Tells true r r' h h' = h
    malformed-Tells false r r' h h' = h'

    found_tool-Tells :
        (o : Option (Tool (Handler O))) (w : World O)
        → Tells (found_tool s now reply_id index call o w)
    unfolding found_tool with_tool
    found_tool-Tells none w = recorded-Tells w _ (refused-Faithful deny _ "none" _ (λ e. cc) refl)
    found_tool-Tells (some t) w =
        malformed-Tells (not (is_empty call.malformed)) _ _
          (recorded-Tells w _ (refused-Faithful deny call.malformed t.effect _ (λ e. cc) refl))
          (decided-Tells t _ _ w
            (check-Reasoned s.policy t s.role false false (dictionary call.arguments)))

    pub execute-Tells_with : (w : World O) → Tells (execute s now reply_id index call w)
    unfolding execute
    execute-Tells_with w = found_tool-Tells (get call.name s.registry) w

-- If `int` reads the text of the step's number as that number, every step that a call returns,
-- whichever branch it took, was published: the record of the identifier that the step's place
-- in the turn gives reads back, its number from the label, as exactly that step. A step
-- that may be repeated changes nothing outside or is known not to have happened, and a step
-- whose effect is unknown is one that changes something outside and may not be repeated.
pub execute-Tells :
    {O : Type 0} (u : Unicode) (s : Setting O) (now : Moments) (reply_id : String) (index : ℕ)
    (call : ToolCall) (w : World O)
    → int u (numeral index) ≡ some index
    → Tells (number_in u) s now reply_id index call (execute s now reply_id index call w)
execute-Tells u s now reply_id index call w reads =
    execute-Tells_with (number_in u) s now reply_id index call (step_index-label u index reads) w
