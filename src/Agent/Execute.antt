-- ===== src/Agent/Execute.antt =====
-- `_execute` of python/oneiro/agent.py: the decision on a call, its run and its record. The digest of
-- arguments, the message of a tool error and the clock's readings are handed in.
use Prim.Native.String.{String, ◌++◌}
use oneiro_ostis.Prelude.{
  ℕ, true, false, not, Option, none, some, List, Result, ok, err, string_comparable, if◌then◌else◌,
}
use oneiro_ostis.Prelude.Text.{is_empty, numeral}
use oneiro_ostis.Records.Base.{RecordError, checked, State, waiting, failed}
use oneiro_ostis.Records.Kinds.{Action, action_class}
use oneiro_ostis.Records.Stored.{Texts, AnyRecord, action}
use oneiro_ostis.Store.Graph.{StoreError}
use oneiro_ostis.Store.Writer.{Publication}
use oneiro_ostis.Memory.{Row, Rows, publish_record}
use oneiro_ostis.Approvals.{ApprovalError, granted_for, request, consume}
use oneiro_ostis.Tools.Effects.{get}
use oneiro_ostis.Tools.Schema.{Arguments, ToolError, dictionary}
use oneiro_ostis.Tools.{Tool, Policy, Decision, allow, ask, deny, Verdict, check, effect_for}
use oneiro_ostis.Agent.Run.{World, Handler, run_tool}
use oneiro_ostis.Agent.Steps.{ToolCall, Step, new_step, refused_step}

-- What a turn raises.
pub data TurnError : Type 0 where
  approval_error : ApprovalError → TurnError
  record_error : RecordError → TurnError
  store_error : StoreError → TurnError
  policy_error : ToolError → TurnError
  chat_error : String → TurnError
  turn_conflict : TurnError

-- The readings of the clock in one call: for the grant or the request, and for the action.
pub record Moments : Type 0 where
  pub granting : String
  pub acting : String

-- What a turn runs with.
pub record Setting (O : Type 0) : Type 0 where
  pub registry : List (String × Tool (Handler O))
  pub policy : Policy
  pub role : String
  pub tool_limit : String
  pub digest : Arguments → String
  pub message_of : ToolError → String
  pub texts : Texts

-- `policy.check`, whose `ToolError` is a refusal with its message.
abbrev pub or_refused : (ToolError → String) → Result ToolError Verdict → Verdict
or_refused message_of (ok v) = v
or_refused message_of (err e) = (deny, message_of e)

abbrev pub or_declared : String → Result ToolError String → String
or_declared declared (ok effect) = effect
or_declared declared (err e) = declared

abbrev pub action_id : String → ℕ → String
action_id reply_id index = "act-" ++ (reply_id ++ ("-" ++ numeral index))

module _ {O : Type 0} (s : Setting O) (now : Moments) (reply_id : String) (index : ℕ)
    (call : ToolCall) where
  abbrev refused : Decision → String → State → String → Step × Action
  refused decision reason state effect =
      refused_step now.acting index call decision reason state (action_id reply_id index) reply_id
        effect

  unfoldable pub published :
      World O
      → Step
      → Result StoreError (Publication AnyRecord × Rows)
      → Result TurnError Step × World O
  published w step (err e) = (err (store_error e), w)
  published w step (ok (p, log)) = (ok step, record w { log = log })

  unfoldable pub publish_checked :
      World O → Step → Result RecordError Action → Result TurnError Step × World O
  unfolding published
  publish_checked w step (err e) = (err (record_error e), w)
  publish_checked w step (ok a) = published w step (publish_record s.texts w.log (action a) a.id 0)

  -- The action is built, which checks it, and published; then the step is returned.
  unfoldable pub recorded : World O → Step × Action → Result TurnError Step × World O
  unfolding publish_checked
  recorded w (step, act) = publish_checked w step (checked act)

  unfoldable pub run_allowed :
      Tool (Handler O) → String → String → World O → Result TurnError Step × World O
  unfolding run_tool recorded new_step
  run_allowed t effect reason w =
      let (ended, w') = run_tool t call s.role s.tool_limit effect w in
      recorded w' (
        new_step now.acting index t.name call allow reason (action_id reply_id index) reply_id ended
          effect)

  unfoldable pub spent :
      Tool (Handler O)
      → String
      → String
      → World O
      → Result ApprovalError Row × Rows
      → Result TurnError Step × World O
  unfolding run_allowed
  spent t effect reason w (err e, log) = (err (approval_error e), record w { log = log })
  spent t effect reason w (ok row, log) = run_allowed t effect reason (record w { log = log })

  -- The grant is spent before the call runs.
  unfoldable pub spend_and_run :
      Tool (Handler O) → String → String → Option Row → World O → Result TurnError Step × World O
  unfolding run_allowed spent
  spend_and_run t effect reason none w = run_allowed t effect reason w
  spend_and_run t effect reason (some grant) w =
      spent t effect reason w (consume s.texts now.granting grant (action_id reply_id index) w.log)

  unfoldable pub asked :
      String → String → World O → Result ApprovalError Row × Rows → Result TurnError Step × World O
  unfolding recorded refused_step
  asked effect reason w (err e, log) = (err (approval_error e), record w { log = log })
  asked effect reason w (ok row, log) =
      recorded (record w { log = log }) (refused ask reason waiting effect)

  unfoldable pub ask_owner :
      Tool (Handler O) → String → String → World O → Result TurnError Step × World O
  unfolding asked
  ask_owner t effect reason w = asked effect reason w (
      request s.texts now.granting (action_id reply_id index) t.name (s.digest call.arguments)
        reason "" w.log)

  -- The call after its decision, with the grant that was found.
  unfoldable pub carry_out :
      Tool (Handler O) → String → Option Row → Verdict → World O → Result TurnError Step × World O
  unfolding spend_and_run ask_owner recorded refused_step
  carry_out t effect grant (allow, reason) w = spend_and_run t effect reason grant w
  carry_out t effect grant (ask, reason) w = ask_owner t effect reason w
  carry_out t effect grant (deny, reason) w = recorded w (refused deny reason failed effect)

  unfoldable pub with_grant :
      Tool (Handler O)
      → String
      → Row
      → Result ToolError Verdict
      → World O
      → Result TurnError Step × World O
  unfolding carry_out
  with_grant t effect grant (err e) w = (err (policy_error e), w)
  with_grant t effect grant (ok v) w = carry_out t effect (some grant) v w

  unfoldable pub if_granted :
      Tool (Handler O)
      → String
      → String
      → Result ApprovalError (Option Row)
      → World O
      → Result TurnError Step × World O
  unfolding carry_out with_grant
  if_granted t effect reason (err e) w = (err (approval_error e), w)
  if_granted t effect reason (ok none) w = carry_out t effect none (ask, reason) w
  if_granted t effect reason (ok (some grant)) w =
      with_grant t effect grant (check s.policy t s.role (dictionary call.arguments) true false) w

  -- A decision `ask` is released by a grant for exactly this call.
  unfoldable pub decided :
      Tool (Handler O) → String → Verdict → World O → Result TurnError Step × World O
  unfolding if_granted carry_out
  decided t effect (ask, reason) w =
      if_granted t effect reason (granted_for t.name (s.digest call.arguments) w.log) w
  decided t effect (allow, reason) w = carry_out t effect none (allow, reason) w
  decided t effect (deny, reason) w = carry_out t effect none (deny, reason) w

  unfoldable pub with_tool : Tool (Handler O) → World O → Result TurnError Step × World O
  unfolding decided
  with_tool t w =
      decided t (or_declared t.effect (effect_for t call.arguments))
        (or_refused s.message_of (check s.policy t s.role (dictionary call.arguments) false false))
        w

  unfoldable pub found_tool : Option (Tool (Handler O)) → World O → Result TurnError Step × World O
  unfolding with_tool recorded refused_step
  found_tool none w =
      recorded w (refused deny ("there is no tool named " ++ call.name) failed "none")
  found_tool (some t) w =
      if not (is_empty call.malformed)
      then recorded w (refused deny call.malformed failed t.effect)
      else with_tool t w

  -- `_execute`
  unfoldable pub execute : World O → Result TurnError Step × World O
  unfolding found_tool
  execute w = found_tool (get call.name s.registry) w
