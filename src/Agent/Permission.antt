-- ===== src/Agent/Permission.antt =====
-- When a call of python/oneiro/agent.py can change something outside the owner's log.
use Prim.Native.String.{String}
use oneiro_ostis.Prelude.{
  ℕ, ◌≡◌, ◌≢◌, ◌⊎◌, inl, inr, refl, Bool, true, false, not, Option, none, some, Result, ok, err,
  if◌then◌else◌,
}
use oneiro_ostis.Prelude.Text.{is_empty}
use oneiro_ostis.Records.Base.{RecordError, checked}
use oneiro_ostis.Records.Kinds.{Action, action_class}
use oneiro_ostis.Records.Stored.{AnyRecord, action}
use oneiro_ostis.Store.Graph.{StoreError}
use oneiro_ostis.Store.Writer.{Publication}
use oneiro_ostis.Memory.{Row, Rows, publish_record}
use oneiro_ostis.Approvals.{ApprovalError, granted_for, consume}
use oneiro_ostis.Tools.Effects.{get}
use oneiro_ostis.Tools.Schema.{ToolError, dictionary}
use oneiro_ostis.Tools.{Tool, Decision, allow, ask, deny, Verdict, check}
use oneiro_ostis.Agent.Steps.{ToolCall, Step}
use oneiro_ostis.Agent.Execute.{
  Moments, Setting, TurnError, or_refused, action_id, published, publish_checked, recorded, spent,
  spend_and_run, asked, ask_owner, carry_out, with_grant, if_granted, decided, with_tool,
  found_tool, execute,
}
use oneiro_ostis.Agent.Run.{World, Handler}

module _ {O : Type 0} (s : Setting O) (now : Moments) (reply_id : String) (index : ℕ)
    (call : ToolCall) where
  -- The owner's grant for exactly this call was found, and spent before the call ran.
  abbrev pub Spent : Tool (Handler O) → Rows → Type 0
  Spent t log =
      (grant : Row) × (row : Row) × (log' : Rows) × (granted_for t.name (s.digest call.arguments)
          log
        ≡ ok (some grant))
      × (consume s.texts now.granting grant (action_id reply_id index) log ≡ (ok row, log'))

  -- The call names a tool of the registry, is well formed, and is allowed: by the policy alone, or
  -- with the owner's grant where the policy asks.
  abbrev pub Allowed : Rows → Type 0
  Allowed log =
      (t : Tool (Handler O)) × (reason : String) × (get call.name s.registry ≡ some t)
      × (is_empty call.malformed ≡ true)
      × ((check s.policy t s.role (dictionary call.arguments) false false ≡ ok (allow, reason))
          ⊎ ((question : String) × (check s.policy t s.role (dictionary call.arguments) false false
                ≡ ok (ask, question))
              × (check s.policy t s.role (dictionary call.arguments) true false
                  ≡ ok (allow, reason))
              × Spent t log))

  published-outside :
      (w : World O) (step : Step) (r : Result StoreError (Publication AnyRecord × Rows))
      → (published s now reply_id index call w step r).1.outside ≡ w.outside
  unfolding published
  published-outside w step (err e) = refl
  published-outside w step (ok (p, log)) = refl

  publish_checked-outside :
      (w : World O) (step : Step) (r : Result RecordError Action)
      → (publish_checked s now reply_id index call w step r).1.outside ≡ w.outside
  unfolding publish_checked
  publish_checked-outside w step (err e) = refl
  publish_checked-outside w step (ok a) =
      published-outside w step (publish_record s.texts w.log (action a) a.id 0)

  pub recorded-outside :
      (w : World O) (x : Step × Action)
      → (recorded s now reply_id index call w x).1.outside ≡ w.outside
  unfolding recorded
  recorded-outside w (step, act) = publish_checked-outside w step (checked act)

  asked-outside :
      (effect reason : String) (w : World O) (r : Result ApprovalError Row × Rows)
      → (asked s now reply_id index call effect reason w r).1.outside ≡ w.outside
  unfolding asked
  asked-outside effect reason w (err e, log) = refl
  asked-outside effect reason w (ok row, log) = recorded-outside (record w { log = log }) _

  -- What a decided call leaves outside, when an allowed one has the permission that is given.
  abbrev Unchanged : World O → Result TurnError Step × World O → Type 0
  Unchanged w r = (r.1.outside ≡ w.outside) ⊎ Allowed w.log

  refused-Unchanged :
      (t : Tool (Handler O)) (effect reason : String) (grant : Option Row) (d : Decision)
      (w : World O)
      → d ≢ allow
      → (carry_out s now reply_id index call t effect grant (d, reason) w).1.outside ≡ w.outside
  unfolding carry_out ask_owner
  refused-Unchanged t effect reason grant allow w h = absurd (h refl)
  refused-Unchanged t effect reason grant ask w h = asked-outside effect reason w _
  refused-Unchanged t effect reason grant deny w h = recorded-outside w _

  spent-Unchanged :
      (t : Tool (Handler O)) (effect reason : String) (w : World O)
      (r : Result ApprovalError Row × Rows)
      → ((row : Row) → (log : Rows) → r ≡ (ok row, log) → Allowed w.log)
      → Unchanged w (spent s now reply_id index call t effect reason w r)
  unfolding spent
  spent-Unchanged t effect reason w (err e, log) h = inl refl
  spent-Unchanged t effect reason w (ok row, log) h = inr (h row log refl)

  module _ (t : Tool (Handler O)) (effect : String) (w : World O)
      (found : get call.name s.registry ≡ some t) (formed : is_empty call.malformed ≡ true) where
    granted-Unchanged :
        (question : String) (grant : Row) (v : Result ToolError Verdict)
        → check s.policy t s.role (dictionary call.arguments) false false ≡ ok (ask, question)
        → granted_for t.name (s.digest call.arguments) w.log ≡ ok (some grant)
        → check s.policy t s.role (dictionary call.arguments) true false ≡ v
        → Unchanged w (with_grant s now reply_id index call t effect grant v w)
    unfolding with_grant
    granted-Unchanged question grant (err e) h g v = inl refl
    granted-Unchanged question grant (ok (ask, reason)) h g v =
        inl (refused-Unchanged t effect reason (some grant) ask w (λ e. cc))
    granted-Unchanged question grant (ok (deny, reason)) h g v =
        inl (refused-Unchanged t effect reason (some grant) deny w (λ e. cc))
    granted-Unchanged question grant (ok (allow, reason)) h g v =
        unfold carry_out spend_and_run in
        spent-Unchanged t effect reason w _ (λ row log used.
          (t, reason, found, formed, inr (question, h, v, (grant, row, log, g, used))))

    asked-Unchanged :
        (question : String) (r : Result ApprovalError (Option Row))
        → check s.policy t s.role (dictionary call.arguments) false false ≡ ok (ask, question)
        → granted_for t.name (s.digest call.arguments) w.log ≡ r
        → Unchanged w (if_granted s now reply_id index call t effect question r w)
    unfolding if_granted
    asked-Unchanged question (err e) h g = inl refl
    asked-Unchanged question (ok none) h g =
        inl (refused-Unchanged t effect question none ask w (λ e. cc))
    asked-Unchanged question (ok (some grant)) h g = granted-Unchanged question grant _ h g refl

    decided-Unchanged :
        (v : Result ToolError Verdict)
        → check s.policy t s.role (dictionary call.arguments) false false ≡ v
        → Unchanged w (decided s now reply_id index call t effect (or_refused s.message_of v) w)
    unfolding decided
    decided-Unchanged (err e) h = inl (refused-Unchanged t effect _ none deny w (λ e'. cc))
    decided-Unchanged (ok (allow, reason)) h = inr (t, reason, found, formed, inl h)
    decided-Unchanged (ok (ask, reason)) h = asked-Unchanged reason _ h refl
    decided-Unchanged (ok (deny, reason)) h =
        inl (refused-Unchanged t effect reason none deny w (λ e. cc))

  malformed-Unchanged :
      (b : Bool) (r r' : Result TurnError Step × World O) (w : World O)
      → r.1.outside ≡ w.outside
      → (b ≡ true → Unchanged w r')
      → Unchanged w (if not b then r else r')
  malformed-Unchanged true r r' w h h' = h' refl
  malformed-Unchanged false r r' w h h' = inl h

  found_tool-Unchanged :
      (o : Option (Tool (Handler O))) (w : World O)
      → get call.name s.registry ≡ o
      → Unchanged w (found_tool s now reply_id index call o w)
  unfolding found_tool with_tool
  found_tool-Unchanged none w found = inl (recorded-outside w _)
  found_tool-Unchanged (some t) w found =
      malformed-Unchanged (is_empty call.malformed) _ _ w (recorded-outside w _)
        (λ formed. decided-Unchanged t _ w found formed _ refl)

  -- A call changes nothing outside the owner's log unless it is allowed: it names a tool of the
  -- registry with arguments that could be read, and either the policy allows it, or the policy
  -- asks, allows it once approved, and the owner's unspent grant for exactly this tool and these
  -- arguments was found and spent before the handler ran. So a request of the model is no
  -- permission, whether the call returns a step or raises an error.
  pub execute-outside :
      (w : World O) → ((execute s now reply_id index call w).1.outside ≡ w.outside) ⊎ Allowed w.log
  unfolding execute
  execute-outside w = found_tool-Unchanged (get call.name s.registry) w refl
