-- ===== src/Approvals/Spent.antt =====
-- A grant is used once: whatever is done afterwards, a spent grant is found by no later call.
use Prim.Native.String
use oneiro_ostis.Prelude.{
  String, ◌≡◌, ◌≢◌, refl, sym, ap, ◌∙◌, inl, inr, Bool, true, false, not, ◌||◌, Option, none, some,
  List, [], ◌∷◌, Result, ok, err, ◌>>=◌, ◌==◌, string_comparable, Bool-cases, if◌then◌else◌, arith,
  eq_iff, >>=-eq-ok,
}
use oneiro_ostis.Prelude.Text.{is_empty}
use oneiro_ostis.Records.Base.{checked, is_state, waiting}
use oneiro_ostis.Records.Owner.{Approval, approval_class, available, covers}
use oneiro_ostis.Records.Stored.{Texts, approval, any_base}
use oneiro_ostis.Memory.{Row, Rows, latest}
use oneiro_ostis.Memory.Revisions.{latest-fits}
use oneiro_ostis.Approvals.{
  ApprovalError, as_approval, stored_approval, approval_id, lookup, granted_for, decide_found,
  if_covers, proposal, request, decided, decide_on, decide, consume,
}
use oneiro_ostis.Approvals.Used.{
  used, IsSpent, request-keeps, checked_keeps, consume_on-keeps, decided-id, stored-content,
  latest-used,
}

-- A call of this module, with whatever arguments.
pub data Operation : Type 0 where
  ask : String → String → String → String → String → String → Operation
  rule : String → String → Bool → String → String → Operation
  use_up : String → Row → String → Operation

module _ (texts : Texts) where
  unfoldable pub run : Operation → Rows → Result ApprovalError Row × Rows
  run (ask now action_id tool digest reason task_id) log =
      request texts now action_id tool digest reason task_id log
  run (rule now id granted actor reason) log = decide texts now id granted actor reason log
  run (use_up now row action_id) log = consume texts now row action_id log

  -- The log after a sequence of calls, whichever of them succeed.
  unfoldable pub run_all : List Operation → Rows → Rows
  unfolding run
  run_all [] log = log
  run_all (o ∷ os) log = run_all os (run o log).1

module _ (texts : Texts) where
  -- A decision that is written is on another record than a spent proposal.
  other_record :
      (id now : String) (granted : Bool) (reason target : String) (row : Row) (a b : Approval)
      (log : Rows)
      → IsSpent id log
      → latest "approval" target log ≡ some row
      → as_approval row.content ≡ ok a
      → decided texts now granted reason a ≡ ok b
      → (not (is_state a.state waiting) || not (is_empty a.consumed_action_id)) ≡ false
      → (b.id == id) ≡ false
  unfolding any_base
  other_record id now granted reason target row a b log h l k made free =
      elim (Bool-cases (b.id == id)) [
        | inr differ ↦ differ
        | inl same ↦
            let fits : ((any_base row.content).id == target) ≡ true =
              (latest-fits "approval" target log l).1 in
            let content : row.content ≡ approval a = stored-content row.content a k in
            let on_target : a.id ≡ target =
              (eq_iff a.id target).0 (ap (λ r. (any_base r).id == target) (sym content) ∙ fits) in
            let on_id : target ≡ id =
              sym on_target
              ∙ sym (decided-id texts now granted reason a made)
              ∙ (eq_iff b.id id).0 same in
            let found : latest "approval" id log ≡ some row =
              ap (λ t. latest "approval" t log) (sym on_id) ∙ l in
            let u : used (approval a) ≡ true = latest-used id log row a h found k in ground arith
      ]

  decide_on-keeps :
      (id now : String) (granted : Bool) (reason target : String) (row : Row)
      (r : Result ApprovalError Approval) (log : Rows)
      → latest "approval" target log ≡ some row
      → as_approval row.content ≡ r
      → IsSpent id log
      → IsSpent id (decide_on texts now granted reason row r log).1
  unfolding decide_on any_base
  decide_on-keeps id now granted reason target row (err e) log l k h = h
  decide_on-keeps id now granted reason target row (ok a) log l k h =
      elim (Bool-cases (not (is_state a.state waiting) || not (is_empty a.consumed_action_id))) [
        | inl e ↦ rw e h
        | inr e ↦ rw e (
            checked_keeps texts id log (decided texts now granted reason a)
              (String.◌++◌ "decision-" a.id) row.revision
              (λ b made. inl (other_record id now granted reason target row a b log h l k made e))
              h)
      ]

  decide_found-keeps :
      (id now : String) (granted : Bool) (reason target : String) (o : Option Row) (log : Rows)
      → latest "approval" target log ≡ o
      → IsSpent id log
      → IsSpent id (decide_found texts now granted reason o log).1
  unfolding decide_found stored_approval
  decide_found-keeps id now granted reason target none log l h = h
  decide_found-keeps id now granted reason target (some row) log l h =
      decide_on-keeps id now granted reason target row (as_approval row.content) log l refl h

  decide-keeps :
      (id now target : String) (granted : Bool) (actor reason : String) (log : Rows)
      → IsSpent id log
      → IsSpent id (decide texts now target granted actor reason log).1
  unfolding decide
  decide-keeps id now target granted actor reason log h = elim (Bool-cases (actor == "owner")) [
    | inl e ↦
        rw e (
          decide_found-keeps id now granted reason target (latest "approval" target log) log refl h)
    | inr e ↦ rw e h
  ]

  run-keeps :
      (id : String) (o : Operation) (log : Rows) → IsSpent id log → IsSpent id (run texts o log).1
  unfolding run request consume
  run-keeps id (ask now action_id tool digest reason task_id) log h =
      request-keeps texts id (checked (proposal texts now action_id tool digest reason task_id)) log
        h
  run-keeps id (rule now target granted actor reason) log h =
      decide-keeps id now target granted actor reason log h
  run-keeps id (use_up now row action_id) log h =
      consume_on-keeps texts id now row (stored_approval row) action_id log h

  -- Once the newest revision of a proposal is used, it stays used after every sequence of requests,
  -- decisions and consumptions, with whatever arguments and whichever of them succeed.
  pub run_all-IsSpent :
      (id : String) (os : List Operation) (log : Rows)
      → IsSpent id log
      → IsSpent id (run_all texts os log)
  unfolding run_all
  run_all-IsSpent id [] log h = h
  run_all-IsSpent id (o ∷ os) log h =
      run_all-IsSpent id os (run texts o log).1 (run-keeps id o log h)

covered :
    (tool digest : String) (a : Approval) → used (approval a) ≡ true → covers tool digest a ≡ false
unfolding covers available
covered tool digest a u = ground arith

if_covers-none :
    (tool id : String) (o : Option Row) (log : Rows) (row : Row)
    → latest "approval" id log ≡ o
    → IsSpent id log
    → if_covers tool o ≢ ok (some row)
unfolding if_covers stored_approval
if_covers-none tool id none log row l h = λ k. ground arith
if_covers-none tool id (some x) log row l h = λ k.
    let shown : Approval → Result ApprovalError (Option Row) =
      λ a. ok (if covers tool a.arguments_digest a then some x else none) in
    let opened : (as_approval x.content >>= shown) ≡ ok (some row) = k in
    let (a, e, m) = >>=-eq-ok (as_approval x.content) shown opened in
    let off : covers tool a.arguments_digest a ≡ false =
      covered tool a.arguments_digest a (latest-used id log x a h l e) in
    ground arith

-- A spent grant releases no call: after any sequence of requests, decisions and consumptions,
-- `granted_for` shows no grant for the call whose proposal has been used.
pub granted_for-spent :
    (texts : Texts) (tool digest : String) (os : List Operation) (log : Rows) (row : Row)
    → IsSpent (approval_id tool digest) log
    → granted_for tool digest (run_all texts os log) ≢ ok (some row)
unfolding granted_for lookup
granted_for-spent texts tool digest os log row h =
    let after = run_all texts os log in
    if_covers-none tool (approval_id tool digest)
      (latest "approval" (approval_id tool digest) after) after row refl
      (run_all-IsSpent texts (approval_id tool digest) os log h)
