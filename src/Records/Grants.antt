-- ===== src/Records/Grants.antt =====
-- What the records of python/oneiro/records.py promise about permissions, evidence and answers.
use mathlib.Core.Path.{refl}
use oneiro_ostis.Prelude.{
  ℕ, String, ◌≡◌, ◌≢◌, ◌≤◌, ◌↔◌, true, false, ok, arith, string_comparable, eq_iff,
}
use oneiro_ostis.Prelude.Text.{is_blank, is_empty, strip, is_blank-strip}
use oneiro_ostis.Records.Base.{owner_instruction, not_happened, unknown}
use oneiro_ostis.Records.Kinds.{
  Action, may_retry, requires_inspection, Experiment, may_conclude, with_repeats,
}
use oneiro_ostis.Records.Owner.{
  Approval, available, covers, consumed_by, Question, answered, with_answer,
}

-- An approval covers a call exactly when the owner granted it, it is not spent, and both the
-- tool and the digest of the arguments are the ones it names.
pub covers_iff :
    (tool digest : String) (a : Approval)
    → (covers tool digest a ≡ true) ↔ (
        (a.granted ≡ true)
        × (is_empty a.consumed_action_id ≡ true)
        × (a.provenance ≡ owner_instruction)
        × (a.tool ≡ tool)
        × (a.arguments_digest ≡ digest))
unfolding covers available
covers_iff tool digest a = (
  λ h. ground (arith, eq_iff a.tool tool, eq_iff a.arguments_digest digest),
  λ h. ground (arith, eq_iff a.tool tool, eq_iff a.arguments_digest digest),
)

-- is_blank of an empty text is true
pub is_empty-blank : (s : String) → is_blank s ≡ false → is_empty s ≡ false
unfolding is_empty is_blank
is_empty-blank String.[] h = h
is_empty-blank (String.◌∷◌ c s) h = refl

pub consumed_by-eq-ok :
    (now action_id : String) (a : Approval) {b : Approval}
    → consumed_by now action_id a ≡ ok b
    → (is_blank action_id ≡ false)
      × (b ≡ record a { base = record a.base { updated_at = now }; consumed_action_id = action_id })
unfolding consumed_by
consumed_by-eq-ok now action_id a h = ground arith

-- A grant is spent once: after `consumed_by` it covers no call at all, a second `consumed_by` is
-- refused whatever the action, and the tool, the digest and the owner's word stay as they were.
pub consumed_by_once :
    (now action_id : String) (a : Approval) {b : Approval}
    → consumed_by now action_id a ≡ ok b
    → ((tool digest : String) → covers tool digest b ≡ false)
      × ((later other : String) (x : Approval) → consumed_by later other b ≢ ok x)
      × (b.tool ≡ a.tool)
      × (b.arguments_digest ≡ a.arguments_digest)
      × (b.granted ≡ a.granted)
      × (b.consumed_action_id ≡ action_id)
unfolding covers available consumed_by
consumed_by_once now action_id a {b} h =
    let (worded, e) = consumed_by-eq-ok now action_id a h in
    let spent = is_empty-blank action_id worded in
    (
      λ tool digest. ground arith,
      λ later other x k. ground arith,
      ground arith,
      ground arith,
      ground arith,
      ground arith,
    )

-- An answered question stays answered: `with_answer` succeeds only on a question with no answer
-- and on a text that is not blank; the question text is kept, the result is answered, and a
-- second answer is refused whatever it says.
pub with_answer_once :
    (now answer : String) (q : Question) {p : Question}
    → with_answer now answer q ≡ ok p
    → (answered q ≡ false)
      × (answered p ≡ true)
      × (p.question ≡ q.question)
      × (p.answer ≡ strip answer)
      × ((later other : String) (x : Question) → with_answer later other p ≢ ok x)
unfolding with_answer answered
with_answer_once now answer q {p} h =
    let same = is_blank-strip answer in
    (ground arith, ground arith, ground arith, ground arith, λ later other x k. ground arith)

-- Evidence only grows: on an experiment that may conclude, a successful `with_repeats` counts at
-- least as many repeats as before and keeps the frozen rules, so it still may conclude.
pub may_conclude-with_repeats :
    (now : String) (repeats : ℕ) (e : Experiment) {f : Experiment}
    → with_repeats now repeats e ≡ ok f
    → may_conclude e ≡ true
    → (e.repeats ≤ f.repeats)
      × (f.repeats ≡ repeats)
      × (f.frozen_before_run ≡ e.frozen_before_run)
      × (f.min_repeats ≡ e.min_repeats)
      × (may_conclude f ≡ true)
unfolding with_repeats may_conclude
may_conclude-with_repeats now repeats e h k =
    (ground arith, ground arith, ground arith, ground arith, ground arith)

-- An action may be run again exactly when its effect is known not to have happened; then it
-- needs no inspection, and an action that needs one may not be run again.
pub may_retry_iff :
    (a : Action)
    → ((may_retry a ≡ true) ↔ (a.effect.outcome ≡ not_happened))
      × ((requires_inspection a ≡ true) ↔ (a.effect.outcome ≡ unknown))
unfolding may_retry requires_inspection
may_retry_iff a = ground arith
