-- ===== src/Agent/ReadBack.antt =====
-- A call of python/oneiro/agent.py as it is read back from its record.
use Prim.Native.Char.{Char}
use Prim.Native.String.{String, [], ◌∷◌, ◌++◌}
use text.Mathlib.TextLemmas.{cons-append, nil-append}
use mathlib.Core.Bool.{true≢false}
use oneiro_ostis.Prelude.{
  ℕ, ◌≡◌, ◌≢◌, inl, inr, refl, ap, ◌∙◌, true, false, ◌==◌, string_comparable, some, List,
  Bool-cases,
}
use oneiro_ostis.Prelude.Text.{is_empty, or_else, numeral}
use oneiro_ostis.Records.Base.{State}
use oneiro_ostis.Schedule.Text.{Unicode, one, partition, int}
use oneiro_ostis.Tools.{Decision, allow, ask, deny}
use oneiro_ostis.Agent.Steps.{
  ToolCall, Ended, step_label, new_step, refused_step, stored_result, refusal, decision_word,
}
use oneiro_ostis.Agent.StoredStep.{
  stored_with, number_in, stored_parts, behind_colon, last_part, step_from, step_index, or_zero,
}
use oneiro_ostis.Tools.Paths.{starts_with}

-- A text without a separator, and a text of one line.
abbrev pub Lacks : String → String → Type 0
Lacks sep s = (partition sep s).0 ≡ false

abbrev pub IsLine : String → Type 0
IsLine s = Lacks "\n" s

line_feed : (t : String) → "\n" ++ t ≡ "\n" ∷ t
line_feed t = cons-append "\n" [] t ∙ ap (λ (x : String). "\n" ∷ x) (nil-append t)

colon_blank : (t : String) → ": " ++ t ≡ ":" ∷ (" " ∷ t)
colon_blank t =
    cons-append ":" " " t
    ∙ ap (λ (x : String). ":" ∷ x)
        (cons-append " " [] t ∙ ap (λ (x : String). " " ∷ x) (nil-append t))

Lacks-tail :
    (sep : String) (c : Char) (s : String)
    → Lacks sep (c ∷ s)
    → ((one c == sep) ≡ false) × Lacks sep s
unfolding partition
Lacks-tail sep c s h = elim (Bool-cases (one c == sep)) [
  | inl e ↦ absurd (true≢false (rw e at h))
  | inr e ↦ (e, rw e at h)
]

partition-line : (s t : String) → IsLine s → partition "\n" (s ++ ("\n" ++ t)) ≡ (true, s, t)
unfolding partition
partition-line [] t h = rw (nil-append, line_feed t) refl
partition-line (c ∷ s) t h =
    let (e, rest) = Lacks-tail "\n" c s h in
    rw (cons-append c s ("\n" ++ t), partition-line s t rest, e) refl

partition-whole : (s : String) → IsLine s → partition "\n" s ≡ (false, s, "")
unfolding partition
partition-whole [] h = refl
partition-whole (c ∷ s) h =
    let (e, rest) = Lacks-tail "\n" c s h in rw (partition-whole s rest, e) refl

stored_parts-line :
    (reason result : String)
    → IsLine reason
    → stored_parts "allow" (stored_result reason result) ≡ (reason, result)
unfolding stored_parts stored_result is_empty
stored_parts-line reason [] h = rw (partition-whole reason h) refl
stored_parts-line reason (c ∷ s) h = rw (partition-line reason (c ∷ s) h) refl

behind_colon-word :
    (word reason : String) → Lacks ":" word → behind_colon (word ++ (": " ++ reason)) ≡ some reason
unfolding behind_colon
behind_colon-word [] reason h = rw (nil-append, colon_blank reason) refl
behind_colon-word (c ∷ []) reason h =
    let (e, rest) = Lacks-tail ":" c [] h in
    rw (cons-append c [] (": " ++ reason), nil-append (": " ++ reason), colon_blank reason, e) refl
behind_colon-word (c ∷ (d ∷ s)) reason h =
    let (e, rest) = Lacks-tail ":" c (d ∷ s) h in
    let later = behind_colon-word (d ∷ s) reason rest in
    rw (cons-append c (d ∷ s) (": " ++ reason), cons-append d s (": " ++ reason), e)
      (rw (cons-append d s (": " ++ reason)) at later)

-- What is read back of a call that was not made.
stored_parts-refusal :
    (decision reason : String)
    → (decision == "allow") ≡ false
    → Lacks ":" decision
    → stored_parts decision (refusal decision reason) ≡ (reason, refusal decision reason)
unfolding stored_parts refusal last_part
stored_parts-refusal decision reason h plain = rw (h, behind_colon-word decision reason plain) refl

step_text : (s : String) → "step:" ++ s ≡ "s" ∷ ("t" ∷ ("e" ∷ ("p" ∷ (":" ∷ s))))
step_text s =
    cons-append "s" "tep:" s
    ∙ ap (λ (x : String). "s" ∷ x)
        (cons-append "t" "ep:" s
          ∙ ap (λ (x : String). "t" ∷ x)
              (cons-append "e" "p:" s
                ∙ ap (λ (x : String). "e" ∷ x)
                    (cons-append "p" ":" s
                      ∙ ap (λ (x : String). "p" ∷ x)
                          (cons-append ":" [] s ∙ ap (λ (x : String). ":" ∷ x) (nil-append s)))))

-- The number of a step is read back from the label of its record, when `int` reads the number's own
-- text.
pub step_index-label :
    (u : Unicode) (index : ℕ)
    → int u (numeral index) ≡ some index
    → number_in u (step_label index) ≡ index
unfolding step_index starts_with partition or_zero
step_index-label u index reads = rw (step_text (numeral index)) (rw reads refl)

module _ (number : List String → ℕ) (now : String) (index : ℕ)
    (numbers : number (step_label index) ≡ index) (call : ToolCall)
    (reason action_id run_id effect : String) where
  -- The step of a call that ran is read back from its record as it was, when the reason is one line.
  pub stored_step-new_step :
      (tool : String) (ended : Ended)
      → IsLine reason
      → stored_with number
          (new_step now index tool call allow reason action_id run_id ended effect).1
        ≡ (new_step now index tool call allow reason action_id run_id ended effect).0
  unfolding stored_with new_step or_else decision_word is_empty
  stored_step-new_step tool ended h =
      let act = (new_step now index tool call allow reason action_id run_id ended effect).1 in
      ap (step_from (number act.labels) act "allow") (stored_parts-line reason ended.result h)
      ∙ (unfold step_from in rw numbers refl)

  -- The step of a call that was not made is read back from its record as it was.
  pub stored_step-refused_step :
      (decision : Decision) (state : State)
      → decision ≢ allow
      → stored_with number
          (refused_step now index call decision reason state action_id run_id effect).1
        ≡ (refused_step now index call decision reason state action_id run_id effect).0
  unfolding stored_with refused_step or_else decision_word is_empty
  stored_step-refused_step allow state h = absurd (h refl)
  stored_step-refused_step ask state h =
      let act = (refused_step now index call ask reason state action_id run_id effect).1 in
      ap (step_from (number act.labels) act "ask")
        (stored_parts-refusal "ask" reason refl (unfold partition in refl))
      ∙ (unfold step_from in rw numbers refl)
  stored_step-refused_step deny state h =
      let act = (refused_step now index call deny reason state action_id run_id effect).1 in
      ap (step_from (number act.labels) act "deny")
        (stored_parts-refusal "deny" reason refl (unfold partition in refl))
      ∙ (unfold step_from in rw numbers refl)
