-- ===== src/Dream/Replay/Extent.antt =====
-- How far `estimate` of python/oneiro/dream/replay.py goes along a recorded turn.
use Prim.Native.String.{String}
use mathlib.Core.Path.{subst}
use mathlib.Core.Bool.{true≢false}
use native.Mathlib.Decide.{dec_lt}
use oneiro_ostis.Prelude.{
  ℕ, zero, suc, ◌+◌, ◌<◌, ◌≡◌, ◌↔◌, refl, sym, ◌∙◌, false, Option, none, some, List, if-cases,
  arith,
}
use oneiro_ostis.Tools.Schema.{Arguments}
use oneiro_ostis.Dream.Policy.{TurnPolicy}
use oneiro_ostis.Dream.Episode.{Episode}
use oneiro_ostis.Dream.Replay.Listing.{Prompt, same_prompts, same_prompts-true, same_prompts_refl}
use oneiro_ostis.Dream.Replay.Earlier.{Same, Same-earlier}
use oneiro_ostis.Dream.Replay.{Context, assembled, composed_chars, judged_steps, walk, estimate}

module _ (dumps : Arguments → String) (system_prompt : String) (episode : Episode)
    (context : Context) where
  module _ (policy recorded : TurnPolicy) where
    -- The two policies show the same before the step behind the first `preceding` ones.
    abbrev SameAt : ℕ → Type 0
    SameAt preceding = Same dumps system_prompt episode context policy recorded preceding

    abbrev Agreed : ℕ → Type 0
    Agreed zero = Unit
    Agreed (suc covered) = SameAt covered

    -- Where a walk over `total` steps stops.
    abbrev Extent : ℕ → ℕ × Option ℕ × ℕ → Type 0
    Extent total (covered, none, shown) = (covered ≡ total) × Agreed covered
    Extent total (covered, some position, shown) =
        (position ≡ suc covered) × (covered < total) × Agreed covered × (¬ SameAt covered)

    abbrev mine : ℕ → List Prompt
    mine preceding = assembled dumps system_prompt episode context policy preceding

    abbrev theirs : ℕ → List Prompt
    theirs preceding = assembled dumps system_prompt episode context recorded preceding

    abbrev walked : ℕ → ℕ → ℕ → ℕ × Option ℕ × ℕ
    walked left covered shown =
        walk dumps system_prompt episode context policy recorded left covered shown

    not_same :
        (covered : ℕ) → same_prompts (mine covered) (theirs covered) ≡ false → ¬ SameAt covered
    not_same covered e same = true≢false (
        sym (same_prompts_refl (mine covered))
        ∙ subst (λ ms. same_prompts (mine covered) ms ≡ false) (sym same) e)

    -- The contexts at every covered step are equal when the last one's are.
    Agreed-before :
        (covered preceding : ℕ) → Agreed covered → preceding < covered → SameAt preceding
    Agreed-before zero preceding h below = absurd (omega arith)
    Agreed-before (suc covered) preceding h below =
        Same-earlier dumps system_prompt episode context policy recorded preceding covered
          (omega arith) h

    walk-Extent :
        (left covered shown : ℕ)
        → Agreed covered
        → Extent (covered + left) (walked left covered shown)
    unfolding walk
    walk-Extent zero covered shown h = (omega arith, h)
    walk-Extent (suc left) covered shown h =
        let shown' = shown + composed_chars dumps system_prompt episode context (mine covered) in
        let shift : suc covered + left ≡ covered + suc left = omega arith in
        if-cases (Extent (covered + suc left)) (same_prompts (mine covered) (theirs covered))
          (walked left (suc covered) shown') (covered, some (suc covered), shown)
          (λ e.
            subst (λ total. Extent total (walked left (suc covered) shown')) shift
              (walk-Extent left (suc covered) shown' (same_prompts-true _ _ e)))
          (λ e. (refl, omega arith, h, not_same covered e))

    -- Where the estimate stops, as its answer says.
    abbrev pub Stops : ℕ → Option ℕ → Type 0
    Stops covered none = covered ≡ judged_steps dumps system_prompt episode context
    Stops covered (some position) =
        (position ≡ suc covered) × (covered < judged_steps dumps system_prompt episode context)

    Extent-exact :
        (total : ℕ) (found : ℕ × Option ℕ × ℕ) (preceding : ℕ)
        → Extent total found
        → preceding < total
        → SameAt preceding ↔ (preceding < found.0)
    Extent-exact total (covered, some position, shown) preceding (e, low, agreed, differ) h = (
      λ same. elim (dec_lt preceding covered) [
        | yes below ↦ below
        | no above ↦ absurd (
            differ (
              Same-earlier dumps system_prompt episode context policy recorded covered preceding
                (omega arith) same))
      ],
      λ below. Agreed-before covered preceding agreed below,
    )
    Extent-exact total (covered, none, shown) preceding (e, agreed) h =
        (λ same. omega arith, λ below. Agreed-before covered preceding agreed below)

    -- The estimate covers exactly the steps at which the two policies show the model the same
    -- messages: a judged step is covered if and only if the contexts before it are equal, so that
    -- stopping at the first divergence passes over no step that could have been compared.
    pub estimate-exact :
        (preceding : ℕ)
        → preceding < judged_steps dumps system_prompt episode context
        → SameAt preceding ↔ (
            preceding
            < (estimate dumps system_prompt episode context policy recorded).steps_covered)
    unfolding estimate
    estimate-exact preceding h =
        let total = judged_steps dumps system_prompt episode context in
        Extent-exact total (walked total 0 0) preceding
          (subst (λ n. Extent n (walked total 0 0)) (omega arith) (walk-Extent total 0 0 tt)) h

    Extent-Stops :
        (total : ℕ) (found : ℕ × Option ℕ × ℕ)
        → total ≡ judged_steps dumps system_prompt episode context
        → Extent total found
        → Stops found.0 found.1
    Extent-Stops total (covered, some position, shown) e (p, low, agreed, differ) = (p, omega arith)
    Extent-Stops total (covered, none, shown) e (all, agreed) = all ∙ e

    -- An estimate that is not truncated covers every judged step, and one that is truncated names the
    -- step right behind the covered ones, which is one of the judged steps.
    pub estimate-Stops :
        Stops
          (estimate dumps system_prompt episode context policy recorded).steps_covered
          (estimate dumps system_prompt episode context policy recorded).truncated_at
    unfolding estimate
    estimate-Stops =
        let total = judged_steps dumps system_prompt episode context in
        Extent-Stops total (walked total 0 0) refl
          (subst (λ n. Extent n (walked total 0 0)) (omega arith) (walk-Extent total 0 0 tt))
