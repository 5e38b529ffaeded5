-- ===== src/Dream/Replay/Earlier.antt =====
-- The contexts that python/oneiro/dream/replay.py assembles for two policies, at one step and at
-- an earlier one.
use Prim.Native.String.{String}
use mathlib.Core.List.{head-eq_of_cons-eq, tail-eq_of_cons-eq}
use oneiro_ostis.Prelude.{
  ℕ, zero, suc, ◌≤◌, ◌≡◌, refl, ap, ◌∙◌, List, [], ◌∷◌, ◌++◌, length, length-append, take, arith,
}
use oneiro_ostis.Tools.Schema.{Arguments}
use oneiro_ostis.Dream.Policy.{TurnPolicy}
use oneiro_ostis.Dream.Episode.{Episode, RecordedStep}
use oneiro_ostis.Dream.Replay.Listing.{Prompt, call, observed}
use oneiro_ostis.Dream.Replay.{
  Context, call_id, observation_for, exchange, exchanges, prelude, assembled,
}

-- Two lists that end in equally long parts are equal when the parts in front and behind are.
same_ends :
    {A : Type 0} (xs ys us vs : List A)
    → length us ≡ length vs
    → xs ++ us ≡ ys ++ vs
    → (xs ≡ ys) × (us ≡ vs)
same_ends [] [] us vs h e = (refl, e)
same_ends [] (y ∷ ys) us vs h e = absurd (omega (arith, ap length e, length-append ys vs))
same_ends (x ∷ xs) [] us vs h e = absurd (omega (arith, ap length e, length-append xs us))
same_ends (x ∷ xs) (y ∷ ys) us vs h e =
    let (rest, last) = same_ends xs ys us vs h (tail-eq_of_cons-eq e) in
    let first = head-eq_of_cons-eq e in (ap (λ z. z ∷ xs) first ∙ ap (λ zs. y ∷ zs) rest, last)

module _ (dumps : Arguments → String) (system_prompt : String) (episode : Episode)
    (context : Context) where
  -- The messages of two policies over the same steps.
  abbrev said : ℕ → List RecordedStep → List Prompt
  said limit steps = exchanges dumps system_prompt episode context limit steps

  said-length :
      (limit limit' : ℕ) (steps : List RecordedStep)
      → length (said limit steps) ≡ length (said limit' steps)
  unfolding exchanges exchange
  said-length limit limit' [] = refl
  said-length limit limit' (s ∷ ss) = omega (arith, said-length limit limit' ss)

  exchange-same :
      (limit limit' : ℕ) (s : RecordedStep) {ms ms' : List Prompt}
      → observed (call_id s) (observation_for s limit)
        ≡ observed (call_id s) (observation_for s limit')
      → ms ≡ ms'
      → exchange dumps system_prompt episode context limit s ++ ms
        ≡ exchange dumps system_prompt episode context limit' s ++ ms'
  unfolding exchange
  exchange-same limit limit' s {ms} e e' =
      ap (λ z. call (call_id s) s.tool (dumps s.arguments) ∷ z ∷ ms) e
      ∙ ap
          (λ zs.
            call (call_id s) s.tool (dumps s.arguments)
            ∷ observed (call_id s) (observation_for s limit')
            ∷ zs)
          e'

  -- What two policies say alike of some steps, they say alike of the first ones of them.
  said-earlier :
      (limit limit' m n : ℕ) (steps : List RecordedStep)
      → m ≤ n
      → said limit (take n steps) ≡ said limit' (take n steps)
      → said limit (take m steps) ≡ said limit' (take m steps)
  unfolding exchanges exchange
  said-earlier limit limit' zero n steps h e = refl
  said-earlier limit limit' (suc m) zero steps h e = absurd (omega arith)
  said-earlier limit limit' (suc m) (suc n) [] h e = refl
  said-earlier limit limit' (suc m) (suc n) (s ∷ ss) h e =
      let behind = tail-eq_of_cons-eq e in
      let told = head-eq_of_cons-eq behind in
      let rest = said-earlier limit limit' m n ss (omega arith) (tail-eq_of_cons-eq behind) in
      exchange-same limit limit' s told rest

  module _ (policy recorded : TurnPolicy) where
    -- The two policies show the same before the step behind the first `preceding` ones.
    abbrev pub Same : ℕ → Type 0
    Same preceding =
        assembled dumps system_prompt episode context policy preceding
        ≡ assembled dumps system_prompt episode context recorded preceding

    -- Where the contexts are equal they were equal at every earlier step.
    pub Same-earlier : (m n : ℕ) → m ≤ n → Same n → Same m
    unfolding assembled
    Same-earlier m n h e =
        let (front, back) =
          same_ends (prelude dumps system_prompt episode context policy)
            (prelude dumps system_prompt episode context recorded) _ _
            (said-length policy.observation_chars recorded.observation_chars (take n episode.steps))
            e in
        ap (λ xs. xs ++ said policy.observation_chars (take m episode.steps)) front
        ∙ ap (λ xs. prelude dumps system_prompt episode context recorded ++ xs)
            (said-earlier policy.observation_chars recorded.observation_chars m n episode.steps h
              back)
