-- ===== src/Dream/Replay/Rebuilt.antt =====
-- The round trip of python/oneiro/dream/replay.py: the recorded rows of a rebuilt context.
use Prim.Native.String.{String}
use mathlib.Core.List.{append_assoc, map}
use oneiro_ostis.Prelude.{
  ℕ, ◌*◌, ◌≡◌, refl, sym, ap, ◌∙◌, Bool, true, Option, none, some, List, [], ◌∷◌, ◌++◌,
  string_comparable, length, take, nat_beq_iff, equal_refl, All, arith, if◌then◌else◌,
}
use oneiro_ostis.Tools.Schema.{Arguments}
use oneiro_ostis.Context.{facts_message}
use oneiro_ostis.Dream.Policy.{TurnPolicy}
use oneiro_ostis.Dream.Episode.{Episode, RecordedStep}
use oneiro_ostis.Dream.Replay.Listing.{Prompt, chat}
use oneiro_ostis.Dream.Replay.{
  Context, observation_for, exchange, exchanges, prelude, assembled, windowed, own_rows,
  pairs_match, own_match, rows_match,
}

module _ (dumps : Arguments → String) (system_prompt : String) (episode : Episode)
    (context : Context) where
  abbrev own : List Prompt → Option (List Prompt)
  own ms = own_rows dumps system_prompt episode context ms

  abbrev told : ℕ → List RecordedStep → List Prompt
  told limit steps = exchanges dumps system_prompt episode context limit steps

  -- The calls of a turn hold no request of the owner.
  told-none : (limit : ℕ) (steps : List RecordedStep) → own (told limit steps) ≡ none
  unfolding own_rows exchanges exchange
  told-none limit [] = refl
  told-none limit (s ∷ ss) = rw (told-none limit ss) refl

  -- The rows behind the last request are found.
  own-behind :
      (front behind : List Prompt)
      → own behind ≡ none
      → own (front ++ (chat (record { role = "user"; content = episode.request }) ∷ behind))
        ≡ some behind
  unfolding own_rows
  own-behind [] behind h = rw (h, equal_refl episode.request) refl
  own-behind (m ∷ front) behind h = rw (own-behind front behind h) refl

  own-assembled :
      (policy : TurnPolicy) (preceding : ℕ)
      → own (assembled dumps system_prompt episode context policy preceding)
        ≡ some (told policy.observation_chars (take preceding episode.steps))
  unfolding assembled prelude
  own-assembled policy preceding =
      let ending = told policy.observation_chars (take preceding episode.steps) in
      let request : Prompt = chat (record { role = "user"; content = episode.request }) in
      let facts : List Prompt =
        map chat (if policy.include_facts then facts_message context.facts else []) in
      let history : List Prompt = map chat (windowed context.history policy) in
      let opening : Prompt = chat (record { role = "system"; content = system_prompt }) in
      ap (λ ms. own (opening ∷ ms))
        (append_assoc facts (history ++ request ∷ []) ending
          ∙ ap (λ ms. facts ++ ms) (append_assoc history (request ∷ []) ending)
          ∙ sym (append_assoc facts history (request ∷ ending)))
      ∙ own-behind (opening ∷ (facts ++ history)) ending
          (told-none policy.observation_chars (take preceding episode.steps))

  told-length :
      (limit : ℕ) (steps : List RecordedStep) → length (told limit steps) ≡ 2 * length steps
  unfolding exchanges exchange
  told-length limit [] = omega arith
  told-length limit (s ∷ ss) = omega (arith, told-length limit ss)

  module _ (loads : String → Option Arguments) (same : Arguments → Arguments → Bool) where
    -- What a limit shows of each step is what the model was told.
    abbrev pub AsTold : ℕ → List RecordedStep → Type 0
    AsTold limit steps = All (λ (s : RecordedStep). observation_for s limit ≡ s.observation) steps

    -- The arguments of each step are read back from their text, and equal themselves.
    abbrev pub Readable : List RecordedStep → Type 0
    Readable steps =
        All
          (λ (s : RecordedStep).
            (loads (dumps s.arguments) ≡ some s.arguments) × (same s.arguments s.arguments ≡ true))
          steps

    pairs_match-told :
        (limit : ℕ) (steps : List RecordedStep)
        → AsTold limit steps
        → Readable steps
        → pairs_match dumps system_prompt episode context loads same (told limit steps) steps
          ≡ some true
    unfolding pairs_match exchanges exchange
    pairs_match-told limit [] h k = refl
    pairs_match-told limit (s ∷ ss) (first, rest) ((reads, alike), more) =
        rw (first, equal_refl s.observation, equal_refl s.tool, reads, alike)
          (pairs_match-told limit ss rest more)

    -- The rebuilt context of a step carries the recorded calls and the recorded observations behind
    -- the owner's request, and the check of it succeeds without an error: for every policy whose
    -- limit shows of each earlier step what the model was told, whatever the facts and the
    -- history are, provided that the arguments of those steps are read back from their text and
    -- equal themselves.
    pub rows_match-assembled :
        (policy : TurnPolicy) (preceding : ℕ)
        → AsTold policy.observation_chars (take preceding episode.steps)
        → Readable (take preceding episode.steps)
        → rows_match dumps system_prompt episode context loads same
            (assembled dumps system_prompt episode context policy preceding)
            preceding
          ≡ some true
    unfolding rows_match own_match
    rows_match-assembled policy preceding h k =
        let steps = take preceding episode.steps in
        rw
          (
            own-assembled policy preceding,
            (nat_beq_iff (length (told policy.observation_chars steps)) (2 * length steps)).1
                (told-length policy.observation_chars steps),
          )
          (pairs_match-told policy.observation_chars steps h k)
