-- ===== src/Dream/Replay.antt =====
-- python/oneiro/dream/replay.py: what a candidate would have shown at each step of a recorded turn,
-- compared with what the recorded policy would have shown. `json.dumps` of a call's arguments is
-- handed in.
pub mod Listing
pub mod Window
pub mod Earlier
pub mod Extent
pub mod Rebuilt
use Prim.Native.String.{String, ◌++◌}
use mathlib.Core.List.{map, reverse, ◌++◌ as append}
use mathlib.Core.Logic.{ite}
use oneiro_ostis.Prelude.{
  ℕ, zero, suc, ◌+◌, ◌-◌, ◌*◌, Bool, true, false, not, ◌&&◌, ◌||◌, Option, none, some, List, [],
  ◌∷◌, ◌==◌, string_comparable, length, take, drop, ltb, leb, nat_beq, if◌then◌else◌,
}
use oneiro_ostis.Prelude.Text.{chars, clip, numeral, join}
use oneiro_ostis.Context.{ChatMessage, facts_message}
use oneiro_ostis.Tools.Schema.{Arguments}
use oneiro_ostis.Agent.Steps.{to_message}
use oneiro_ostis.Dream.Policy.{TurnPolicy, Knob, max_turns, changed_fields}
use oneiro_ostis.Dream.Episode.{Episode, RecordedStep, is_answered}
use Listing.{Prompt, chat, call, observed, same_prompts}

-- `Context`: the parts of a sent prompt that the recording does not carry.
pub record Context : Type 0 where
  pub facts : List String
  pub history : List ChatMessage
  pub derived : Bool

unfoldable pub call_id : RecordedStep → String
call_id s = "step-" ++ numeral s.index

-- `_clip`
unfoldable pub clipped : String → ℕ → String
unfolding chars clip
clipped text limit =
    if not (nat_beq limit 0) && ltb limit (chars text)
    then clip limit text
      ++ ("\n... [" ++ (numeral (chars text - limit) ++ " characters truncated]"))
    else text

-- `observation_for`
unfoldable pub observation_for : RecordedStep → ℕ → String
unfolding clipped to_message chars
observation_for s limit =
    if nat_beq limit 0 || leb (chars s.result) limit
    then s.observation
    else to_message (record s.step { result = clipped s.result limit })

-- The rows that fit, newest first.
unfoldable pub kept_within : ℕ → ℕ → List ChatMessage → List ChatMessage
unfolding chars
kept_within budget used [] = []
kept_within budget used (row ∷ rows) =
    let rest = kept_within budget (used + chars row.content) rows in
    if ltb budget (used + chars row.content) then [] else row ∷ rest

-- `history[-n:]`
abbrev last_rows : ℕ → List ChatMessage → List ChatMessage
last_rows n rows = drop (length rows - n) rows

-- `_windowed`
unfoldable pub windowed : List ChatMessage → TurnPolicy → List ChatMessage
unfolding kept_within
windowed history policy =
    if nat_beq policy.history_messages 0
    then []
    else reverse
        (kept_within policy.context_chars 0 (reverse (last_rows policy.history_messages history)))

-- The sentences of `notes`.
pub data Remark : Type 0 where
  diverges : ℕ → ℕ → Remark
  unchanged_context read_now : Remark
  would_clip : ℕ → Remark

-- `Estimate`
pub record Estimate : Type 0 where
  pub turn_id : String
  pub policy : String
  pub steps_total : ℕ
  pub steps_covered : ℕ
  pub truncated_at : Option ℕ
  pub chars_shown : ℕ
  pub clipped_observations : ℕ
  pub notes : List Remark

abbrev is_only_turns : List Knob → Bool
is_only_turns (max_turns ∷ []) = true
is_only_turns _ = false

abbrev course_notes : Option ℕ → ℕ → List Knob → List Remark
course_notes (some position) total changed = diverges position total ∷ []
course_notes none total changed = if is_only_turns changed then unchanged_context ∷ [] else []

module _ (dumps : Arguments → String) (system_prompt : String) (episode : Episode)
    (context : Context) where
  -- The call of a step and what the model was told about it.
  unfoldable pub exchange : ℕ → RecordedStep → List Prompt
  unfolding call_id observation_for
  exchange limit s =
      call (call_id s) s.tool (dumps s.arguments)
      ∷ observed (call_id s) (observation_for s limit)
      ∷ []

  unfoldable pub exchanges : ℕ → List RecordedStep → List Prompt
  unfolding exchange
  exchanges limit [] = []
  exchanges limit (s ∷ ss) = append (exchange limit s) (exchanges limit ss)

  abbrev spoken : String → String → Prompt
  spoken role content = chat (record { role = role; content = content })

  -- What stands before the calls.
  unfoldable pub prelude : TurnPolicy → List Prompt
  unfolding windowed facts_message
  prelude policy =
      spoken "system" system_prompt
      ∷ append (map chat (if policy.include_facts then facts_message context.facts else []))
          (append (map chat (windowed context.history policy)) (spoken "user" episode.request ∷ []))

  -- `assemble`, for the step behind the first `preceding` ones.
  unfoldable pub assembled : TurnPolicy → ℕ → List Prompt
  unfolding prelude exchanges
  assembled policy preceding =
      append (prelude policy) (exchanges policy.observation_chars (take preceding episode.steps))

  -- `assemble`: a step's number is one or more.
  unfoldable pub assemble : TurnPolicy → ℕ → Option (List Prompt)
  unfolding assembled
  assemble policy zero = none
  assemble policy (suc preceding) = some (assembled policy preceding)

  abbrev prompt_chars : Prompt → ℕ
  prompt_chars (chat m) = chars m.content
  prompt_chars (call id tool arguments) = 0
  prompt_chars (observed id content) = chars content

  -- `composed_chars`
  unfoldable pub composed_chars : List Prompt → ℕ
  unfolding chars
  composed_chars [] = 0
  composed_chars (m ∷ ms) = prompt_chars m + composed_chars ms

  -- `judged_steps`
  unfoldable pub judged_steps : ℕ
  judged_steps = length episode.steps + (if is_answered episode.reason then 1 else 0)

  -- The loop of `estimate`, over the steps that are left behind the covered ones: how many are
  -- covered, where the recording stops being evidence, and the characters shown.
  unfoldable pub walk : TurnPolicy → TurnPolicy → ℕ → ℕ → ℕ → ℕ × Option ℕ × ℕ
  unfolding assembled composed_chars same_prompts
  walk policy recorded zero covered shown = (covered, none, shown)
  walk policy recorded (suc left) covered shown =
      if same_prompts (assembled policy covered) (assembled recorded covered)
      then walk policy recorded left (suc covered)
          (shown + composed_chars (assembled policy covered))
      else (covered, some (suc covered), shown)

  unfoldable pub clipped_count : ℕ → List RecordedStep → ℕ
  unfolding observation_for
  clipped_count limit [] = 0
  clipped_count limit (s ∷ ss) =
      (if observation_for s limit == s.observation then 0 else 1) + clipped_count limit ss

  -- `estimate`, of a context that was given.
  unfoldable pub estimate : TurnPolicy → TurnPolicy → Estimate
  unfolding judged_steps walk clipped_count changed_fields
  estimate policy recorded =
      let (covered, truncated, shown) = walk policy recorded judged_steps 0 0 in
      let clipped_ones = clipped_count policy.observation_chars episode.steps in
      record {
        turn_id = episode.turn_id;
        policy = policy.name;
        steps_total = judged_steps;
        steps_covered = covered;
        truncated_at = truncated;
        chars_shown = shown;
        clipped_observations = clipped_ones;
        notes = append (course_notes truncated judged_steps (changed_fields policy recorded)) (
            append (if context.derived then read_now ∷ [] else [])
              (if nat_beq clipped_ones 0 then [] else would_clip clipped_ones ∷ []));
      }

  abbrev is_request : Prompt → Bool
  is_request (chat m) = m.role == "user" && m.content == episode.request
  is_request _ = false

  -- The messages behind the last one that is the request.
  unfoldable pub own_rows : List Prompt → Option (List Prompt)
  own_rows [] = none
  own_rows (m ∷ ms) = elim (own_rows ms) [
    | some own ↦ some own
    | none ↦ if is_request m then some ms else none
  ]

  -- The loop of `_rows_match` over the stored steps; `loads` is `json.loads`, and `same` its value's
  -- `==`. An error of Python's is `none`: of `loads`, and of an assistant's message without a call.
  unfoldable pub pairs_match :
      (String → Option Arguments)
      → (Arguments → Arguments → Bool)
      → List Prompt
      → List RecordedStep
      → Option Bool
  pairs_match loads same own [] = some true
  pairs_match loads same (call id tool arguments ∷ observed id' content ∷ own) (s ∷ ss) =
      let rest = pairs_match loads same own ss in
      if not (content == s.observation) || not (tool == s.tool)
      then some false
      else elim (loads arguments) [
        | none ↦ none
        | some read ↦ if same read s.arguments then rest else some false
      ]
  pairs_match loads same (chat m ∷ observed id' content ∷ own) (s ∷ ss) =
      if m.role == "assistant" then none else some false
  pairs_match loads same _ (s ∷ ss) = some false

  unfoldable pub own_match :
      (String → Option Arguments)
      → (Arguments → Arguments → Bool)
      → Option (List Prompt)
      → List RecordedStep
      → Option Bool
  unfolding pairs_match
  own_match loads same none preceding = some false
  own_match loads same (some own) preceding =
      if nat_beq (length own) (2 * length preceding)
      then pairs_match loads same own preceding
      else some false

  -- `_rows_match`, for the step behind the first `preceding` ones.
  unfoldable pub rows_match :
      (String → Option Arguments) → (Arguments → Arguments → Bool) → List Prompt → ℕ → Option Bool
  unfolding own_rows own_match
  rows_match loads same messages preceding =
      own_match loads same (own_rows messages) (take preceding episode.steps)
