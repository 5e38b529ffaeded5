-- ===== src/Tests/Replay.antt =====
-- The judge of recorded turns at a concrete turn.
use Prim.Native.String.{String}
use mathlib.Core.List.{map, reverse}
use oneiro_ostis.Prelude.{
  ℕ, ◌<◌, ◌≡◌, ◌↔◌, refl, Bool, true, false, Option, none, some, [], ◌∷◌, ◌==◌, string_comparable,
  take, arith, if◌then◌else◌,
}
use oneiro_ostis.Prelude.Text.{chars, numeral, join}
use oneiro_ostis.Records.Base.{completed, nothing}
use oneiro_ostis.Records.Kinds.{ConversationMessage}
use oneiro_ostis.Context.{chat_message, fitting}
use oneiro_ostis.Tools.Schema.{Arguments}
use oneiro_ostis.Dream.Policy.{TurnPolicy, recorded}
use oneiro_ostis.Dream.Episode.{Episode, RecordedStep, answered}
use oneiro_ostis.Dream.Replay.{
  Context, observation_for, judged_steps, estimate, windowed, rows_match, assembled, walk,
}
use oneiro_ostis.Dream.Replay.Earlier.{Same}
use oneiro_ostis.Dream.Replay.Window.{windowed-fitting}
use oneiro_ostis.Dream.Replay.Extent.{estimate-exact}
use oneiro_ostis.Dream.Replay.Rebuilt.{rows_match-assembled}
use oneiro_ostis.Tests.Records.{base_of}

abbrev reading : RecordedStep
reading = record {
  step = record {
    index = 1;
    tool = "read_file";
    arguments = [];
    decision = "allow";
    reason = "within the configured local permissions";
    succeeded = true;
    result = "abc";
    action_id = "act-reply-k-1";
    state = completed;
    effect = "read";
    outcome = nothing;
    may_retry = true;
  };
  observation = "read_file returned: abc";
}

abbrev episode : Episode
episode = record {
  turn_id = "reply-k";
  conversation_id = "t";
  request = "read it";
  role = "manager";
  reply = "done";
  steps = reading ∷ [];
  reason = answered;
}

abbrev context : Context
context = record { facts = "a fact" ∷ []; history = []; derived = true }

abbrev blind : TurnPolicy
blind = record recorded { name = "blind"; include_facts = false }

abbrev longer : TurnPolicy
longer = record recorded { name = "long_turn"; max_turns = 20 }

abbrev dumps : Arguments → String
dumps arguments = "{}"

abbrev loads : String → Option Arguments
loads s = if s == "{}" then some [] else none

abbrev no_arguments : Arguments → Arguments → Bool
no_arguments [] [] = true
no_arguments _ _ = false

abbrev message : String → ConversationMessage
message text = record {
  base = base_of "msg-1" completed;
  conversation_id = "t";
  role = "owner";
  text = text;
  attachments = [];
}

two_steps : 1 < judged_steps dumps "" episode context
unfolding judged_steps
two_steps = omega arith

estimate-exact_example :
    Same dumps "" episode context blind recorded 1
    ↔ (1 < (estimate dumps "" episode context blind recorded).steps_covered)
estimate-exact_example = estimate-exact dumps "" episode context blind recorded 1 two_steps

told : observation_for reading 4000 ≡ reading.observation
unfolding observation_for chars
told = refl

rows_match-assembled_example :
    rows_match dumps "" episode context loads no_arguments
      (assembled dumps "" episode context recorded 1)
      1
    ≡ some true
rows_match-assembled_example =
    rows_match-assembled dumps "" episode context loads no_arguments recorded 1 (told, tt)
      ((refl, refl), tt)

windowed-fitting_example :
    windowed (map chat_message (reverse (message "b" ∷ message "a" ∷ []))) recorded
    ≡ map chat_message (reverse (fitting 6000 0 (take 10 (message "b" ∷ message "a" ∷ []))).0)
windowed-fitting_example = windowed-fitting recorded (message "b" ∷ message "a" ∷ [])

-- Without the facts no step of the turn can be replayed; with another limit of steps all can.
covered : TurnPolicy → ℕ
covered policy = (estimate dumps "" episode context policy recorded).steps_covered

longer-covered : covered longer ≡ 2
unfolding covered estimate judged_steps walk join numeral
longer-covered = refl

blind-covered : covered blind ≡ 0
unfolding covered estimate judged_steps walk join numeral
blind-covered = refl
