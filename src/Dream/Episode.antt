-- ===== src/Dream/Episode.antt =====
-- python/oneiro/dream/episode.py: one recorded turn, read back. The index of a step, which is read
-- off a label or off the action's name, is handed in.
use Prim.Native.String.{String, ◌++◌}
use oneiro_ostis.Prelude.{
  ℕ, Bool, true, false, not, ◌||◌, List, Result, ok, err, ◌==◌, string_comparable, length, keep_if,
  if◌then◌else◌,
}
use oneiro_ostis.Prelude.Text.{is_empty}
use oneiro_ostis.Records.Base.{State, waiting, completed, failed, cancelled, uncertain}
use oneiro_ostis.Records.Kinds.{Action}
use oneiro_ostis.Tools.Paths.{starts_with}
use oneiro_ostis.Agent.Steps.{Step, may_retry, to_message}
use oneiro_ostis.Agent.StoredStep.{stored_with}

-- Why the turn ended.
pub data StopReason : Type 0 where
  ended_uncertain ended_waiting ended_cancelled stopped answered still_open : StopReason

-- `stop_reason`
unfoldable pub stop_reason : State → StopReason
stop_reason uncertain = ended_uncertain
stop_reason waiting = ended_waiting
stop_reason cancelled = ended_cancelled
stop_reason failed = stopped
stop_reason completed = answered
stop_reason _ = still_open

-- `removeprefix`, of a prefix that is there
unfoldable pub behind : String → String → String
behind String.[] s = s
behind (String.◌∷◌ c cs) String.[] = String.[]
behind (String.◌∷◌ c cs) (String.◌∷◌ d s) = behind cs s

pub data EpisodeError : Type 0 where
  no_turn_id : String → EpisodeError

-- `turn_parts`: the client's identifier and the identifier of the owner's message.
unfoldable pub turn_parts : String → Result EpisodeError (String × String)
unfolding starts_with behind is_empty
turn_parts turn_id =
    let client = behind "reply-" turn_id in
    if not (starts_with "reply-" turn_id) || is_empty client
    then err (no_turn_id turn_id)
    else ok (client, "msg-" ++ client)

-- `action_prefix`
unfoldable pub action_prefix : String → String
action_prefix turn_id = "act-" ++ (turn_id ++ "-")

-- A step with what the model was told.
pub record RecordedStep : Type 0 where
  pub step : Step
  pub open step use *
  pub observation : String

-- `_step`: the step of the live turn's rule, but that it may be repeated by its effect alone.
unfoldable pub recorded_step : ℕ → Action → RecordedStep
unfolding stored_with may_retry to_message
recorded_step index a =
    let view = record (stored_with (λ labels. index) a) {
      may_retry = may_retry a.effect.kind a.effect.outcome a.state;
    } in
    record { step = view; observation = to_message view }

pub record Episode : Type 0 where
  pub turn_id : String
  pub conversation_id : String
  pub request : String
  pub role : String
  pub reply : String
  pub steps : List RecordedStep
  pub reason : StopReason

-- `calls`
unfoldable pub calls : Episode → ℕ
calls e = length e.steps

-- `refusals`
unfoldable pub refusals : Episode → List RecordedStep
refusals e = keep_if (λ (s : RecordedStep). not (s.decision == "allow")) e.steps

abbrev pub is_answered : StopReason → Bool
is_answered answered = true
is_answered _ = false
