-- ===== src/Agent/Run.antt =====
-- `_run_tool` of python/oneiro/agent.py: how a handler runs and ends. The world is the owner's log
-- beside whatever a handler can change outside it.
use Prim.Native.String.{String, ◌++◌}
use oneiro_ostis.Prelude.{
  Bool, true, false, ◌&&◌, Option, none, some, string_comparable, if◌then◌else◌,
}
use oneiro_ostis.Prelude.Text.{clip}
use oneiro_ostis.Records.Base.{
  completed, failed, uncertain, nothing, happened, not_happened, unknown,
}
use oneiro_ostis.Records.Kinds.{action_class}
use oneiro_ostis.Memory.{Rows}
use oneiro_ostis.Tools.Schema.{Arguments}
use oneiro_ostis.Tools.{Tool}
use oneiro_ostis.Agent.Steps.{ToolCall, Ended, max_result, is_external}

pub record World (O : Type 0) : Type 0 where
  pub log : Rows
  pub outside : O

-- How a handler ends: it returns (a text, or the JSON of its value), it is not done in time, it
-- raises a `ToolError` (its message, and whether it is uncertain), a `ValueError` or an
-- `OSError`, or anything else, whose type is named.
pub data Ran : Type 0 where
  returned : String → Ran
  timed_out : Ran
  tool_error : String → Bool → Ran
  value_error : String → Ran
  raised : String → Ran

-- A handler, of the role and the arguments.
abbrev pub Handler : Type 0 → Type 0
Handler O = String → Arguments → World O → Ran × World O

-- `limit` is the time limit as the message has it.
unfoldable pub ended_as : String → Bool → Ran → Ended
unfolding clip
ended_as limit external (returned value) = record {
  outcome = if external then happened else nothing;
  state = completed;
  result = clip max_result value;
}
ended_as limit true timed_out = record { outcome = unknown; state = uncertain; result = "" }
ended_as limit false timed_out = record {
  outcome = nothing;
  state = failed;
  result = "the call did not finish within " ++ (limit ++ "s");
}
ended_as limit external (tool_error message is_uncertain) =
    if external && is_uncertain
    then record { outcome = unknown; state = uncertain; result = clip max_result message }
    else record { outcome = not_happened; state = failed; result = clip max_result message }
ended_as limit external (value_error message) = record {
  outcome = not_happened;
  state = failed;
  result = clip max_result message;
}
ended_as limit external (raised type) = record {
  outcome = not_happened;
  state = failed;
  result = "the tool raised " ++ type;
}

module _ {O : Type 0} where
  unfoldable pub run_handler :
      Option (Handler O) → ToolCall → String → String → String → World O → Ended × World O
  unfolding ended_as is_external
  run_handler none call role limit effect w = (
    record { outcome = not_happened; state = failed; result = "the tool has no handler to run" },
    w,
  )
  run_handler (some handler) call role limit effect w =
      let (ran, w') = handler role call.arguments w in (ended_as limit (is_external effect) ran, w')

  -- `_run_tool`
  unfoldable pub run_tool :
      Tool (Handler O) → ToolCall → String → String → String → World O → Ended × World O
  unfolding run_handler
  run_tool t call role limit effect w = run_handler t.handler call role limit effect w
