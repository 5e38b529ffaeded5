-- ===== src/Tests/Agent.antt =====
-- A turn of the agent at concrete inputs: a tool that adds to a number outside the log.
use Prim.Native.String.{String}
use oneiro_ostis.Tests.Store.{unbounded}
use oneiro_ostis.Prelude.{
  ℕ, zero, suc, ◌+◌, ◌≡◌, ◌⊎◌, refl, true, false, none, some, List, [], ◌∷◌, Result, ok, err,
  if◌then◌else◌,
}
use oneiro_ostis.Tools.{Tool, check, role_may, effect_for, check_effect, decision}
use oneiro_ostis.Agent.Steps.{ToolCall, new_step}
use oneiro_ostis.Agent.Execute.{
  Moments, Setting, turn_conflict, execute, found_tool, with_tool, decided, if_granted, carry_out,
  spend_and_run, run_allowed, recorded, publish_checked, published, ask_owner, asked,
}
use oneiro_ostis.Agent.Run.{Ran, returned, timed_out, World, Handler, run_tool, run_handler}
use oneiro_ostis.Prelude.Text.{is_blank, is_space, is_empty, chars, numeral}
use oneiro_ostis.Schedule.Text.{int}
use oneiro_ostis.Tests.Schedule.{ascii}
use oneiro_ostis.Agent.StoredStep.{number_in, turn_steps}
use oneiro_ostis.Records.Kinds.{message_check, action_check}
use oneiro_ostis.Records.Owner.{approval_check, covers, available}
use oneiro_ostis.Records.Stored.{is_named_record, is_sound_record, AnyRecord, message}
use oneiro_ostis.Store.Graph.{is_name}
use oneiro_ostis.Store.Spec.{publish}
use oneiro_ostis.Memory.{publish_record, memory_entity, latest}
use oneiro_ostis.Approvals.{granted_for, lookup, request, approval_id}
use oneiro_ostis.Tools.Effects.{role_effects, get}
use oneiro_ostis.Tools.Schema.{validate}
use oneiro_ostis.Agent.Told.{Tells, execute-Tells}
use oneiro_ostis.Agent.Turn.{
  Message, ModelReply, Turn, Answered, same_message, execute_all, run_turn, run_asked,
  owner_message, owner_found, publish_message, published_message, rounds,
}
use oneiro_ostis.Agent.Ending.{AllEnd, run_turn-AllEnd}
use oneiro_ostis.Agent.Again.{run_turn-again}
use oneiro_ostis.Records.Base.{owner_instruction, completed, schema_version}
use oneiro_ostis.Agent.Outside.{AllowedIn, run_turn-outside}

-- The handler adds one; or it does so and is not done in time.
abbrev adds : Ran → Handler ℕ
adds ran role arguments w = (ran, record w { outside = w.outside + 1 })

abbrev adder : Ran → Tool (Handler ℕ)
adder ran = record {
  name = "add";
  description = "";
  properties = [];
  required = [];
  roles = "executor" ∷ [];
  effect = "database";
  handler = some (adds ran);
  effect_of = none;
}

abbrev setting : Ran → List (String × String) → Setting ℕ
setting ran decisions = record {
  registry = ("add", adder ran) ∷ [];
  policy = record { decisions = decisions; internet_enabled = false };
  role = "executor";
  tool_limit = "1.0";
  digest = λ arguments. "0123";
  message_of = λ e. "refused";
  texts = unbounded;
}

abbrev adding : ToolCall
adding = record { id = "c"; name = "add"; arguments = []; malformed = "" }

-- The model asks for two calls in its first message, and answers in words after it.
abbrev answers : ℕ → List Message → Result String ModelReply
answers zero messages = ok record { content = ""; tool_calls = adding ∷ adding ∷ [] }
answers (suc number) messages = ok record { content = "done"; tool_calls = [] }

abbrev turn : Ran → List (String × String) → Turn ℕ
turn ran decisions = record {
  setting = setting ran decisions;
  system_prompt = "";
  steps_limit = 3;
  client_id = "k";
  conversation_id = "t";
  text = "add";
  attachments = [];
  user_content = "add";
  model = answers;
  reply_context = λ log. [];
  unicode = ascii;
  asked_at = "t1";
  moments = λ index. record { granting = "t2"; acting = "t2" };
  replied_at = "t3";
}

abbrev allowing : List (String × String)
allowing = ("database", "allow") ∷ []

abbrev start : World ℕ
start = record { log = []; outside = 0 }

abbrev moment : Moments
moment = record { granting = "t2"; acting = "t2" }

run_turn-outside_example :
    ((run_turn (turn (returned "1") allowing) start).1.outside ≡ 0)
    ⊎ AllowedIn (turn (returned "1") allowing) start
run_turn-outside_example = run_turn-outside (turn (returned "1") allowing) start

run_turn-AllEnd_example :
    AllEnd (turn timed_out allowing) (run_turn (turn timed_out allowing) start)
run_turn-AllEnd_example = run_turn-AllEnd (turn timed_out allowing) start

reads_one : int ascii (numeral 1) ≡ some 1
unfolding int numeral is_empty chars
reads_one = refl

execute-Tells_example :
    Tells
      (number_in ascii)
      (setting timed_out allowing)
      moment
      "reply-k"
      1
      adding
      (execute (setting timed_out allowing) moment "reply-k" 1 adding start)
execute-Tells_example =
    execute-Tells ascii (setting timed_out allowing) moment "reply-k" 1 adding start reads_one

-- Both calls of a message run, also when the effect of the first is unknown; and none runs when the
-- policy asks and no grant is stored.
outside_after : Ran → List (String × String) → ℕ
outside_after ran decisions = (run_turn (turn ran decisions) start).1.outside

both_run : outside_after timed_out allowing ≡ 2
unfolding outside_after run_turn run_asked owner_message owner_found publish_message
    published_message publish_record publish memory_entity rounds execute_all execute found_tool
    with_tool decided if_granted carry_out spend_and_run run_allowed run_tool run_handler recorded
    publish_checked published check validate role_may role_effects effect_for check_effect decision
    get new_step message_check is_blank is_space is_name is_sound_record is_named_record
    action_check numeral
both_run = refl

none_runs : outside_after timed_out [] ≡ 0
unfolding outside_after run_turn run_asked owner_message owner_found publish_message
    published_message publish_record publish memory_entity rounds execute_all execute found_tool
    with_tool decided if_granted carry_out ask_owner asked recorded publish_checked published check
    validate role_may role_effects effect_for check_effect decision get granted_for lookup latest
    message_check is_blank is_space is_name is_sound_record is_named_record request approval_check
    numeral approval_id action_check covers available
none_runs = refl

-- A first turn that runs both calls, and a second one that comes with another policy.
abbrev first_turn : Turn ℕ
first_turn = turn (returned "1") allowing

abbrev second_turn : Turn ℕ
second_turn = turn (returned "2") []

abbrev after : World ℕ
after = (run_turn first_turn start).1

abbrev owner_said : AnyRecord
owner_said = message record {
  base = record {
    id = "msg-k";
    schema_version = schema_version;
    created_at = "t1";
    updated_at = "t1";
    provenance = owner_instruction;
    state = completed;
    labels = [];
  };
  conversation_id = "t";
  role = "owner";
  text = "add";
  attachments = [];
}

returns : (a : Answered) × (run_turn first_turn start ≡ (ok a, after))
unfolding run_turn run_asked owner_message owner_found publish_message published_message
    publish_record publish memory_entity rounds execute_all execute found_tool with_tool decided
    if_granted carry_out spend_and_run run_allowed run_tool run_handler recorded publish_checked
    published check validate role_may role_effects effect_for check_effect decision get new_step
    message_check is_blank is_space is_name is_sound_record is_named_record action_check numeral
returns = (_, refl)

stands : memory_entity "msg-k" after.log ≡ some owner_said
unfolding run_turn run_asked owner_message owner_found publish_message published_message
    publish_record publish memory_entity rounds execute_all execute found_tool with_tool decided
    if_granted carry_out spend_and_run run_allowed run_tool run_handler recorded publish_checked
    published check validate role_may role_effects effect_for check_effect decision get new_step
    message_check is_blank is_space is_name is_sound_record is_named_record action_check numeral
stands = refl

run_turn-again_example :
    (reply : AnyRecord) × (memory_entity "reply-k" after.log ≡ some reply)
    × (run_turn second_turn after ≡ (
        if same_message second_turn owner_said
        then (
          ok record {
            user = owner_said;
            reply = reply;
            steps = turn_steps ascii "reply-k" after.log;
            replayed = true;
          },
          after,
        )
        else (err turn_conflict, after)))
run_turn-again_example =
    run_turn-again first_turn second_turn start {a = returns.0} {w' = after} {user = owner_said}
      returns.1 refl stands
