-- ===== src/Agent/Steps.antt =====
-- A tool call of python/oneiro/agent.py as the reply and the record show it.
use Prim.Native.String.{String, ◌++◌}
use oneiro_ostis.Prelude.{
  ℕ, Bool, true, false, not, Option, some, List, ◌==◌, string_comparable, contains, if◌then◌else◌,
}
use oneiro_ostis.Prelude.Text.{is_empty, numeral}
use oneiro_ostis.Prelude.Json.{Json, text}
use oneiro_ostis.Records.Base.{
  Base, Provenance, verified_tool_outcome, system, State, uncertain, completed, is_state,
  EffectOutcome, nothing, permits_blind_retry, schema_version,
}
use oneiro_ostis.Records.Kinds.{Action}
use oneiro_ostis.Schedule.Text.{partition}
use oneiro_ostis.Tools.Effects.{get}
use oneiro_ostis.Tools.Schema.{Arguments}
use oneiro_ostis.Tools.{Decision, allow, ask, deny}

-- `MAX_RESULT`
abbrev pub max_result : ℕ
max_result = 4000

-- `EXTERNAL_EFFECTS`
abbrev external_effects : List String
external_effects = List.◌∷◌ "workspace_write" (
    List.◌∷◌ "write_outside" (
      List.◌∷◌ "configure" (
        List.◌∷◌ "delete" (
          List.◌∷◌ "database" (
            List.◌∷◌ "sandbox" (
              List.◌∷◌ "install" (
                List.◌∷◌ "publish" (
                  List.◌∷◌ "send"
                    (List.◌∷◌ "upload" (List.◌∷◌ "autostart" (List.◌∷◌ "mcp_call" List.[])))))))))))

unfoldable pub is_external : String → Bool
is_external effect = contains external_effects effect

unfoldable pub decision_word : Decision → String
decision_word allow = "allow"
decision_word ask = "ask"
decision_word deny = "deny"

-- `ToolCall` of python/oneiro/chat.py
pub record ToolCall : Type 0 where
  pub id : String
  pub name : String
  pub arguments : Arguments
  pub malformed : String

-- The decision of a step is the word that the record carries.
pub record Step : Type 0 where
  pub index : ℕ
  pub tool : String
  pub arguments : Arguments
  pub decision : String
  pub reason : String
  pub succeeded : Bool
  pub result : String
  pub action_id : String
  pub state : State
  pub effect : String
  pub outcome : EffectOutcome
  pub may_retry : Bool

-- `to_message`
unfoldable pub to_message : Step → String
to_message s =
    if not (s.decision == "allow")
    then s.tool
      ++ (" did not run ("
          ++ (s.decision ++ (": " ++ (s.reason ++ "). That call is recorded as not made."))))
    else if is_state s.state uncertain
    then s.tool
      ++ (" did not finish inside the time limit. Whether it "
          ++ "changed anything is unknown, so it will not be retried.")
    else if not s.succeeded
    then s.tool ++ (" failed: " ++ s.result)
    else s.tool ++ (" returned: " ++ s.result)

-- `may_retry`. The outcome that permits it is the one that says that nothing happened.
unfoldable pub may_retry : String → EffectOutcome → State → Bool
may_retry effect outcome state =
    if is_state state uncertain
    then false
    else if not (is_external effect)
    then true
    else permits_blind_retry outcome

-- `_decision_provenance`
unfoldable pub decision_provenance : Decision → Provenance
decision_provenance allow = verified_tool_outcome
decision_provenance _ = system

abbrev text_or : Option Json → String → String
text_or (some (text value)) later = value
text_or _ later = later

-- `_target`
unfoldable pub target_of : Arguments → String
unfolding get
target_of arguments =
    text_or (get "path" arguments)
      (text_or (get "url" arguments) (text_or (get "target" arguments) ""))

-- `effect_target`
unfoldable pub effect_target : String → String → Arguments → String
unfolding target_of partition
effect_target tool effect arguments =
    let (dot, server, rest) = partition "." tool in
    if effect == "mcp_call" then (if dot then server else tool) else target_of arguments

-- `f"{reason}\n{result}" if result else reason`
unfoldable pub stored_result : String → String → String
unfolding is_empty
stored_result reason result = if is_empty result then reason else reason ++ ("\n" ++ result)

abbrev pub step_label : ℕ → List String
step_label index = List.◌∷◌ ("step:" ++ numeral index) List.[]

-- The fields that the two records of a call share, at the clock's reading `now`.
abbrev action_base : String → String → Provenance → State → ℕ → Base
action_base now id provenance state index = record {
  id = id;
  schema_version = schema_version;
  created_at = now;
  updated_at = now;
  provenance = provenance;
  state = state;
  labels = step_label index;
}

-- What ran: the outcome, the state and the result of `_run_tool`.
pub record Ended : Type 0 where
  pub outcome : EffectOutcome
  pub state : State
  pub result : String

-- `new_step`
unfoldable pub new_step :
    String
    → ℕ
    → String
    → ToolCall
    → Decision
    → String
    → String
    → String
    → Ended
    → String
    → Step × Action
unfolding may_retry effect_target stored_result decision_provenance decision_word
new_step now index tool call decision reason action_id run_id ended effect = (
  record {
    index = index;
    tool = tool;
    arguments = call.arguments;
    decision = decision_word decision;
    reason = reason;
    succeeded = is_state ended.state completed;
    result = ended.result;
    action_id = action_id;
    state = ended.state;
    effect = effect;
    outcome = ended.outcome;
    may_retry = may_retry effect ended.outcome ended.state;
  },
  record {
    base = action_base now action_id (decision_provenance decision) ended.state index;
    run_id = run_id;
    tool = tool;
    arguments = call.arguments;
    effect = record {
      kind = effect;
      target = effect_target tool effect call.arguments;
      outcome = ended.outcome;
      observed_at = "";
    };
    result = stored_result reason ended.result;
    decision = decision_word decision;
  },
)

-- `f"{decision}: {reason}"`
unfoldable pub refusal : String → String → String
refusal decision reason = decision ++ (": " ++ reason)

-- `_refused_step`
unfoldable pub refused_step :
    String → ℕ → ToolCall → Decision → String → State → String → String → String → Step × Action
unfolding effect_target refusal decision_word
refused_step now index call decision reason state action_id run_id effect = (
  record {
    index = index;
    tool = call.name;
    arguments = call.arguments;
    decision = decision_word decision;
    reason = reason;
    succeeded = false;
    result = refusal (decision_word decision) reason;
    action_id = action_id;
    state = state;
    effect = effect;
    outcome = nothing;
    may_retry = false;
  },
  record {
    base = action_base now action_id system state index;
    run_id = run_id;
    tool = call.name;
    arguments = call.arguments;
    effect = record {
      kind = effect;
      target = effect_target call.name effect call.arguments;
      outcome = nothing;
      observed_at = "";
    };
    result = refusal (decision_word decision) reason;
    decision = decision_word decision;
  },
)
