-- ===== src/Agent/Turn.antt =====
-- `run_turn` of python/oneiro/agent.py. The model is a parameter that answers the calls of a turn
-- by their number, and so are `recall.reply_context` and the block of the attachments.
use Prim.Native.String.{String, ◌++◌}
use mathlib.Core.List.{map, ◌++◌ as append}
use oneiro_ostis.Prelude.{
  ℕ, zero, suc, Bool, true, false, ◌&&◌, ◌||◌, Option, none, some, List, [], ◌∷◌, Result, ok, err,
  bind, map_error, ◌==◌, string_comparable, length, keep_if, if◌then◌else◌,
}
use oneiro_ostis.Prelude.Text.{join, numeral}
use oneiro_ostis.Records.Base.{
  RecordError, Provenance, owner_instruction, model_claim, system, State, completed, failed,
  uncertain, is_state, schema_version, checked,
}
use oneiro_ostis.Records.Kinds.{ConversationMessage, message_class}
use oneiro_ostis.Records.Stored.{AnyRecord, message}
use oneiro_ostis.Store.Graph.{StoreError}
use oneiro_ostis.Store.Writer.{Publication}
use oneiro_ostis.Memory.{Rows, publish_record, memory_entity}
use oneiro_ostis.Schedule.Text.{Unicode}
use oneiro_ostis.Agent.Steps.{ToolCall, Step, to_message}
use oneiro_ostis.Agent.StoredStep.{turn_steps}
use oneiro_ostis.Agent.Execute.{
  Moments, Setting, TurnError, record_error, store_error, chat_error, turn_conflict, execute,
}
use oneiro_ostis.Agent.Run.{World}

-- `ModelReply`, less what the provider said of it.
pub record ModelReply : Type 0 where
  pub content : String
  pub tool_calls : List ToolCall

-- A message to the model.
pub data Message : Type 0 where
  system_message user_message : String → Message
  assistant_message : String → List ToolCall → Message
  tool_message : String → String → Message

-- What one turn is called with, beside its setting.
pub record Turn (O : Type 0) : Type 0 where
  pub setting : Setting O
  pub system_prompt : String
  pub steps_limit : ℕ
  pub client_id : String
  pub conversation_id : String
  pub text : String
  pub attachments : List String
  -- `str` of the text with the block of the attachments
  pub user_content : String
  pub model : ℕ → List Message → Result String ModelReply
  pub reply_context : Rows → List Message
  pub unicode : Unicode
  -- the clock: at the owner's message, at each call, and at the reply
  pub asked_at : String
  pub moments : ℕ → Moments
  pub replied_at : String

pub record Answered : Type 0 where
  pub user : AnyRecord
  pub reply : AnyRecord
  pub steps : List Step
  pub replayed : Bool

abbrev pub is_uncertain : Step → Bool
is_uncertain step = is_state step.state uncertain

abbrev tool_name : Step → String
tool_name step = step.tool

-- Where a turn stands after the calls of one message.
pub record Round : Type 0 where
  pub messages : List Message
  pub steps : List Step
  pub unsure : Bool

-- What the turn says when an effect is unknown, and when it ran out of steps.
unfoldable pub uncertain_text : List Step → String
unfolding join
uncertain_text steps =
    join ", " (map tool_name (keep_if is_uncertain steps))
    ++ (" did not finish inside the time limit, so whether it changed "
        ++ ("anything is unknown. It was not retried, and nothing else was run. "
            ++ "It has to be inspected before it is tried again."))

unfoldable pub stopped_text : ℕ → String
stopped_text limit =
    "I stopped after "
    ++ (numeral limit
        ++ (" tool steps without a final answer. "
            ++ "The calls above are recorded, including any that failed or were refused."))

abbrev pub reply_id : String → String
reply_id client_id = "reply-" ++ client_id

abbrev pub user_id : String → String
user_id client_id = "msg-" ++ client_id

-- `if not reply.wants_tools`, with what comes in either case.
abbrev pub on_calls {ℓ} : {R : Type ℓ} → List ToolCall → R → (List ToolCall → R) → R
on_calls [] words act = words
on_calls (call ∷ calls) words act = act (call ∷ calls)

module _ {O : Type 0} (t : Turn O) where
  -- `_publish`, of a message.
  unfoldable pub published_message :
      World O
      → Result StoreError (Publication AnyRecord × Rows)
      → Result TurnError AnyRecord × World O
  published_message w (err e) = (err (store_error e), w)
  published_message w (ok (p, log)) = (ok p.envelope.content, record w { log = log })

  unfoldable pub publish_message :
      World O → Result RecordError ConversationMessage → Result TurnError AnyRecord × World O
  unfolding published_message
  publish_message w (err e) = (err (record_error e), w)
  publish_message w (ok m) =
      published_message w (publish_record t.setting.texts w.log (message m) m.id 0)

  abbrev new_message :
      String → String → String → String → Provenance → State → List String → ConversationMessage
  new_message now id role text provenance state attachments = record {
    base = record {
      id = id;
      schema_version = schema_version;
      created_at = now;
      updated_at = now;
      provenance = provenance;
      state = state;
      labels = [];
    };
    conversation_id = t.conversation_id;
    role = role;
    text = text;
    attachments = attachments;
  }

  unfoldable pub same_message : AnyRecord → Bool
  same_message (message m) = m.text == t.text && m.conversation_id == t.conversation_id
  same_message _ = false

  unfoldable pub owner_found : World O → Option AnyRecord → Result TurnError AnyRecord × World O
  unfolding same_message publish_message
  owner_found w (some stored) =
      if same_message stored then (ok stored, w) else (err turn_conflict, w)
  owner_found w none = publish_message w (
      checked (
        new_message t.asked_at (user_id t.client_id) "owner" t.text owner_instruction completed
          t.attachments))

  -- `_owner_message`
  unfoldable pub owner_message : World O → Result TurnError AnyRecord × World O
  unfolding owner_found
  owner_message w = owner_found w (memory_entity (user_id t.client_id) w.log)

  -- The calls of one message, each executed and told to the model, and whether the effect of one
  -- of them is unknown.
  unfoldable pub execute_all :
      List ToolCall → List Message → List Step → Bool → World O → Result TurnError Round × World O
  unfolding to_message
  execute_all [] messages steps unsure w =
      (ok record { messages = messages; steps = steps; unsure = unsure }, w)
  execute_all (call ∷ calls) messages steps unsure w =
      let index = suc (length steps) in
      bind (execute t.setting (t.moments index) (reply_id t.client_id) index call w) (λ step w'.
        execute_all calls (append messages (tool_message call.id (to_message step) ∷ []))
          (append steps (step ∷ [])) (unsure || is_uncertain step) w')

  -- The reply is published, and the turn answered with it.
  abbrev pub answered :
      AnyRecord
      → List Step
      → Result TurnError AnyRecord × World O
      → Result TurnError Answered × World O
  answered user steps sent =
      bind sent
        (λ reply w. (ok record { user = user; reply = reply; steps = steps; replayed = false }, w))

  -- The three ends of the loop: an answer in words, an unknown effect, no steps left.
  unfoldable pub answer :
      AnyRecord → List Step → String → World O → Result TurnError Answered × World O
  unfolding publish_message
  answer user steps content w = answered user steps (
      publish_message w (
        checked (
          new_message t.replied_at (reply_id t.client_id) t.setting.role content model_claim
            completed [])))

  -- `_stop_uncertain`
  unfoldable pub stop_uncertain :
      AnyRecord → List Step → World O → Result TurnError Answered × World O
  unfolding publish_message uncertain_text
  stop_uncertain user steps w = answered user steps (
      publish_message w (
        checked (
          new_message t.replied_at (reply_id t.client_id) "system" (uncertain_text steps) system
            uncertain [])))

  unfoldable pub stop : AnyRecord → List Step → World O → Result TurnError Answered × World O
  unfolding publish_message stopped_text
  stop user steps w = answered user steps (
      publish_message w (
        checked (
          new_message t.replied_at (reply_id t.client_id) "system" (stopped_text t.steps_limit)
            system failed [])))

  -- The loop, a round for each model call that is left; `number` counts the calls.
  unfoldable pub rounds :
      ℕ → ℕ → AnyRecord → List Message → List Step → World O → Result TurnError Answered × World O
  unfolding execute_all answer stop_uncertain stop
  rounds zero number user messages steps w = stop user steps w
  rounds (suc left) number user messages steps w =
      bind (map_error chat_error (t.model number messages), w)
        (λ reply w'. on_calls reply.tool_calls (answer user steps reply.content w') (λ calls.
          bind
            (execute_all calls (append messages (assistant_message reply.content calls ∷ [])) steps
              false w')
            (λ round w''.
              if round.unsure
              then stop_uncertain user round.steps w''
              else rounds left (suc number) user round.messages round.steps w'')))

  -- The messages that the model is first given.
  abbrev pub opening : World O → List Message
  opening w =
      let read = append (t.reply_context w.log) (user_message t.user_content ∷ []) in
      elim t.setting.registry [
        | [] ↦ read
        | entry ∷ entries ↦ system_message t.system_prompt ∷ read
      ]

  unfoldable pub run_asked :
      AnyRecord → Option AnyRecord → World O → Result TurnError Answered × World O
  unfolding rounds
  run_asked user (some stored) w = (
    ok record {
      user = user;
      reply = stored;
      steps = turn_steps t.unicode (reply_id t.client_id) w.log;
      replayed = true;
    },
    w,
  )
  run_asked user none w = rounds t.steps_limit 0 user (opening w) [] w

  -- `run_turn`
  unfoldable pub run_turn : World O → Result TurnError Answered × World O
  unfolding run_asked owner_message
  run_turn w =
      bind (owner_message w)
        (λ user w'. run_asked user (memory_entity (reply_id t.client_id) w'.log) w')
