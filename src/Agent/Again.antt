-- ===== src/Agent/Again.antt =====
-- A turn of python/oneiro/agent.py that is asked for again.
use mathlib.Core.Path.{subst}
use mathlib.Core.List.{◌++◌ as append}
use oneiro_ostis.Prelude.{
  ℕ, zero, suc, String, ◌≡◌, inl, inr, refl, sym, true, false, Option, none, some, List, [], ◌∷◌,
  Result, ok, err, ◌>>◌, map_error, Bool-cases, bind-cases, if-cases, if◌then◌else◌,
}
use oneiro_ostis.Records.Base.{RecordError}
use oneiro_ostis.Records.Kinds.{ConversationMessage, message_class}
use oneiro_ostis.Records.Stored.{AnyRecord, message, any_base}
use oneiro_ostis.Memory.{Rows, publish_record, memory_entity}
use oneiro_ostis.Memory.Published.{publish_record-stored}
use oneiro_ostis.Agent.Steps.{Step}
use oneiro_ostis.Agent.StoredStep.{turn_steps}
use oneiro_ostis.Agent.Execute.{TurnError, chat_error, turn_conflict}
use oneiro_ostis.Agent.Run.{World}
use oneiro_ostis.Store.Graph.{StoreError}
use oneiro_ostis.Store.Writer.{Publication}
use oneiro_ostis.Agent.Turn.{
  Message, assistant_message, reply_id, user_id, Turn, Answered, execute_all, rounds, answered,
  publish_message, published_message, answer, stop, stop_uncertain, run_asked, run_turn,
  owner_message, owner_found, same_message,
}
use oneiro_ostis.Agent.Ending.{on_calls-cases}

module _ {O : Type 0} (t : Turn O) where
  -- A turn that returns leaves a reply under its identifier.
  abbrev Replied : Result TurnError Answered × World O → Type 0
  Replied (err e, w) = Unit
  Replied (ok a, w) =
      (reply : AnyRecord) × (memory_entity (reply_id t.client_id) w.log ≡ some reply)

  published-Replied :
      (user : AnyRecord) (steps : List Step) (m : ConversationMessage) (w : World O)
      (r : Result StoreError (Publication AnyRecord × Rows))
      → publish_record t.setting.texts w.log (message m) m.id 0 ≡ r
      → m.id ≡ reply_id t.client_id
      → Replied (answered t user steps (published_message t w r))
  unfolding published_message any_base
  published-Replied user steps m w (err e) h i = tt
  published-Replied user steps m w (ok (p, log)) h i =
      let (stored, found) = publish_record-stored t.setting.texts w.log (message m) m.id 0 h in
      (stored, subst (λ id. memory_entity id log ≡ some stored) i found)

  checked-Replied :
      (user : AnyRecord) (steps : List Step) (m : ConversationMessage) (w : World O)
      (r : Result RecordError (Unit {0}))
      → m.id ≡ reply_id t.client_id
      → Replied (answered t user steps (publish_message t w (r >> ok m)))
  unfolding publish_message
  checked-Replied user steps m w (err e) i = tt
  checked-Replied user steps m w (ok done) i = published-Replied user steps m w _ refl i

  answer-Replied :
      (user : AnyRecord) (steps : List Step) (content : String) (w : World O)
      → Replied (answer t user steps content w)
  unfolding answer
  answer-Replied user steps content w = checked-Replied user steps _ w _ refl

  stop_uncertain-Replied :
      (user : AnyRecord) (steps : List Step) (w : World O) → Replied (stop_uncertain t user steps w)
  unfolding stop_uncertain
  stop_uncertain-Replied user steps w = checked-Replied user steps _ w _ refl

  stop-Replied :
      (user : AnyRecord) (steps : List Step) (w : World O) → Replied (stop t user steps w)
  unfolding stop
  stop-Replied user steps w = checked-Replied user steps _ w _ refl

  rounds-Replied :
      (left number : ℕ) (user : AnyRecord) (messages : List Message) (steps : List Step)
      (w : World O)
      → Replied (rounds t left number user messages steps w)
  unfolding rounds
  rounds-Replied zero number user messages steps w = stop-Replied user steps w
  rounds-Replied (suc left) number user messages steps w =
      bind-cases Replied (map_error chat_error (t.model number messages), w) _ (λ e w' h. tt)
        (λ reply w' h.
          on_calls-cases Replied reply.tool_calls _ _ (answer-Replied user steps reply.content w')
            (λ calls.
              bind-cases Replied
                (execute_all t calls (append messages (assistant_message reply.content calls ∷ []))
                  steps false w')
                _ (λ e w'' k. tt)
                (λ round w'' k.
                  if-cases Replied round.unsure _ _
                    (λ e. stop_uncertain-Replied user round.steps w'')
                    (λ e. rounds-Replied left (suc number) user round.messages round.steps w''))))

  run_asked-Replied :
      (user : AnyRecord) (o : Option AnyRecord) (w : World O)
      → memory_entity (reply_id t.client_id) w.log ≡ o
      → Replied (run_asked t user o w)
  unfolding run_asked
  run_asked-Replied user (some stored) w h = (stored, h)
  run_asked-Replied user none w h = rounds-Replied t.steps_limit 0 user _ [] w

  run_turn-Replied : (w : World O) → Replied (run_turn t w)
  unfolding run_turn
  run_turn-Replied w =
      bind-cases Replied (owner_message t w) _ (λ e w' h. tt)
        (λ user w' h. run_asked-Replied user (memory_entity (reply_id t.client_id) w'.log) w' refl)

  -- A turn whose owner's message and whose reply stand in the log.
  run_turn-stored :
      (w : World O) {user reply : AnyRecord}
      → memory_entity (user_id t.client_id) w.log ≡ some user
      → memory_entity (reply_id t.client_id) w.log ≡ some reply
      → run_turn t w ≡ (
          if same_message t user
          then (
            ok record {
              user = user;
              reply = reply;
              steps = turn_steps t.unicode (reply_id t.client_id) w.log;
              replayed = true;
            },
            w,
          )
          else (err turn_conflict, w))
  unfolding run_turn owner_message owner_found run_asked
  run_turn-stored w {user} {reply} h k =
      rw h
        (elim (Bool-cases (same_message t user)) [ inl e ↦ rw e (rw k refl) | inr e ↦ rw e refl ])

module _ {O : Type 0} where
  -- When a turn has returned, its client's number is used again, and the owner's message of it still
  -- stands in the log, then nothing is done a second time, whatever else the second turn differs in -
  -- the model, the tools, the policy, the clock: the world stays as it is, and the second turn
  -- answers the stored message, a stored reply and the recorded steps as a replay if the message says
  -- the same, and a conflict if it does not.
  pub run_turn-again :
      (t again : Turn O) (w : World O) {a : Answered} {w' : World O} {user : AnyRecord}
      → run_turn t w ≡ (ok a, w')
      → again.client_id ≡ t.client_id
      → memory_entity (user_id again.client_id) w'.log ≡ some user
      → (reply : AnyRecord) × (memory_entity (reply_id again.client_id) w'.log ≡ some reply)
        × (run_turn again w' ≡ (
            if same_message again user
            then (
              ok record {
                user = user;
                reply = reply;
                steps = turn_steps again.unicode (reply_id again.client_id) w'.log;
                replayed = true;
              },
              w',
            )
            else (err turn_conflict, w')))
  run_turn-again t again w {a} {w'} {user} h same stood =
      let (reply, left) = subst (Replied t) h (run_turn-Replied t w) in
      let found = subst (λ id. memory_entity (reply_id id) w'.log ≡ some reply) (sym same) left in
      (reply, found, run_turn-stored again w' stood found)
