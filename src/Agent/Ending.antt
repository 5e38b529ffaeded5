-- ===== src/Agent/Ending.antt =====
-- How a turn of python/oneiro/agent.py ends.
use mathlib.Core.Path.{subst}
use mathlib.Core.List.{◌++◌ as append}
use oneiro_ostis.Prelude.{
  ℕ, zero, suc, String, ◌≡◌, ◌⊎◌, inl, inr, refl, sym, ap, ◌∙◌, true, false, Option, none, some,
  List, [], ◌∷◌, Result, ok, err, ◌>>◌, any, map_error, bind-cases, arith, if-cases,
}
use oneiro_ostis.Records.Base.{uncertain, is_state, RecordError}
use oneiro_ostis.Records.Kinds.{ConversationMessage, message_class}
use oneiro_ostis.Records.Stored.{AnyRecord, message}
use oneiro_ostis.Store.Spec.{find_op}
use oneiro_ostis.Memory.{Row, Rows, publish_record, memory_entity}
use oneiro_ostis.Memory.Published.{publish_record-content}
use oneiro_ostis.Agent.Steps.{ToolCall, Step}
use oneiro_ostis.Agent.Execute.{TurnError, chat_error}
use oneiro_ostis.Agent.Run.{World}
use oneiro_ostis.Agent.Course.{Numbered, Numbered-append, Adds, execute_all-Adds, any-append}
use oneiro_ostis.Store.Graph.{StoreError}
use oneiro_ostis.Store.Writer.{Publication}
use oneiro_ostis.Agent.Turn.{
  Message, assistant_message, reply_id, Turn, Answered, Round, is_uncertain, execute_all, rounds,
  answer, stop_uncertain, stop, answered, on_calls, run_asked, run_turn, owner_message,
  publish_message, published_message,
}

-- What holds of both cases holds of the choice.
pub on_calls-cases {ℓ κ} :
    {R : Type ℓ} (P : R → Type κ) (calls : List ToolCall) (words : R) (act : List ToolCall → R)
    → P words
    → ((calls' : List ToolCall) → P (act calls'))
    → P (on_calls calls words act)
on_calls-cases P [] words act h k = h
on_calls-cases P (call ∷ calls) words act h k = k (call ∷ calls)

module _ {O : Type 0} (t : Turn O) where
  -- The log holds the message, published under its own identifier.
  abbrev pub Published : ConversationMessage → Rows → Type 0
  Published m log = (e : Row) × (find_op m.id log ≡ some e) × (e.content ≡ message m)

  -- The reply is the message of the turn, which the log holds, and says that an effect is unknown
  -- exactly when a step has an unknown effect; the steps are numbered from one.
  abbrev pub Ends : Answered → World O → Type 0
  Ends a w =
      (m : ConversationMessage) × (a.reply ≡ message m)
      × Published m w.log
      × (m.id ≡ reply_id t.client_id)
      × (is_state m.state uncertain ≡ any is_uncertain a.steps)
      × Numbered 1 a.steps

  abbrev pub AllEnd : Result TurnError Answered × World O → Type 0
  AllEnd (err e, w) = Unit
  AllEnd (ok a, w) = (a.replayed ≡ true) ⊎ Ends a w

  -- What is sent is the message, and it is published.
  abbrev Sends : ConversationMessage → Result TurnError AnyRecord × World O → Type 0
  Sends m (err e, w) = Unit
  Sends m (ok reply, w) = (reply ≡ message m) × Published m w.log

  published-Sends :
      (m : ConversationMessage) (w : World O) (r : Result StoreError (Publication AnyRecord × Rows))
      → publish_record t.setting.texts w.log (message m) m.id 0 ≡ r
      → Sends m (published_message t w r)
  unfolding published_message
  published-Sends m w (err e) h = tt
  published-Sends m w (ok (p, log)) h =
      let (same, there) = publish_record-content t.setting.texts w.log (message m) m.id 0 h in
      (same, (p.envelope, there, same))

  checked-Sends :
      (m : ConversationMessage) (w : World O) (r : Result RecordError (Unit {0}))
      → Sends m (publish_message t w (r >> ok m))
  unfolding publish_message
  checked-Sends m w (err e) = tt
  checked-Sends m w (ok done) = published-Sends m w _ refl

  answered-AllEnd :
      (user : AnyRecord) (steps : List Step) (m : ConversationMessage)
      (sent : Result TurnError AnyRecord × World O)
      → Sends m sent
      → m.id ≡ reply_id t.client_id
      → is_state m.state uncertain ≡ any is_uncertain steps
      → Numbered 1 steps
      → AllEnd (answered t user steps sent)
  answered-AllEnd user steps m (err e, w) h i u n = tt
  answered-AllEnd user steps m (ok reply, w) (h, there) i u n = inr (m, h, there, i, u, n)

  answer-AllEnd :
      (user : AnyRecord) (steps : List Step) (content : String) (w : World O)
      → any is_uncertain steps ≡ false
      → Numbered 1 steps
      → AllEnd (answer t user steps content w)
  unfolding answer
  answer-AllEnd user steps content w u n =
      answered-AllEnd user steps _ _ (checked-Sends _ w _) refl (sym u) n

  stop_uncertain-AllEnd :
      (user : AnyRecord) (steps : List Step) (w : World O)
      → any is_uncertain steps ≡ true
      → Numbered 1 steps
      → AllEnd (stop_uncertain t user steps w)
  unfolding stop_uncertain
  stop_uncertain-AllEnd user steps w u n =
      answered-AllEnd user steps _ _ (checked-Sends _ w _) refl (sym u) n

  stop-AllEnd :
      (user : AnyRecord) (steps : List Step) (w : World O)
      → any is_uncertain steps ≡ false
      → Numbered 1 steps
      → AllEnd (stop t user steps w)
  unfolding stop
  stop-AllEnd user steps w u n = answered-AllEnd user steps _ _ (checked-Sends _ w _) refl (sym u) n

  -- After the calls of a message the steps are numbered on, and the flag speaks for all of them.
  round-state :
      (calls : List ToolCall) (steps : List Step) (round : Round) (w : World O)
      → any is_uncertain steps ≡ false
      → Numbered 1 steps
      → Adds t calls steps false (ok round, w)
      → (any is_uncertain round.steps ≡ round.unsure) × Numbered 1 round.steps
  round-state calls steps round w u n (new, all, many, flags, numbered) = (
    ap (any is_uncertain) all ∙ any-append is_uncertain steps new ∙ rw u (sym flags),
    subst (Numbered 1) (sym all)
        (Numbered-append 1 steps new n (subst (λ k. Numbered k new) (omega arith) numbered)),
  )

  rounds-AllEnd :
      (left number : ℕ) (user : AnyRecord) (messages : List Message) (steps : List Step)
      (w : World O)
      → any is_uncertain steps ≡ false
      → Numbered 1 steps
      → AllEnd (rounds t left number user messages steps w)
  unfolding rounds
  rounds-AllEnd zero number user messages steps w u n = stop-AllEnd user steps w u n
  rounds-AllEnd (suc left) number user messages steps w u n =
      bind-cases AllEnd (map_error chat_error (t.model number messages), w) _ (λ e w' h. tt)
        (λ reply w' h.
          on_calls-cases AllEnd reply.tool_calls _ _ (answer-AllEnd user steps reply.content w' u n)
            (λ calls.
              bind-cases AllEnd
                (execute_all t calls (append messages (assistant_message reply.content calls ∷ []))
                  steps false w')
                _ (λ e w'' k. tt)
                (λ round w'' k.
                  let (flags, numbered) = round-state calls steps round w'' u n (
                    subst (Adds t calls steps false) k
                      (execute_all-Adds t calls _ steps false w')) in
                  if-cases AllEnd round.unsure _ _
                    (λ e. stop_uncertain-AllEnd user round.steps w'' (flags ∙ e) numbered)
                    (λ e.
                      rounds-AllEnd left (suc number) user round.messages round.steps w''
                        (flags ∙ e) numbered))))

  run_asked-AllEnd :
      (user : AnyRecord) (o : Option AnyRecord) (w : World O) → AllEnd (run_asked t user o w)
  unfolding run_asked
  run_asked-AllEnd user (some stored) w = inl refl
  run_asked-AllEnd user none w = rounds-AllEnd t.steps_limit 0 user _ [] w refl tt

  -- A turn that returns, and that is not the replay of an answered one, has published the message of
  -- its reply; its steps are numbered from one, each is safe to repeat where it says so, and the
  -- reply's state says that an effect is unknown exactly when one of the steps has an unknown
  -- effect - whatever the model, the handlers, the policy and the log are.
  pub run_turn-AllEnd : (w : World O) → AllEnd (run_turn t w)
  unfolding run_turn
  run_turn-AllEnd w =
      bind-cases AllEnd (owner_message t w) _ (λ e w' h. tt)
        (λ user w' h. run_asked-AllEnd user (memory_entity (reply_id t.client_id) w'.log) w')
