-- ===== src/Agent/Outside.antt =====
-- What a whole turn of python/oneiro/agent.py can change outside the owner's log.
use mathlib.Core.List.{◌++◌ as append}
use oneiro_ostis.Prelude.{
  ℕ, zero, suc, ◌≡◌, ◌⊎◌, inl, inr, refl, ◌∙◌, Bool, false, Option, none, some, List, [], ◌∷◌,
  Result, ok, err, true, length, bind, map_error, if-cases, if◌then◌else◌,
}
use oneiro_ostis.Records.Base.{RecordError}
use oneiro_ostis.Records.Kinds.{ConversationMessage, message_class}
use oneiro_ostis.Records.Stored.{AnyRecord}
use oneiro_ostis.Store.Graph.{StoreError}
use oneiro_ostis.Store.Writer.{Publication}
use oneiro_ostis.Memory.{Rows, memory_entity}
use oneiro_ostis.Agent.Steps.{ToolCall, Step}
use oneiro_ostis.Agent.Execute.{TurnError, chat_error, execute}
use oneiro_ostis.Agent.Run.{World}
use oneiro_ostis.Agent.Permission.{Allowed, execute-outside}
use oneiro_ostis.Agent.Turn.{
  Message, assistant_message, Turn, on_calls, opening, reply_id, execute_all, rounds, answer,
  stop_uncertain, stop, answered, publish_message, published_message, same_message, owner_found,
  owner_message, run_asked, run_turn,
}

-- What follows the value of a call, in the world that it leaves; nothing follows an error.
abbrev pub Then : {O A : Type 0} → Result TurnError A × World O → (A → World O → Type 0) → Type 0
Then (err e, w) next = ⊥
Then (ok a, w) next = next a w

-- The call changed nothing outside the log, or what is said holds.
abbrev Kept : {O A : Type 0} → Type 0 → World O → Result TurnError A × World O → Type 0
Kept P w r = (r.1.outside ≡ w.outside) ⊎ P

module _ {O A B : Type 0} (w : World O) where
  bind-Kept :
      (P : Type 0) (Q : A → World O → Type 0) (call : Result TurnError A × World O)
      (next : A → World O → Result TurnError B × World O)
      → Kept P w call
      → ((a : A) → (w' : World O) → Kept (Q a w') w' (next a w'))
      → Kept (P ⊎ Then call Q) w (bind call next)
  bind-Kept P Q (err e, w') next (inl same) k = inl same
  bind-Kept P Q (err e, w') next (inr found) k = inr (inl found)
  bind-Kept P Q (ok a, w') next (inr found) k = inr (inl found)
  bind-Kept P Q (ok a, w') next (inl same) k = elim (k a w') [
    | inl same' ↦ inl (same' ∙ same)
    | inr found ↦ inr (inr found)
  ]

  bind-Then :
      (Q : A → World O → Type 0) (call : Result TurnError A × World O)
      (next : A → World O → Result TurnError B × World O)
      → call.1.outside ≡ w.outside
      → ((a : A) → (w' : World O) → Kept (Q a w') w' (next a w'))
      → Kept (Then call Q) w (bind call next)
  bind-Then Q (err e, w') next same k = inl same
  bind-Then Q (ok a, w') next same k = elim (k a w') [
    | inl same' ↦ inl (same' ∙ same)
    | inr found ↦ inr found
  ]

module _ {O A : Type 0} (w : World O) where
  on_calls-Kept :
      (Q : List ToolCall → Type 0) (calls : List ToolCall) (words : Result TurnError A × World O)
      (act : List ToolCall → Result TurnError A × World O)
      → words.1.outside ≡ w.outside
      → ((made : List ToolCall) → Kept (Q made) w (act made))
      → Kept (on_calls calls ⊥ Q) w (on_calls calls words act)
  on_calls-Kept Q [] words act same k = inl same
  on_calls-Kept Q (call ∷ calls) words act same k = k (call ∷ calls)

  unless-Kept :
      (Q : Type 0) (b : Bool) (stopped goes_on : Result TurnError A × World O)
      → stopped.1.outside ≡ w.outside
      → Kept Q w goes_on
      → Kept (if b then ⊥ else Q) w (if b then stopped else goes_on)
  unless-Kept Q true stopped goes_on same k = inl same
  unless-Kept Q false stopped goes_on same k = k

module _ {O : Type 0} (t : Turn O) where
  abbrev executed : List Step → ToolCall → World O → Result TurnError Step × World O
  executed steps call w =
      let index = suc (length steps) in
      execute t.setting (t.moments index) (reply_id t.client_id) index call w

  -- One of the calls of a message, made after the given steps, is allowed in the log that it is
  -- made in; the calls before it have been executed.
  abbrev pub AllowedAmong : List ToolCall → List Step → World O → Type 0
  AllowedAmong [] steps w = ⊥
  AllowedAmong (call ∷ calls) steps w =
      let index = suc (length steps) in
      Allowed t.setting (t.moments index) (reply_id t.client_id) index call w.log
      ⊎ Then (executed steps call w) (λ step w'. AllowedAmong calls (append steps (step ∷ [])) w')

  -- One of the calls that the model asks for in the rounds that are left is allowed when it is made.
  abbrev pub AllowedInRounds : ℕ → ℕ → List Message → List Step → World O → Type 0
  AllowedInRounds zero number messages steps w = ⊥
  AllowedInRounds (suc left) number messages steps w =
      Then (map_error chat_error (t.model number messages), w)
        (λ reply w'. on_calls reply.tool_calls ⊥ (λ calls.
          AllowedAmong calls steps w'
          ⊎ Then
              (execute_all t calls (append messages (assistant_message reply.content calls ∷ []))
                steps false w')
              (λ round w''.
                if round.unsure
                then ⊥
                else AllowedInRounds left (suc number) round.messages round.steps w'')))

  abbrev pub AllowedAsked : Option AnyRecord → World O → Type 0
  AllowedAsked (some stored) w = ⊥
  AllowedAsked none w = AllowedInRounds t.steps_limit 0 (opening t w) [] w

  -- One of the calls that the model asks for in the turn is allowed when it is made.
  abbrev pub AllowedIn : World O → Type 0
  AllowedIn w =
      Then (owner_message t w)
        (λ user w'. AllowedAsked (memory_entity (reply_id t.client_id) w'.log) w')

  execute_all-Kept :
      (calls : List ToolCall) (messages : List Message) (steps : List Step) (unsure : Bool)
      (w : World O)
      → Kept (AllowedAmong calls steps w) w (execute_all t calls messages steps unsure w)
  unfolding execute_all
  execute_all-Kept [] messages steps unsure w = inl refl
  execute_all-Kept (call ∷ calls) messages steps unsure w =
      let index = suc (length steps) in
      bind-Kept w (Allowed t.setting (t.moments index) (reply_id t.client_id) index call w.log)
        (λ step w'. AllowedAmong calls (append steps (step ∷ [])) w') (executed steps call w) _
        (execute-outside t.setting (t.moments index) (reply_id t.client_id) index call w)
        (λ step w'. execute_all-Kept calls _ _ _ w')

  published-same :
      (w : World O) (r : Result StoreError (Publication AnyRecord × Rows))
      → (published_message t w r).1.outside ≡ w.outside
  unfolding published_message
  published-same w (err e) = refl
  published-same w (ok (p, log)) = refl

  publish_message-same :
      (w : World O) (r : Result RecordError ConversationMessage)
      → (publish_message t w r).1.outside ≡ w.outside
  unfolding publish_message
  publish_message-same w (err e) = refl
  publish_message-same w (ok m) = published-same w _

  answered-same :
      (user : AnyRecord) (steps : List Step) (w : World O)
      (sent : Result TurnError AnyRecord × World O)
      → sent.1.outside ≡ w.outside
      → (answered t user steps sent).1.outside ≡ w.outside
  answered-same user steps w (err e, w') same = same
  answered-same user steps w (ok reply, w') same = same

  rounds-Kept :
      (left number : ℕ) (user : AnyRecord) (messages : List Message) (steps : List Step)
      (w : World O)
      → Kept
          (AllowedInRounds left number messages steps w)
          w
          (rounds t left number user messages steps w)
  unfolding rounds answer stop stop_uncertain
  rounds-Kept zero number user messages steps w =
      inl (answered-same user steps w _ (publish_message-same w _))
  rounds-Kept (suc left) number user messages steps w =
      bind-Then w _ (map_error chat_error (t.model number messages), w) _ refl
        (λ reply w'.
          on_calls-Kept w' _ reply.tool_calls _ _
            (answered-same user steps w' _ (publish_message-same w' _))
            (λ calls.
              bind-Kept w' (AllowedAmong calls steps w') _ (execute_all t calls _ steps false w') _
                (execute_all-Kept calls _ steps false w')
                (λ round w''.
                  unless-Kept w'' _ round.unsure _ _
                    (answered-same user round.steps w'' _ (publish_message-same w'' _))
                    (rounds-Kept left (suc number) user round.messages round.steps w''))))

  owner_found-same :
      (w : World O) (o : Option AnyRecord) → (owner_found t w o).1.outside ≡ w.outside
  unfolding owner_found
  owner_found-same w none = publish_message-same w _
  owner_found-same w (some stored) =
      if-cases (λ (r : Result TurnError AnyRecord × World O). r.1.outside ≡ w.outside)
        (same_message t stored) _ _ (λ e. refl) (λ e. refl)

  run_asked-Kept :
      (user : AnyRecord) (o : Option AnyRecord) (w : World O)
      → Kept (AllowedAsked o w) w (run_asked t user o w)
  unfolding run_asked
  run_asked-Kept user (some stored) w = inl refl
  run_asked-Kept user none w = rounds-Kept t.steps_limit 0 user _ [] w

  -- A whole turn, whether it returns or raises an error, changes nothing outside the owner's log
  -- unless one of the calls that the model asks for in this turn is allowed when it is made, in the
  -- log that the calls before it have left: by the policy, or with the owner's grant for exactly
  -- that call, spent before the handler ran.
  pub run_turn-outside : (w : World O) → ((run_turn t w).1.outside ≡ w.outside) ⊎ AllowedIn w
  unfolding run_turn
  run_turn-outside w =
      bind-Then w _ (owner_message t w) _ (unfold owner_message in owner_found-same w _)
        (λ user w'. run_asked-Kept user (memory_entity (reply_id t.client_id) w'.log) w')
