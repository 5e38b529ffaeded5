-- ===== src/Agent/Course.antt =====
-- How a turn of python/oneiro/agent.py goes.
use mathlib.Core.Path.{subst}
use mathlib.Core.List.{append-nil, append_assoc, ◌++◌ as append}
use oneiro_ostis.Prelude.{
  ℕ, suc, ◌+◌, ◌≡◌, refl, sym, ap, ◌∙◌, Bool, false, ◌||◌, List, [], ◌∷◌, ◌++◌, Result, ok, err,
  length, length-append, any, bind-cases, arith,
}
use oneiro_ostis.Records.Kinds.{message_class}
use oneiro_ostis.Agent.Steps.{ToolCall, Step}
use oneiro_ostis.Agent.StoredStep.{stored_with, step_from}
use oneiro_ostis.Agent.Execute.{Moments, TurnError, execute}
use oneiro_ostis.Agent.Run.{World}
use oneiro_ostis.Agent.Told.{Tells, execute-Tells_with}
use oneiro_ostis.Agent.Safe.{RetrySafe}
use oneiro_ostis.Agent.Turn.{Message, reply_id, Turn, Round, is_uncertain, execute_all}

pub any-append :
    {A : Type 0} (p : A → Bool) (xs ys : List A) → any p (xs ++ ys) ≡ (any p xs || any p ys)
any-append p [] ys = refl
any-append p (x ∷ xs) ys = ground (arith, any-append p xs ys)

-- The steps of a turn carry their places in it, and each is safe to repeat where it says so.
abbrev pub Numbered : ℕ → List Step → Type 0
Numbered n [] = Unit
Numbered n (step ∷ steps) = (step.index ≡ n) × RetrySafe step × Numbered (suc n) steps

pub Numbered-append :
    (n : ℕ) (steps new : List Step)
    → Numbered n steps
    → Numbered (n + length steps) new
    → Numbered n (steps ++ new)
Numbered-append n [] new h k = subst (λ m. Numbered m new) (omega arith) k
Numbered-append n (step ∷ steps) new (i, safe, rest) k =
    (i, safe, Numbered-append (suc n) steps new rest (subst (λ m. Numbered m new) (omega arith) k))

or_assoc : (a b c : Bool) → ((a || b) || c) ≡ (a || (b || c))
or_assoc a b c = ground arith

or_false : (a : Bool) → a ≡ (a || false)
or_false a = ground arith

module _ {O : Type 0} (t : Turn O) where
  -- The calls of a message add a step each, with the next numbers, and say whether one of them has
  -- an unknown effect.
  abbrev pub Adds : List ToolCall → List Step → Bool → Result TurnError Round × World O → Type 0
  Adds calls steps unsure (err e, w) = Unit
  Adds calls steps unsure (ok round, w) =
      (new : List Step) × (round.steps ≡ steps ++ new)
      × (length new ≡ length calls)
      × (round.unsure ≡ (unsure || any is_uncertain new))
      × Numbered (suc (length steps)) new

  step-index :
      (index : ℕ) (now : Moments) (call : ToolCall) (step : Step) (w w' : World O)
      → execute t.setting now (reply_id t.client_id) index call w ≡ (ok step, w')
      → (step.index ≡ index) × RetrySafe step
  step-index index now call step w w' h =
      let told = subst (Tells (λ labels. index) t.setting now (reply_id t.client_id) index call) h (
        execute-Tells_with (λ labels. index) t.setting now (reply_id t.client_id) index call refl
          w) in
      let (act, log, p, done, named, read, safe) = told in
      (unfold stored_with step_from in sym (ap (λ (x : Step). x.index) read), safe)

  Adds-step :
      (call : ToolCall) (calls : List ToolCall) (steps : List Step) (step : Step) (unsure : Bool)
      (r : Result TurnError Round × World O)
      → step.index ≡ suc (length steps)
      → RetrySafe step
      → Adds calls (steps ++ step ∷ []) (unsure || is_uncertain step) r
      → Adds (call ∷ calls) steps unsure r
  Adds-step call calls steps step unsure (err e, w) i safe h = tt
  Adds-step call calls steps step unsure (ok round, w) i safe (new, all, many, flags, numbered) = (
    step ∷ new,
    all ∙ append_assoc steps (step ∷ []) new,
    omega (arith, many),
    flags ∙ or_assoc unsure (is_uncertain step) (any is_uncertain new),
    (
      i,
      safe,
      subst (λ m. Numbered m new) (omega (arith, length-append steps (step ∷ []))) numbered,
    ),
  )

  pub execute_all-Adds :
      (calls : List ToolCall) (messages : List Message) (steps : List Step) (unsure : Bool)
      (w : World O)
      → Adds calls steps unsure (execute_all t calls messages steps unsure w)
  unfolding execute_all
  execute_all-Adds [] messages steps unsure w =
      ([], sym (append-nil steps), refl, or_false unsure, tt)
  execute_all-Adds (call ∷ calls) messages steps unsure w =
      let index = suc (length steps) in
      bind-cases (Adds (call ∷ calls) steps unsure)
        (execute t.setting (t.moments index) (reply_id t.client_id) index call w) _ (λ e w' h. tt)
        (λ step w' h.
          let (i, safe) = step-index index (t.moments index) call step w w' h in
          Adds-step call calls steps step unsure _ i safe (execute_all-Adds calls _ _ _ w'))
