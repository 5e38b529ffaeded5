-- ===== src/Tasks/Ready.antt =====
-- What must hold for an attempt to begin.
use oneiro_ostis.Records.Stored.{Texts}
use mathlib.Core.Path.{subst}
use mathlib.Core.Bool.{false≢true}
use oneiro_ostis.Prelude.{
  ℕ, ◌<◌, ◌≤◌, ltb, Option-cases, String, ◌≡◌, ◌≢◌, refl, ◌⊎◌, inl, inr, Bool, true, false, not,
  Option, none, some, List, [], ◌∷◌, Result, ok, All, length, keep_if, string_comparable, arith,
  Bool-cases, if◌then◌else◌,
}
use oneiro_ostis.Records.Base.{
  State, queued, running, waiting, completed, failed, cancelled, interrupted, uncertain,
  RecordError, checked, is_state,
}
use oneiro_ostis.Records.Kinds.{Task, Run, run_class}
use oneiro_ostis.Tasks.States.{
  RunRow, Snapshot, snapshot, task_of, Why, max_attempts, newest_attempt, state_after, own_state,
  is_settled, is_done, missing, hold_back, state_of,
}
use oneiro_ostis.Tasks.Attempts.{
  TaskError, Desk, sorted, last, Started, opened, next_attempt, new_run, open_one, holds_back,
  start_with, start_task, start_found, start,
}

-- One of the runs, of an attempt that none of them exceeds.
abbrev pub In : RunRow → List RunRow → Type 0
In r [] = ⊥
In r (x ∷ xs) = (r ≡ x) ⊎ In r xs

abbrev pub Newest : List RunRow → RunRow → Type 0
Newest rs r = In r rs × All (λ (x : RunRow). x.run.attempt ≤ r.run.attempt) rs

-- The states of an attempt that another one may follow: it is not running or finished, was not
-- called off, and its outcome is known.
abbrev pub MayFollow : State → Type 0
MayFollow queued = Unit
MayFollow waiting = Unit
MayFollow failed = Unit
MayFollow interrupted = Unit
MayFollow _ = ⊥

-- A stored task whose newest attempt is recorded as completed.
abbrev pub IsFinished : Snapshot → String → Type 0
IsFinished s id =
    (t : Task) × (r : RunRow) × (task_of s id ≡ some t)
    × Newest (s.runs id) r
    × (r.run.state ≡ completed)

abbrev pub Untried : List RunRow → Type 0
Untried rs = (rs ≡ []) ⊎ ((r : RunRow) × Newest rs r × MayFollow r.run.state)

-- Everything that the task waits for is finished, it has attempts left, and its newest attempt, if
-- there is one, is one that another may follow.
pub record IsReady (s : Snapshot) (t : Task) : Type 0 where
  pub waits_for_none : All (IsFinished s) t.blocked_by
  pub attempts_left : length (s.runs t.id) < max_attempts
  pub untried : Untried (s.runs t.id)

newer-Newest :
    (b : Bool) (r x n m : RunRow) (xs : List RunRow)
    → ltb r.run.attempt x.run.attempt ≡ b
    → Newest (x ∷ xs) n
    → Newest (r ∷ xs) m
    → Newest (r ∷ (x ∷ xs)) (if b then n else m)
newer-Newest true r x n m xs e (there, (top, rest)) h = (inr there, (ground arith, (top, rest)))
newer-Newest false r x n m xs e h (inl same, (top, rest)) = (inl same, (top, (ground arith, rest)))
newer-Newest false r x n m xs e h (inr later, (top, rest)) =
    (inr (inr later), (top, (ground arith, rest)))

newest-choice :
    (b : Bool) (r x : RunRow) (xs : List RunRow)
    → (if b then newest_attempt x xs else newest_attempt r xs)
      ≡ newest_attempt (if b then x else r) xs
newest-choice true r x xs = refl
newest-choice false r x xs = refl

newest_attempt-Newest : (r : RunRow) (rs : List RunRow) → Newest (r ∷ rs) (newest_attempt r rs)
unfolding newest_attempt
newest_attempt-Newest r [] = (inl refl, (omega arith, tt))
newest_attempt-Newest r (x ∷ xs) =
    let later = ltb r.run.attempt x.run.attempt in
    subst (Newest (r ∷ (x ∷ xs))) (newest-choice later r x xs) (
      newer-Newest later r x (newest_attempt x xs) (newest_attempt r xs) xs refl
        (newest_attempt-Newest x xs) (newest_attempt-Newest r xs))

keep_if-none :
    (p : String → Bool) (xs : List String)
    → keep_if (λ x. not (p x)) xs ≡ []
    → All (λ x. p x ≡ true) xs
keep_if-none p [] h = tt
keep_if-none p (x ∷ xs) h = elim (Bool-cases (p x)) [
  | inl e ↦ (e, keep_if-none p xs (rw e at h))
  | inr e ↦ ground arith
]

queued-unsettled : (s : State) → is_settled s ≡ true → s ≢ queued
unfolding is_settled
queued-unsettled s h k = ground arith

held_back :
    (ids : List String) (own : State × Why)
    → (hold_back ids own).0 ≡ queued
    → (ids ≡ []) × (own.0 ≡ queued)
unfolding hold_back
held_back [] own h = (refl, h)
held_back (x ∷ xs) own h = ground arith

queued-attempts :
    (held : List String) (r : RunRow) (s : State) (n : ℕ)
    → (state_after held r s n).0 ≡ queued
    → n < max_attempts
unfolding state_after
queued-attempts held r queued n h = ground arith
queued-attempts held r running n h = ground arith
queued-attempts held r waiting n h = ground arith
queued-attempts held r completed n h = ground arith
queued-attempts held r failed n h = ground arith
queued-attempts held r cancelled n h = ground arith
queued-attempts held r interrupted n h = ground arith
queued-attempts held r uncertain n h = ground arith

own-attempts :
    (held : List String) (rs : List RunRow)
    → (own_state held rs).0 ≡ queued
    → length rs < max_attempts
unfolding own_state
own-attempts held [] h = omega arith
own-attempts held (r ∷ rs) h =
    let latest = newest_attempt r rs in
    queued-attempts held latest latest.run.state (length (r ∷ rs)) h

queued-MayFollow :
    (held : List String) (r : RunRow) (s : State) (n : ℕ)
    → (state_after held r s n).0 ≡ queued
    → MayFollow s
unfolding state_after
queued-MayFollow held r queued n h = tt
queued-MayFollow held r running n h = ground arith
queued-MayFollow held r waiting n h = tt
queued-MayFollow held r completed n h = ground arith
queued-MayFollow held r failed n h = tt
queued-MayFollow held r cancelled n h = ground arith
queued-MayFollow held r interrupted n h = tt
queued-MayFollow held r uncertain n h = ground arith

own-Untried : (held : List String) (rs : List RunRow) → (own_state held rs).0 ≡ queued → Untried rs
unfolding own_state
own-Untried held [] h = inl refl
own-Untried held (r ∷ rs) h =
    let latest = newest_attempt r rs in
    inr (
      latest,
      newest_attempt-Newest r rs,
      queued-MayFollow held latest latest.run.state (length (r ∷ rs)) h,
    )

completed-after :
    (held : List String) (r : RunRow) (s : State) (n : ℕ)
    → (state_after held r s n).0 ≡ completed
    → s ≡ completed
unfolding state_after
completed-after held r queued n h = ground arith
completed-after held r running n h = ground arith
completed-after held r waiting n h = ground arith
completed-after held r completed n h = refl
completed-after held r failed n h = ground arith
completed-after held r cancelled n h = ground arith
completed-after held r interrupted n h = ground arith
completed-after held r uncertain n h = ground arith

own-completed :
    (held : List String) (rs : List RunRow)
    → (own_state held rs).0 ≡ completed
    → (r : RunRow) × Newest rs r × (r.run.state ≡ completed)
unfolding own_state
own-completed held [] h = ground arith
own-completed held (r ∷ rs) h =
    let latest = newest_attempt r rs in
    (
      latest,
      newest_attempt-Newest r rs,
      completed-after held latest latest.run.state (length (r ∷ rs)) h,
    )

is_done-IsFinished :
    (held : List String) (s : Snapshot) (id : String) → is_done held s id ≡ true → IsFinished s id
unfolding is_done
is_done-IsFinished held s id h = elim (Option-cases (task_of s id)) [
  | inl none_there ↦ absurd (false≢true (rw (is_done, none_there) at h))
  | inr (t, found) ↦
      let k : is_state (own_state held (s.runs id)).0 completed ≡ true = rw (is_done, found) at h in
      let (r, newest, done) =
        own-completed held (s.runs id) (is_completed (own_state held (s.runs id)).0 k) in
      (t, r, found, newest, done)
]
  where
    is_completed : (x : State) → is_state x completed ≡ true → x ≡ completed
    is_completed x e = ground arith

All-IsFinished :
    (held : List String) (s : Snapshot) (ids : List String)
    → All (λ id. is_done held s id ≡ true) ids
    → All (IsFinished s) ids
All-IsFinished held s [] h = tt
All-IsFinished held s (id ∷ ids) (h, hs) =
    (is_done-IsFinished held s id h, All-IsFinished held s ids hs)

-- A task whose state is `queued` is ready.
state_of-IsReady :
    (held : List String) (s : Snapshot) (t : Task) → (state_of held s t).0 ≡ queued → IsReady s t
unfolding state_of missing is_settled
state_of-IsReady held s t h = elim (Bool-cases (is_settled (own_state held (s.runs t.id)).0)) [
  | inl e ↦ absurd (queued-unsettled (own_state held (s.runs t.id)).0 e (rw e at h))
  | inr e ↦
      let (none_missing, own) =
        held_back (missing held s t) (own_state held (s.runs t.id)) (rw e at h) in
      record {
        waits_for_none =
            All-IsFinished held s t.blocked_by
              (keep_if-none (is_done held s) t.blocked_by none_missing);
        attempts_left = own-attempts held (s.runs t.id) own;
        untried = own-Untried held (s.runs t.id) own;
      }
]

-- The answer says that an attempt was opened.
abbrev pub has_opened : Result TaskError Started → Bool
has_opened (ok (opened b row)) = true
has_opened _ = false

back-queued : (s : State) → holds_back false s ≡ false → s ≡ queued
unfolding holds_back
back-queued s h = ground arith

-- An attempt of the task is being made, or something holds it back.
abbrev pub IsBusy : List String → Snapshot → Task → Type 0
IsBusy held s t = ((state_of held s t).0 ≡ waiting) ⊎ ((state_of held s t).0 ≡ running)

back-busy :
    (retry : Bool) (s : State) → holds_back retry s ≡ false → ¬ ((s ≡ waiting) ⊎ (s ≡ running))
unfolding holds_back
back-busy retry s h (inl e) = ground arith
back-busy retry s h (inr e) = ground arith

module _ (texts : Texts) where
  with-opened :
      (o : Option RunRow) (back : Bool) (own : State × Why) (d : Desk)
      (next : Result RecordError Run)
      → has_opened (start_with texts o back own d next).0 ≡ true
      → (o ≡ none) × (back ≡ false)
  unfolding start_with
  with-opened (some r) back own d next h = ground arith
  with-opened none true own d next h = ground arith
  with-opened none false own d next h = (refl, refl)

  found-opened :
      (now : String) (retry : Bool) (d : Desk) (o : Option Task)
      → has_opened (start_found texts now retry o d).0 ≡ true
      → (t : Task) × (o ≡ some t) × (has_opened (start_task texts now retry t d).0 ≡ true)
  unfolding start_found
  found-opened now retry d none h = ground arith
  found-opened now retry d (some t) h = (t, refl, h)

  task-opened :
      (now : String) (retry : Bool) (t : Task) (d : Desk)
      → has_opened (start_task texts now retry t d).0 ≡ true
      → (open_one (last (sorted ((snapshot d.log).runs t.id))) ≡ none)
        × (holds_back retry (state_of d.held (snapshot d.log) t).0 ≡ false)
  unfolding start_task
  task-opened now retry t d h =
      let s = snapshot d.log in
      let newest = last (sorted (s.runs t.id)) in
      let own = state_of d.held s t in
      with-opened (open_one newest) (holds_back retry own.0) own d
        (checked (new_run now t (next_attempt newest))) h

  -- If `start` opens an attempt that the owner did not ask to retry, the task is stored, everything
  -- it waits for is stored with a newest attempt that is recorded as completed, fewer than three
  -- attempts of the task were made, and the newest of them, if there is one, is not recorded as
  -- running, completed, cancelled or uncertain.
  pub start-IsReady :
      (now id : String) (d : Desk)
      → has_opened (start texts now id false d).0 ≡ true
      → (t : Task) × (task_of (snapshot d.log) id ≡ some t) × IsReady (snapshot d.log) t
  unfolding start
  start-IsReady now id d h =
      let s = snapshot d.log in
      let (t, e, k) = found-opened now false d (task_of s id) h in
      let (_, free) = task-opened now false t d k in
      (t, e, state_of-IsReady d.held s t (back-queued (state_of d.held s t).0 free))

  -- Whoever asks, `start` opens an attempt only of a stored task that is neither waiting nor running
  -- and whose newest stored attempt is not running.
  pub start-not_twice :
      (now id : String) (retry : Bool) (d : Desk)
      → has_opened (start texts now id retry d).0 ≡ true
      → (t : Task) × (task_of (snapshot d.log) id ≡ some t)
        × (¬ IsBusy d.held (snapshot d.log) t)
        × (open_one (last (sorted ((snapshot d.log).runs t.id))) ≡ none)
  unfolding start
  start-not_twice now id retry d h =
      let s = snapshot d.log in
      let (t, e, k) = found-opened now retry d (task_of s id) h in
      let (closed, free) = task-opened now retry t d k in
      (t, e, back-busy retry (state_of d.held s t).0 free, closed)
