-- ===== src/Tasks/Newest.antt =====
-- The attempt that `start` numbers its own after is the highest one.
use oneiro_ostis.Prelude.{ℕ, ◌≤◌, ◌<◌, inl, inr, List, [], ◌∷◌, All, leb, leb→le, arith, Bool-cases}
use oneiro_ostis.Tasks.States.{RunRow}
use oneiro_ostis.Tasks.Attempts.{insert, sorted, last, next_attempt}

-- Every attempt is at most the given one.
abbrev pub Below : ℕ → List RunRow → Type 0
Below n rs = All (λ (r : RunRow). r.run.attempt < n) rs

-- The attempts do not fall from the front to the back.
abbrev pub IsSorted : List RunRow → Type 0
IsSorted [] = Unit
IsSorted (r ∷ []) = Unit
IsSorted (r ∷ x ∷ xs) = (r.run.attempt ≤ x.run.attempt) × IsSorted (x ∷ xs)

abbrev Starts : ℕ → List RunRow → Type 0
Starts n [] = Unit
Starts n (r ∷ rs) = n ≤ r.run.attempt

cons-IsSorted :
    (r : RunRow) (rs : List RunRow) → Starts r.run.attempt rs → IsSorted rs → IsSorted (r ∷ rs)
cons-IsSorted r [] h k = tt
cons-IsSorted r (x ∷ xs) h k = (h, k)

tail-IsSorted :
    (r : RunRow) (rs : List RunRow) → IsSorted (r ∷ rs) → Starts r.run.attempt rs × IsSorted rs
tail-IsSorted r [] h = (tt, tt)
tail-IsSorted r (x ∷ xs) (h, k) = (h, k)

insert-Starts :
    (n : ℕ) (r : RunRow) (rs : List RunRow)
    → n ≤ r.run.attempt
    → Starts n rs
    → Starts n (insert r rs)
unfolding insert
insert-Starts n r [] h k = h
insert-Starts n r (x ∷ xs) h k = elim (Bool-cases (leb r.run.attempt x.run.attempt)) [
  | inl e ↦ rw e h
  | inr e ↦ rw e k
]

insert-IsSorted : (r : RunRow) (rs : List RunRow) → IsSorted rs → IsSorted (insert r rs)
unfolding insert
insert-IsSorted r [] h = tt
insert-IsSorted r (x ∷ xs) h = elim (Bool-cases (leb r.run.attempt x.run.attempt)) [
  | inl e ↦ rw e (leb→le r.run.attempt x.run.attempt e, h)
  | inr e ↦
      let (low, rest) = tail-IsSorted x xs h in
      rw e (
        cons-IsSorted x (insert r xs) (insert-Starts x.run.attempt r xs (ground arith) low)
          (insert-IsSorted r xs rest))
]

sorted-IsSorted : (rs : List RunRow) → IsSorted (sorted rs)
unfolding sorted
sorted-IsSorted [] = tt
sorted-IsSorted (r ∷ rs) = insert-IsSorted r (sorted rs) (sorted-IsSorted rs)

insert-Below : (n : ℕ) (r : RunRow) (rs : List RunRow) → Below n (insert r rs) → Below n (r ∷ rs)
unfolding insert
insert-Below n r [] h = h
insert-Below n r (x ∷ xs) h = elim (Bool-cases (leb r.run.attempt x.run.attempt)) [
  | inl e ↦ rw e at h
  | inr e ↦ let (a, b) = rw e at h in let (d, rest) = insert-Below n r xs b in (d, (a, rest))
]

sorted-Below : (n : ℕ) (rs : List RunRow) → Below n (sorted rs) → Below n rs
unfolding sorted
sorted-Below n [] h = tt
sorted-Below n (r ∷ rs) h =
    let (a, rest) = insert-Below n r (sorted rs) h in (a, sorted-Below n rs rest)

last-Below : (rs : List RunRow) → IsSorted rs → Below (next_attempt (last rs)) rs
unfolding last next_attempt
last-Below [] h = tt
last-Below (r ∷ []) h = (omega arith, tt)
last-Below (r ∷ x ∷ xs) (a, h) = let (b, rest) = last-Below (x ∷ xs) h in (omega arith, (b, rest))

-- The number that `start` gives the next attempt of a task is above the number of every stored
-- attempt of it, in whatever order the runs were read.
pub next_attempt-above : (rs : List RunRow) → Below (next_attempt (last (sorted rs))) rs
next_attempt-above rs =
    sorted-Below (next_attempt (last (sorted rs))) rs (last-Below (sorted rs) (sorted-IsSorted rs))
