-- ===== src/Dream/Measure/Covered.antt =====
-- Every repeat of every task stands in the result of `measure` of python/oneiro/dream/measure.py.
use mathlib.Core.Path.{subst}
use mathlib.Core.List.{map}
use oneiro_ostis.Prelude.{
  ℕ, zero, suc, ◌+◌, ◌≤◌, ◌<◌, ◌≡◌, refl, sym, ap, ◌∙◌, inl, inr, String, Bool, true, not, ◌||◌,
  Option, List, [], ◌∷◌, Result, ok, err, nat_beq, leb, ltb, any, All, keep_if, bind-cases,
  Bool-cases, arith,
}
use oneiro_ostis.Agent.Course.{any-append}
use oneiro_ostis.Dream.Policy.{TurnPolicy}
use oneiro_ostis.Dream.Measure.{
  Task, MeasureError, Run, TaskResult, Measurement, measured, is_repeat, count_up, missing_repeats,
  insert, sorted, default_repeats, no_items,
}
use oneiro_ostis.Dream.Measure.Turns.{
  Subject, kept_runs, run_once, run_owed, measure_task, measure_all, apply_policy, measure_checked,
  is_other, measure,
}

any-insert : (p : Run → Bool) (r : Run) (rs : List Run) → any p (insert r rs) ≡ (p r || any p rs)
unfolding insert
any-insert p r [] = refl
any-insert p r (x ∷ rs) = elim (Bool-cases (leb r.repeat x.repeat)) [
  | inl e ↦ rw e refl
  | inr e ↦ rw e (ground (arith, any-insert p r rs))
]

any-sorted : (p : Run → Bool) (rs : List Run) → any p (sorted rs) ≡ any p rs
unfolding sorted
any-sorted p [] = refl
any-sorted p (r ∷ rs) = any-insert p r (sorted rs) ∙ ap (λ b. p r || b) (any-sorted p rs)

-- Whether a number is among others.
abbrev among : ℕ → List ℕ → Bool
among k ns = any (λ n. nat_beq n k) ns

among-count_up : (k first n : ℕ) → first ≤ k → k < first + n → among k (count_up first n) ≡ true
unfolding count_up
among-count_up k first zero h l = absurd (omega arith)
among-count_up k first (suc n) h l = elim (Bool-cases (nat_beq first k)) [
  | inl e ↦ rw e refl
  | inr e ↦ rw e (among-count_up k (suc first) n (ground arith) (omega arith))
]

any-measured : (p : Run → Bool) (rs : List Run) → any p (measured rs) ≡ true → any p rs ≡ true
any-measured p [] h = h
any-measured p (r ∷ rs) h = ground (arith, any-measured p rs)

-- A number that passes the test stands among the ones that are kept.
among-keep_if :
    (f : ℕ → Bool) (k : ℕ) (ns : List ℕ)
    → f k ≡ true
    → among k ns ≡ true
    → among k (keep_if f ns) ≡ true
among-keep_if f k [] h m = m
among-keep_if f k (n ∷ ns) h m = elim (Bool-cases (nat_beq n k)) [
  | inl e ↦ let same : n ≡ k = ground arith in rw (subst (λ j. f j ≡ true) (sym same) h) (rw e refl)
  | inr e ↦
      let rest = among-keep_if f k ns h (rw e at m) in
      elim (Bool-cases (f n)) [ inl e' ↦ rw e' (rw e rest) | inr e' ↦ rw e' rest ]
]

-- A repeat was kept, or is owed.
kept_or_owed :
    (kept : List Run) (repeats k : ℕ)
    → 1 ≤ k
    → k ≤ repeats
    → (any (is_repeat k) kept || among k (missing_repeats kept repeats)) ≡ true
unfolding missing_repeats
kept_or_owed kept repeats k h l = elim (Bool-cases (any (is_repeat k) (measured kept))) [
  | inl e ↦ rw (any-measured (is_repeat k) kept e) refl
  | inr e ↦
      let there = among-count_up k 1 repeats h (omega arith) in
      let owed =
        among-keep_if (λ n. not (any (is_repeat n) (measured kept))) k (count_up 1 repeats)
          (rw e refl) there in
      rw owed (ground arith)
]

-- Each of the repeats from 1 stands among the runs.
abbrev pub Complete : ℕ → TaskResult → Type 0
Complete repeats result = (k : ℕ) → 1 ≤ k → k ≤ repeats → any (is_repeat k) result.runs ≡ true

abbrev result_task : TaskResult → String
result_task result = result.task

abbrev name_of : Task → String
name_of task = task.name

module _ {W : Type 0} (s : Subject W) where
  run_owed-among :
      (task : Task) (session : String) (owed : List ℕ) (w : W) (k : ℕ)
      → any (is_repeat k) (run_owed s task session owed w).0 ≡ among k owed
  unfolding run_owed run_once
  run_owed-among task session [] w k = refl
  run_owed-among task session (repeat ∷ owed) w k =
      ap (λ b. nat_beq repeat k || b) (run_owed-among task session owed _ k)

  -- What a task's measurement answers.
  abbrev Measures : Task → ℕ → Result MeasureError TaskResult × W → Type 0
  Measures task repeats (err e, w) = Unit
  Measures task repeats (ok result, w) = (result.task ≡ task.name) × Complete repeats result

  measure_task-Measures :
      (policy : TurnPolicy) (repeats : ℕ) (session : String) (reuse : Option Measurement)
      (task : Task) (w : W)
      → Measures task repeats (measure_task s policy repeats session reuse task w)
  unfolding measure_task
  measure_task-Measures policy repeats session reuse task w =
      bind-cases (Measures task repeats) (kept_runs s task reuse (s.write_fixtures task w)) _
        (λ e w' h. tt)
        (λ kept w' h. (
          refl,
          λ k low high.
              any-sorted (is_repeat k) _
              ∙ any-append (is_repeat k) kept _
              ∙ ap (λ b. any (is_repeat k) kept || b)
                  (run_owed-among task session (missing_repeats kept repeats) w' k)
              ∙ kept_or_owed kept repeats k low high,
        ))

  abbrev AllMeasured : List Task → ℕ → Result MeasureError (List TaskResult) × W → Type 0
  AllMeasured tasks repeats (err e, w) = Unit
  AllMeasured tasks repeats (ok results, w) =
      (map result_task results ≡ map name_of tasks) × All (Complete repeats) results

  measure_all-AllMeasured :
      (policy : TurnPolicy) (repeats : ℕ) (session : String) (reuse : Option Measurement)
      (tasks : List Task) (w : W)
      → AllMeasured tasks repeats (measure_all s policy repeats session reuse tasks w)
  unfolding measure_all
  measure_all-AllMeasured policy repeats session reuse [] w = (refl, tt)
  measure_all-AllMeasured policy repeats session reuse (task ∷ tasks) w =
      bind-cases (AllMeasured (task ∷ tasks) repeats)
        (measure_task s policy repeats session reuse task w) _ (λ e w' h. tt)
        (λ result w' h.
          let (named, complete) =
            subst (Measures task repeats) h
              (measure_task-Measures policy repeats session reuse task w) in
          bind-cases (AllMeasured (task ∷ tasks) repeats)
            (measure_all s policy repeats session reuse tasks w') _ (λ e w'' k. tt)
            (λ results w'' k.
              let (names, all_complete) =
                subst (AllMeasured tasks repeats) k
                  (measure_all-AllMeasured policy repeats session reuse tasks w') in
              (cc, (complete, all_complete))))

  -- A whole measurement.
  abbrev pub Covers : List Task → ℕ → Result MeasureError Measurement × W → Type 0
  Covers tasks repeats (err e, w) = Unit
  Covers tasks repeats (ok m, w) =
      (map result_task m.tasks ≡ map name_of tasks) × All (Complete repeats) m.tasks

  measure_checked-Covers :
      (policy : TurnPolicy) (repeats : ℕ) (tasks : List Task) (recorded : TurnPolicy)
      (session : String) (reuse : Option Measurement) (w : W)
      → Covers tasks repeats (measure_checked s policy repeats tasks recorded session reuse w)
  unfolding measure_checked
  measure_checked-Covers policy repeats tasks recorded session reuse w =
      bind-cases (Covers tasks repeats) (apply_policy s policy recorded w) _ (λ e w' h. tt)
        (λ applied w' h.
          bind-cases (Covers tasks repeats) (measure_all s policy repeats session reuse tasks w') _
            (λ e w'' k. tt)
            (λ results w'' k.
              subst (AllMeasured tasks repeats) k
                (measure_all-AllMeasured policy repeats session reuse tasks w')))

  -- A measurement that returns, continued or not, holds a result for each task that was asked for,
  -- in their order, and in each of them every repeat from 1 to the number that was asked for stands
  -- among the runs - whatever the continued payload holds, and whatever the graph, the ledger and
  -- the turns answer.
  pub measure-Covers :
      (policy : TurnPolicy) (repeats : ℕ) (tasks : List Task) (recorded : TurnPolicy)
      (session : String) (reuse : Option Measurement) (w : W)
      → Covers tasks repeats (measure s policy repeats tasks recorded session reuse w)
  unfolding measure
  measure-Covers policy repeats tasks recorded session reuse w =
      elim (Bool-cases (ltb repeats default_repeats)) [
        | inl e ↦ rw e tt
        | inr e ↦ rw e (elim (Bool-cases (no_items tasks)) [
          | inl e' ↦ rw e' tt
          | inr e' ↦ rw e' (elim (Bool-cases (is_other s policy reuse)) [
            | inl e'' ↦ rw e'' tt
            | inr e'' ↦
                rw e'' (measure_checked-Covers policy repeats tasks recorded session reuse w)
          ])
        ])
      ]
