-- ===== src/Schedule/Due.antt =====
-- When a schedule fires: the search finds the first minute that is named, and a schedule is due
-- when one has passed since its last firing.
use mathlib.Core.Bool.{true≢false}
use oneiro_ostis.Prelude.{
  ℕ, zero, suc, ◌+◌, ◌<◌, ◌≤◌, String, ◌≡◌, ◌≢◌, refl, sym, ap, ◌∙◌, ◌↔◌, inl, inr, Bool, true,
  false, Result, ok, err, ◌>>=◌, leb, leb→le, le→leb, arith, Bool-cases,
}
use oneiro_ostis.Schedule.Text.{Unicode}
use oneiro_ostis.Schedule.Cron.{
  ScheduleError, never_fires, Cron, Moment, matches, horizon, search_from, next_after, found,
  has_passed, next_of, parse, next_at, is_due,
}

module _ (calendar : ℕ → Moment) (c : Cron) where
  -- No minute from the first on and before the second is named.
  abbrev pub Quiet : ℕ → ℕ → Type 0
  Quiet first last = ¬ ((k : ℕ) × (first ≤ k) × (k < last) × (matches c (calendar k) ≡ true))

  Quiet-step :
      (first last : ℕ)
      → matches c (calendar first) ≡ false
      → Quiet (suc first) last
      → Quiet first last
  Quiet-step first last h q (k, low, high, named) = elim (Bool-cases (leb (suc first) k)) [
    | inl e ↦ q (k, leb→le (suc first) k e, high, named)
    | inr e ↦
        let same : k ≡ first = ground arith in
        true≢false (sym named ∙ ap (λ n. matches c (calendar n)) same ∙ h)
  ]

  -- What the search answers: the first named minute, or an error when there is none to find.
  abbrev pub Searched : ℕ → ℕ → Result ScheduleError ℕ → Type 0
  Searched first last (ok m) =
      (first ≤ m) × (m < last) × (matches c (calendar m) ≡ true) × Quiet first m
  Searched first last (err e) = (e ≡ never_fires) × Quiet first last

  step-Searched :
      (first last : ℕ) (r : Result ScheduleError ℕ)
      → matches c (calendar first) ≡ false
      → Searched (suc first) last r
      → Searched first last r
  step-Searched first last (ok m) h (a, b, d, q) = (omega arith, b, d, Quiet-step first m h q)
  step-Searched first last (err e) h (a, q) = (a, Quiet-step first last h q)

  search_hit :
      (left moment : ℕ)
      → matches c (calendar moment) ≡ true
      → search_from calendar c (suc left) moment ≡ ok moment
  unfolding search_from
  search_hit left moment e =
      ap (λ b. elim b [ true ↦ ok moment | false ↦ search_from calendar c left (suc moment) ]) e

  search_miss :
      (left moment : ℕ)
      → matches c (calendar moment) ≡ false
      → search_from calendar c (suc left) moment ≡ search_from calendar c left (suc moment)
  unfolding search_from
  search_miss left moment e =
      ap (λ b. elim b [ true ↦ ok moment | false ↦ search_from calendar c left (suc moment) ]) e

  search-Searched :
      (left moment : ℕ) → Searched moment (moment + left) (search_from calendar c left moment)
  search-Searched zero moment = unfold search_from in (refl, λ (k, low, high, named). omega arith)
  search-Searched (suc left) moment = elim (Bool-cases (matches c (calendar moment))) [
    | inl e ↦
        let h : Searched moment (moment + suc left) (ok moment) =
          (omega arith, omega arith, e, λ (k, low, high, named). omega arith) in
        rw (search_hit left moment e) h
    | inr e ↦
        let shift : suc moment + left ≡ moment + suc left = omega arith in
        let rest : Searched (suc moment) (moment + suc left)
            (search_from calendar c left (suc moment)) =
          rw shift at (search-Searched left (suc moment)) in
        rw (search_miss left moment e) (
          step-Searched moment (moment + suc left) (search_from calendar c left (suc moment)) e
            rest)
  ]

  -- `next_after` answers the first named minute strictly after the one given, or, when it refuses,
  -- no minute Within the horizon is named.
  pub next_after-first :
      (after : ℕ) → Searched (suc after) (suc after + horizon) (next_after calendar c after)
  unfolding next_after
  next_after-first after = search-Searched horizon (suc after)

  -- A minute after `since` and not after `at`, Within the horizon, that the expression names.
  abbrev pub Passed : ℕ → ℕ → Type 0
  Passed since at =
      (m : ℕ) × (since < m) × (m ≤ at) × (m ≤ since + horizon) × (matches c (calendar m) ≡ true)

  due_of_iff :
      (since at : ℕ) (r : Result ScheduleError ℕ)
      → Searched (suc since) (suc since + horizon) r
      → (has_passed (found r) at ≡ true) ↔ Passed since at
  unfolding found has_passed
  due_of_iff since at (ok m) (a, b, d, q) = (
    λ h. (m, omega arith, leb→le m at h, omega arith, d),
    λ (k, low, high, near, named). elim (Bool-cases (leb m k)) [
      | inl e ↦ le→leb m at (omega (arith, leb→le m k e))
      | inr e ↦ let before : k < m = ground arith in absurd (q (k, low, before, named))
    ],
  )
  due_of_iff since at (err e) (a, q) = (
    λ h. absurd (true≢false (sym h)),
    λ (k, low, high, near, named). absurd (q (k, low, omega arith, named)),
  )

module _ (calendar : ℕ → Moment) where
  abbrev answer : Result ScheduleError Cron → ℕ → ℕ → Result ScheduleError Bool
  answer r since at = next_of calendar r since >>= λ moment. ok (has_passed moment at)

  answer-fired :
      (r : Result ScheduleError Cron) (fired at : ℕ) → at ≤ fired → answer r fired at ≢ ok true
  unfolding next_of has_passed
  answer-fired (ok c) fired at h e =
      let due : has_passed (found (next_after calendar c fired)) at ≡ true = ground arith in
      let (to, from) =
        due_of_iff calendar c fired at (next_after calendar c fired)
          (next_after-first calendar c fired) in
      let (k, low, high, near, named) = to due in omega arith
  answer-fired (err e) fired at h k = ground arith

module _ (u : Unicode) (calendar : ℕ → Moment) where
  -- A schedule whose expression is read is due exactly when it names a minute after its last firing
  -- (or its creation), not after now, and no further ahead than the horizon.
  pub is_due_iff :
      (expression : String) (since at : ℕ) (c : Cron)
      → parse u expression ≡ ok c
      → (is_due u calendar expression since at ≡ ok true) ↔ Passed calendar c since at
  unfolding is_due next_at next_of
  is_due_iff expression since at c h =
      let (to, from) =
        due_of_iff calendar c since at (next_after calendar c since)
          (next_after-first calendar c since) in
      rw h (λ e. to (ground arith), λ p. ap (λ (b : Bool). ok b) (from p))

  -- A schedule that has fired in a minute is not due again in that minute or before it, whatever its
  -- expression is.
  is_due-fired :
      (expression : String) (fired at : ℕ)
      → at ≤ fired
      → is_due u calendar expression fired at ≢ ok true
  unfolding is_due next_at
  is_due-fired expression fired at h = answer-fired calendar (parse u expression) fired at h
