-- ===== src/Tasks/Quiet.antt =====
-- python/oneiro/tasks.py: the owner's quiet hours.
use mathlib.Core.Option.{none-ne-some}
use oneiro_ostis.Prelude.{
  ℕ, ◌+◌, ◌*◌, ◌<◌, String, ◌≡◌, ◌≢◌, Bool, false, not, ◌&&◌, ◌||◌, Option, none, some, ltb, leb,
  arith, Bool-cases, inl, inr, if◌then◌else◌,
}
use oneiro_ostis.Prelude.Text.{strip, is_empty}
use oneiro_ostis.Schedule.Text.{Unicode, partition, is_digits, int}

-- `0 <= int(hours) < 24 and 0 <= int(minutes) < 60`, of what `int` reads
unfoldable pub clock : Option ℕ → Option ℕ → Option ℕ
clock (some hours) (some minutes) =
    if ltb hours 24 && ltb minutes 60 then some (hours * 60 + minutes) else none
clock _ _ = none

unfoldable pub both : Option ℕ → Option ℕ → Option (ℕ × ℕ)
both (some first) (some last) = some (first, last)
both _ _ = none

module _ (u : Unicode) where
  -- `_minutes`; `none` is its `ValueError`.
  unfoldable pub minutes : String → Option ℕ
  unfolding clock
  minutes text =
      let (found, hours, rest) = partition ":" text in
      if not found || not (is_digits u hours) || not (is_digits u rest)
      then none
      else clock (int u hours) (int u rest)

  -- `quiet_window`, of the declared hours; an unreadable declaration is the empty text.
  unfoldable pub quiet_window : String → Option (ℕ × ℕ)
  unfolding minutes both
  quiet_window raw =
      let (found, start, end) = partition "-" raw in
      if is_empty raw || not found then none else both (minutes (strip start)) (minutes (strip end))

-- `quiet_at`, of the window and the minute of the day.
unfoldable pub quiet_at : Option (ℕ × ℕ) → ℕ → Bool
quiet_at none at = false
quiet_at (some (start, end)) at =
    if leb start end then leb start at && ltb at end else (leb start at || ltb at end)

-- Between two different times of the day the hours are cut in two: every minute is quiet in the
-- window from the one to the other or in the window back, and never in both.
pub quiet_at-back :
    (start end at : ℕ)
    → start ≢ end
    → quiet_at (some (start, end)) at ≡ not (quiet_at (some (end, start)) at)
unfolding quiet_at
quiet_at-back start end at h = ground arith

clock-bound : (h m : Option ℕ) {n : ℕ} → clock h m ≡ some n → n < 1440
unfolding clock
clock-bound none m h = ground arith
clock-bound (some a) none h = ground arith
clock-bound (some a) (some b) h = ground arith

both-bound :
    (a b : Option ℕ) {first last : ℕ}
    → both a b ≡ some (first, last)
    → (a ≡ some first) × (b ≡ some last)
unfolding both
both-bound none b h = ground arith
both-bound (some a) none h = ground arith
both-bound (some a) (some b) h = (ground arith, ground arith)

minutes-bound : (u : Unicode) (text : String) {n : ℕ} → minutes u text ≡ some n → n < 1440
unfolding minutes
minutes-bound u text h =
    let (found, hours, rest) = partition ":" text in
    elim (Bool-cases (not found || not (is_digits u hours) || not (is_digits u rest))) [
      | inl e ↦ absurd (none-ne-some _ (rw e at h))
      | inr e ↦ clock-bound (int u hours) (int u rest) (rw e at h)
    ]

-- The two ends of a window that is read are minutes of one day.
pub quiet_window-bound :
    (u : Unicode) (raw : String) {first last : ℕ}
    → quiet_window u raw ≡ some (first, last)
    → (first < 1440) × (last < 1440)
unfolding quiet_window
quiet_window-bound u raw h =
    let (found, start, end) = partition "-" raw in
    elim (Bool-cases (is_empty raw || not found)) [
      | inl e ↦ absurd (none-ne-some _ (rw e at h))
      | inr e ↦
          let (a, b) = both-bound (minutes u (strip start)) (minutes u (strip end)) (rw e at h) in
          (minutes-bound u (strip start) a, minutes-bound u (strip end) b)
    ]
