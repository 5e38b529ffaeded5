-- ===== src/Schedule/Cron.antt =====
-- python/oneiro/schedule.py: `Cron`, its parser and the search of the next minute that it names. A
-- set of values is the list of them.
use oneiro_ostis.Prelude.{
  ℕ, zero, suc, ◌+◌, ◌-◌, ◌*◌, ◌%◌, String, Bool, true, false, not, ◌&&◌, ◌||◌, Option, none, some,
  List, [], ◌∷◌, ◌++◌, Result, ok, err, ◌>>=◌, ◌>>◌, require, ltb, leb, ◌==◌, string_comparable,
  nat_comparable, contains, if◌then◌else◌,
}
use oneiro_ostis.Prelude.Text.{strip, split, is_empty}
use oneiro_ostis.Schedule.Text.{Unicode, partition, split_on, strip_plus, is_digits, int}

-- The reasons of `ScheduleError`; `value_error` is the plain `ValueError` of `int`.
pub data ScheduleError : Type 0 where
  not_a_number backwards bad_step empty_field empty_expression not_five_fields never_fires :
      ScheduleError
  outside : ℕ → ScheduleError
  in_field : ℕ → ScheduleError → ScheduleError
  value_error : ScheduleError

-- A field's lowest and highest value, and whether it is the weekday.
pub record FieldRange : Type 0 where
  pub low : ℕ
  pub high : ℕ
  pub weekday : Bool

-- `FIELD_RANGES`
abbrev pub minutes : FieldRange
minutes = record { low = 0; high = 59; weekday = false }

abbrev pub hours : FieldRange
hours = record { low = 0; high = 23; weekday = false }

abbrev pub days : FieldRange
days = record { low = 1; high = 31; weekday = false }

abbrev pub months : FieldRange
months = record { low = 1; high = 12; weekday = false }

abbrev pub weekdays : FieldRange
weekdays = record { low = 0; high = 7; weekday = true }

-- `SHORTHANDS.get(word, raw)`
unfoldable pub shorthand : String → String → String
shorthand word raw =
    if word == "@hourly"
    then "0 * * * *"
    else if word == "@daily" || word == "@midnight"
    then "0 0 * * *"
    else if word == "@weekly"
    then "0 0 * * 0"
    else if word == "@monthly"
    then "0 0 1 * *"
    else raw

-- The values that a field allows, and whether it was left open.
pub record Field : Type 0 where
  pub values : List ℕ
  pub opened : Bool

pub record Cron : Type 0 where
  pub text : String
  pub minute : Field
  pub hour : Field
  pub day : Field
  pub month : Field
  pub weekday : Field

-- `range(start, end + 1, step)`, on the fuel `end + 1 - start`.
unfoldable pub range_from : ℕ → ℕ → ℕ → ℕ → List ℕ
range_from zero start end step = []
range_from (suc fuel) start end step =
    let rest = range_from fuel (start + step) end step in if ltb end start then [] else start ∷ rest

unfoldable pub range : ℕ → ℕ → ℕ → List ℕ
unfolding range_from
range start end step = range_from (suc end - start) start end step

-- What `_number` does with the number it has read.
unfoldable pub in_range : FieldRange → ℕ → Result ScheduleError ℕ
in_range r n =
    let value = if r.weekday && n == 7 then 0 else n in
    if leb r.low value && leb value r.high then ok value else err (outside value)

unfoldable pub read_number : FieldRange → Option ℕ → Result ScheduleError ℕ
unfolding in_range
read_number r none = err value_error
read_number r (some n) = in_range r n

-- Both ends of a span, in their order.
unfoldable pub span : ℕ → ℕ → Result ScheduleError (ℕ × ℕ)
span start end = if ltb end start then err backwards else ok (start, end)

-- The prefix that `parse` adds to the reason of a field; a `ValueError` passes it by.
unfoldable pub named_field : ℕ → Result ScheduleError Field → Result ScheduleError Field
named_field index (ok f) = ok f
named_field index (err value_error) = err value_error
named_field index (err e) = err (in_field index e)

module _ (u : Unicode) where
  -- `_number`
  unfoldable pub number : FieldRange → String → Result ScheduleError ℕ
  unfolding read_number
  number r text =
      let body = strip text in
      require (is_digits u (strip_plus body)) not_a_number >> read_number r (int u body)

  -- The step of one item: the text behind its slash, if it has one.
  unfoldable pub step_of : Bool → String → Result ScheduleError ℕ
  step_of false text = ok 1
  step_of true text = if not (is_digits u text) then err bad_step else elim (int u text) [
    | none ↦ err value_error
    | some n ↦ if ltb n 1 then err bad_step else ok n
  ]

  unfoldable pub part_bounds :
      FieldRange → Bool × String × String → String → Result ScheduleError (ℕ × ℕ)
  unfolding number span
  part_bounds r (true, first, last) body =
      number r first >>= λ start. number r last >>= λ end. span start end
  part_bounds r (false, first, last) body = number r body >>= λ n. ok (n, n)

  -- The first and the last value of one item.
  unfoldable pub bounds_of : FieldRange → String → Result ScheduleError (ℕ × ℕ)
  unfolding part_bounds
  bounds_of r body =
      if is_empty body || body == "*"
      then ok (r.low, r.high)
      else part_bounds r (partition "-" body) body

  unfoldable pub item_values : FieldRange → String → Result ScheduleError (List ℕ)
  unfolding bounds_of step_of
  item_values r item =
      let (slash, body, raw_step) = partition "/" (strip item) in
      step_of slash raw_step >>= λ step.
      bounds_of r (strip body) >>= λ (start, end). ok (range start end step)

  unfoldable pub items_values : FieldRange → List String → Result ScheduleError (List ℕ)
  items_values r [] = ok []
  items_values r (item ∷ items) =
      item_values r item >>= λ vs. items_values r items >>= λ ws. ok (vs ++ ws)

  -- `_field`. The case of no value at all, which the source marks as never taken, is not: a range
  -- holds its start.
  unfoldable pub field : FieldRange → String → Result ScheduleError Field
  unfolding items_values item_values
  field r text =
      let raw = strip text in
      require (not (is_empty raw)) empty_field
      >> (items_values r (split_on "," raw) >>= λ vs.
          ok (record { values = vs; opened = raw == "*" }))

  unfoldable pub five_fields : String → List String → Result ScheduleError Cron
  unfolding field named_field
  five_fields spelled (a ∷ b ∷ c ∷ d ∷ e ∷ []) = named_field 0 (field minutes a) >>= λ minute.
      named_field 1 (field hours b) >>= λ hour. named_field 2 (field days c) >>= λ day.
      named_field 3 (field months d) >>= λ month. named_field 4 (field weekdays e) >>= λ weekday.
      ok record {
        text = spelled;
        minute = minute;
        hour = hour;
        day = day;
        month = month;
        weekday = weekday;
      }
  five_fields spelled _ = err not_five_fields

  -- `Cron.parse`
  unfoldable pub parse : String → Result ScheduleError Cron
  unfolding five_fields shorthand
  parse expression =
      let raw = strip expression in
      let spelled = shorthand (u.lower raw) raw in
      require (not (is_empty raw)) empty_expression >> five_fields spelled (split spelled)

-- The fields of a `datetime` that `matches` reads; Monday is weekday 0.
pub record Moment : Type 0 where
  pub minute : ℕ
  pub hour : ℕ
  pub day : ℕ
  pub month : ℕ
  pub weekday : ℕ

-- `Cron.matches`
unfoldable pub matches : Cron → Moment → Bool
matches c m =
    let sunday_first = (m.weekday + 1) % 7 in
    let on_day = contains c.day.values m.day in
    let on_weekday = contains c.weekday.values sunday_first in
    let calendar =
      if not c.day.opened && not c.weekday.opened
      then on_day || on_weekday
      else on_day && on_weekday in
    contains c.minute.values m.minute
    && contains c.hour.values m.hour
    && contains c.month.values m.month
    && calendar

-- `HORIZON_DAYS`, in minutes
abbrev pub horizon : ℕ
horizon = 366 * 1440

module _ (calendar : ℕ → Moment) where
  -- The loop of `next_after`, over the minutes that are left before its limit.
  unfoldable pub search_from : Cron → ℕ → ℕ → Result ScheduleError ℕ
  search_from c zero moment = err never_fires
  search_from c (suc left) moment = elim (matches c (calendar moment)) [
    | true ↦ ok moment
    | false ↦ search_from c left (suc moment)
  ]

  -- `Cron.next_after`
  unfoldable pub next_after : Cron → ℕ → Result ScheduleError ℕ
  unfolding search_from
  next_after c after = search_from c horizon (suc after)

-- A search that finds nothing is `None`.
unfoldable pub found : Result ScheduleError ℕ → Option ℕ
found (ok m) = some m
found (err e) = none

-- `moment is not None and moment <= at`
unfoldable pub has_passed : Option ℕ → ℕ → Bool
has_passed none at = false
has_passed (some m) at = leb m at

-- `next_at` behind the parser. A `ValueError` is raised, any other error makes it `None`.
unfoldable pub next_of :
    (ℕ → Moment) → Result ScheduleError Cron → ℕ → Result ScheduleError (Option ℕ)
unfolding found
next_of calendar (ok c) since = ok (found (next_after calendar c since))
next_of calendar (err value_error) since = err value_error
next_of calendar (err e) since = ok none

module _ (u : Unicode) (calendar : ℕ → Moment) where
  -- `next_at`, of the expression of the row and the minute of its last firing or its creation.
  unfoldable pub next_at : String → ℕ → Result ScheduleError (Option ℕ)
  unfolding next_of
  next_at expression since = next_of calendar (parse u expression) since

  -- `is_due`
  unfoldable pub is_due : String → ℕ → ℕ → Result ScheduleError Bool
  unfolding next_at has_passed
  is_due expression since at = next_at expression since >>= λ moment. ok (has_passed moment at)
