-- ===== src/Tests/Schedule.antt =====
-- Schedules under a calendar of months with 31 days, with the ten decimal digits.
use Prim.Native.Char.{Char, code}
use oneiro_ostis.Tests.Store.{unbounded}
use oneiro_ostis.Prelude.{
  ℕ, ◌+◌, ◌-◌, ◌/◌, ◌%◌, ◌≡◌, ◌↔◌, refl, Bool, true, false, ◌&&◌, none, some, [], ◌∷◌, Result, ok,
  err, leb, if◌then◌else◌,
}
use oneiro_ostis.Prelude.Text.{is_empty, strip, split, is_space, chars}
use oneiro_ostis.Schedule.Text.{Unicode, partition, split_on, strip_plus, is_digits, int}
use oneiro_ostis.Schedule.Cron.{
  Field, Cron, Moment, range, parse, next_after, is_due, shorthand, horizon, in_field, backwards,
}
use oneiro_ostis.Schedule.Book.{add, new_schedule, BookError}
use oneiro_ostis.Records.Owner.{schedule_class}
use oneiro_ostis.Records.Stored.{AnyRecord, schedule}
use oneiro_ostis.Memory.{Rows}
use oneiro_ostis.Schedule.Range.{IsInRange, parse-IsInRange}
use oneiro_ostis.Schedule.Due.{Searched, Passed, next_after-first, is_due_iff}

abbrev pub is_ascii_digit : Char → Bool
is_ascii_digit c = leb b'0' (code c) && leb (code c) b'9'

abbrev pub ascii : Unicode
ascii = record {
  is_digit = is_ascii_digit;
  decimal = λ c. if is_ascii_digit c then some (code c - b'0') else none;
  lower = λ s. s;
}

abbrev calendar : ℕ → Moment
calendar m = record {
  minute = m % 60;
  hour = (m / 60) % 24;
  day = 1 + (m / 1440) % 31;
  month = 1 + (m / 44640) % 12;
  weekday = (m / 1440) % 7;
}

abbrev all_of : ℕ → ℕ → Field
all_of low high = record { values = range low high 1; opened = true }

-- The thirtieth minute of every hour.
abbrev half_past : Cron
half_past = record {
  text = "30 * * * *";
  minute = record { values = 30 ∷ []; opened = false };
  hour = all_of 0 23;
  day = all_of 1 31;
  month = all_of 1 12;
  weekday = all_of 0 7;
}

reads : parse ascii "30 * * * *" ≡ ok half_past
unfolding parse shorthand strip split is_empty is_space partition split_on strip_plus is_digits int
    range chars
reads = refl

parse-IsInRange_example : IsInRange half_past
parse-IsInRange_example = parse-IsInRange ascii "30 * * * *" reads

next_after-first_example :
    Searched calendar half_past 1 (1 + horizon) (next_after calendar half_past 0)
next_after-first_example = next_after-first calendar half_past 0

is_due_iff_example :
    (is_due ascii calendar "30 * * * *" 0 40 ≡ ok true) ↔ Passed calendar half_past 0 40
is_due_iff_example = is_due_iff ascii calendar "30 * * * *" 0 40 half_past reads

-- An item that is empty is read as if it were a star.
abbrev every_minute_listed : Cron
every_minute_listed = record {
  text = "5, * * * *";
  minute = record { values = 5 ∷ range 0 59 1; opened = false };
  hour = all_of 0 23;
  day = all_of 1 31;
  month = all_of 1 12;
  weekday = all_of 0 7;
}

reads_empty_item : parse ascii "5, * * * *" ≡ ok every_minute_listed
unfolding parse shorthand strip split is_empty is_space partition split_on strip_plus is_digits int
    range chars
reads_empty_item = refl

-- A range of weekdays that ends in Sunday's other number is refused.
refuses_sunday : parse ascii "0 0 * * 5-7" ≡ err (in_field 4 backwards)
unfolding parse shorthand strip split is_empty is_space partition split_on strip_plus is_digits int
    range chars
refuses_sunday = refl

abbrev stored_schedule : AnyRecord
stored_schedule = schedule (new_schedule "t1" "sched-1" "30 * * * *" "read" "" "executor")

abbrev added : Result BookError (AnyRecord × Bool) × Rows
added = add unbounded ascii "t1" "read" "30 * * * *" "" "executor" "1" []
