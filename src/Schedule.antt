-- ===== src/Schedule.antt =====
-- python/oneiro/schedule.py: the owner's schedules. A minute is a natural number, counted from a
-- fixed one, and the calendar (the class `datetime`) is a parameter that names its fields.
pub mod Text
pub mod Cron
pub mod Range
pub mod Due
pub mod Book
