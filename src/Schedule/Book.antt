-- ===== src/Schedule/Book.antt =====
-- python/oneiro/schedule.py: the stored schedules, and their `add` and `remove`.
use Prim.Native.String
use oneiro_ostis.Prelude.{
  ℕ, String, ◌≡◌, ◌⊎◌, Bool, true, false, not, ◌&&◌, ◌||◌, Option, none, some, List, [], ◌∷◌,
  Result, ok, err, ◌>>=◌, ◌==◌, string_comparable, ltb, first_of_each, first_where, take, require,
  ◌>>◌, if◌then◌else◌,
}
use oneiro_ostis.Prelude.Text.{strip, split, join, clip, is_empty, chars}
use oneiro_ostis.Store.Graph.{StoreError}
use oneiro_ostis.Store.Writer.{Publication}
use oneiro_ostis.Records.Base.{
  RecordError, checked, with_state, schema_version, queued, cancelled, is_state, system,
}
use oneiro_ostis.Records.Owner.{Schedule, schedule_class}
use oneiro_ostis.Records.Stored.{Texts, AnyRecord, schedule}
use oneiro_ostis.Memory.{Row, Rows, publish_record, memory_entity}
use oneiro_ostis.Store.Spec.{find_op}
use oneiro_ostis.Recall.{max_scanned}
use oneiro_ostis.Schedule.Text.{Unicode}
use oneiro_ostis.Schedule.Cron.{ScheduleError, Cron, parse}

pub data BookError : Type 0 where
  no_title unknown_role bad_request_id no_such_schedule : BookError
  unreadable : ScheduleError → BookError
  record_error : RecordError → BookError
  store_error : StoreError → BookError

pub record ScheduleRow : Type 0 where
  pub revision : ℕ
  pub schedule : Schedule

-- `is_enabled`
unfoldable pub is_enabled : Schedule → Bool
is_enabled s = s.enabled && not (is_state s.state cancelled)

unfoldable pub schedules_in : Rows → List ScheduleRow
schedules_in [] = []
schedules_in (e ∷ rows) =
    let rest = schedules_in rows in
    elim e.content [ schedule s ↦ record { revision = e.revision; schedule = s } ∷ rest | _ ↦ rest ]

abbrev pub row_id : ScheduleRow → String
row_id r = r.schedule.id

-- `current`: the newest revision of every schedule, newest first.
unfoldable pub current : Rows → List ScheduleRow
unfolding schedules_in
current log = first_of_each row_id [] (schedules_in (take max_scanned log))

unfoldable pub new_schedule : String → String → String → String → String → String → Schedule
new_schedule now id readable text detail role = record {
  base = record {
    id = id;
    schema_version = schema_version;
    created_at = now;
    updated_at = now;
    provenance = system;
    state = queued;
    labels = [];
  };
  cron = readable;
  task_title = text;
  task_detail = clip 4000 (strip detail);
  role = role;
  enabled = true;
  last_fired_at = "";
  last_task_id = "";
}

unfoldable pub readable : Result ScheduleError Cron → Result BookError String
readable (ok c) = ok c.text
readable (err e) = err (unreadable e)

-- The checks of `add` before the store is asked, and the expression as it will be stored.
unfoldable pub request_checked :
    Unicode → String → String → String → String → Result BookError String
unfolding readable
request_checked u text role cron client_id =
    require (not (is_empty text)) no_title
    >> (require (role == "researcher" || role == "executor") unknown_role
        >> (readable (parse u cron) >>= λ spelled.
            require (not (is_empty client_id || ltb 96 (chars client_id))) bad_request_id
            >> ok spelled))

module _ (texts : Texts) where
  unfoldable pub published :
      Rows
      → Result StoreError (Publication AnyRecord × Rows)
      → Result BookError (AnyRecord × Bool) × Rows
  published log (ok (p, log')) = (ok (p.envelope.content, p.duplicate), log')
  published log (err e) = (err (store_error e), log)

  unfoldable pub publish_schedule :
      Rows → Result RecordError Schedule → String → ℕ → Result BookError (AnyRecord × Bool) × Rows
  unfolding published
  publish_schedule log (err e) operation expected = (err (record_error e), log)
  publish_schedule log (ok s) operation expected =
      published log (publish_record texts log (schedule s) operation expected)

  unfoldable pub add_unless :
      Option AnyRecord
      → String
      → Rows
      → Result RecordError Schedule
      → Result BookError (AnyRecord × Bool) × Rows
  unfolding publish_schedule
  add_unless (some stored) id log s = (ok (stored, true), log)
  add_unless none id log s = publish_schedule log s id 0

  unfoldable pub add_checked :
      Result BookError String
      → String
      → String
      → String
      → String
      → String
      → Rows
      → Result BookError (AnyRecord × Bool) × Rows
  unfolding add_unless new_schedule
  add_checked (err e) now id text detail role log = (err e, log)
  add_checked (ok spelled) now id text detail role log =
      add_unless (memory_entity id log) id log
        (checked (new_schedule now id spelled text detail role))

  -- `add`: the stored schedule and whether it was there already.
  unfoldable pub add :
      Unicode
      → String
      → String
      → String
      → String
      → String
      → String
      → Rows
      → Result BookError (AnyRecord × Bool) × Rows
  unfolding add_checked request_checked
  add u now title cron detail role client_id log =
      let text = join " " (split title) in
      add_checked (request_checked u text role cron client_id) now (String.◌++◌ "sched-" client_id)
        text detail role log

  -- The answer of `remove` is whether the schedule was called off before.
  unfoldable pub removed : Result BookError (AnyRecord × Bool) × Rows → Result BookError Bool × Rows
  removed (ok (r, duplicate), log) = (ok duplicate, log)
  removed (err e, log) = (err e, log)

  unfoldable pub remove_found :
      String → Option ScheduleRow → String → Rows → Result BookError Bool × Rows
  unfolding removed publish_schedule is_enabled
  remove_found now none client_id log = (err no_such_schedule, log)
  remove_found now (some row) client_id log =
      if not (is_enabled row.schedule)
      then (ok true, log)
      else removed (
          publish_schedule log
            (with_state now cancelled none (λ (s : Schedule). record s { enabled = false })
              row.schedule)
            (String.◌++◌ "schedule-remove-" client_id) row.revision)

  -- `remove`
  unfoldable pub remove : String → String → String → Rows → Result BookError Bool × Rows
  unfolding remove_found current
  remove now id client_id log =
      remove_found now (first_where (λ (r : ScheduleRow). r.schedule.id == id) (current log))
        client_id log

  -- What an addition answers: a schedule that was there already, or one that the log now holds under
  -- its identifier, enabled, with the given spelling of its expression.
  abbrev pub Adds : String → Result BookError (AnyRecord × Bool) × Rows → Type 0
  Adds spelled (err e, log) = Unit
  Adds spelled (ok (r, duplicate), log) =
      (duplicate ≡ true)
      ⊎ ((s : Schedule) × (row : Row) × (r ≡ schedule s)
          × (find_op s.id log ≡ some row)
          × (row.content ≡ r)
          × (s.cron ≡ spelled)
          × (s.enabled ≡ true))
