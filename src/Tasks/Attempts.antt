-- ===== src/Tasks/Attempts.antt =====
-- python/oneiro/tasks.py: starting an attempt, writing down what became of it, and the recovery of
-- attempts that stopped reporting. The state is the log of the owner's memory and the runs held.
use Prim.Native.String
use oneiro_ostis.Prelude.{
  ℕ, ◌+◌, String, Bool, true, false, not, ◌&&◌, ◌||◌, Option, none, some, List, [], ◌∷◌, ◌++◌,
  Result, ok, err, ◌>>=◌, ◌==◌, string_comparable, contains, keep_if, leb, if◌then◌else◌,
}
use oneiro_ostis.Prelude.Text.{clip, numeral, or_else}
use oneiro_ostis.Store.Graph.{StoreError}
use oneiro_ostis.Store.Writer.{Publication}
use oneiro_ostis.Records.Base.{
  RecordError, State, queued, running, waiting, completed, failed, cancelled, interrupted,
  uncertain, is_state, checked, with_state, schema_version, system,
}
use oneiro_ostis.Records.Kinds.{Task, Run, run_class}
use oneiro_ostis.Records.Stored.{Texts, AnyRecord, run}
use oneiro_ostis.Memory.{Row, Rows, publish_record}
use oneiro_ostis.Tasks.States.{RunRow, Snapshot, snapshot, task_of, state_of, Why}

pub data TaskError : Type 0 where
  no_such_task : TaskError
  record_error : RecordError → TaskError
  store_error : StoreError → TaskError

-- The memory and `_HELD_RUNS`.
pub record Desk : Type 0 where
  pub log : Rows
  pub held : List String

-- `hold` and `release`
unfoldable pub hold : String → List String → List String
hold id held = if contains held id then held else id ∷ held

unfoldable pub release : String → List String → List String
release id held = keep_if (λ h. not (h == id)) held

-- `sorted(runs, key=_attempt)`, which is stable.
unfoldable pub insert : RunRow → List RunRow → List RunRow
insert r [] = r ∷ []
insert r (x ∷ xs) =
    let rest = insert r xs in if leb r.run.attempt x.run.attempt then r ∷ x ∷ xs else x ∷ rest

unfoldable pub sorted : List RunRow → List RunRow
unfolding insert
sorted [] = []
sorted (r ∷ rs) = insert r (sorted rs)

-- `runs[-1]`
unfoldable pub last : List RunRow → Option RunRow
last [] = none
last (r ∷ []) = some r
last (r ∷ x ∷ xs) = last (x ∷ xs)

-- What `start` answers: the reason why it did not, or the stored row of the attempt that it opened
-- (`started` is false when the store had the publication already).
pub data Started : Type 0 where
  open_attempt : RunRow → Started
  refused : State → Why → Started
  opened : Bool → Row → Started

unfoldable pub next_attempt : Option RunRow → ℕ
next_attempt none = 1
next_attempt (some r) = r.run.attempt + 1

unfoldable pub state_name : State → String
state_name queued = "queued"
state_name running = "running"
state_name waiting = "waiting"
state_name completed = "completed"
state_name failed = "failed"
state_name cancelled = "cancelled"
state_name interrupted = "interrupted"
state_name uncertain = "uncertain"

-- f"run-{task_id}-a{attempt}"
unfoldable pub run_name : String → ℕ → String
run_name id n = String.◌++◌ "run-" (String.◌++◌ id (String.◌++◌ "-a" (numeral n)))

-- The record that `start` builds.
unfoldable pub new_run : String → Task → ℕ → Run
unfolding run_name
new_run now t attempt = record {
  base = record {
    id = run_name t.id attempt;
    schema_version = schema_version;
    created_at = now;
    updated_at = now;
    provenance = system;
    state = running;
    labels = [];
  };
  task_id = t.id;
  role = or_else t.assigned_role "executor";
  attempt = attempt;
  notes = "";
}

-- `runs and state_of_row(runs[-1]) == State.RUNNING.value`
unfoldable pub open_one : Option RunRow → Option RunRow
open_one none = none
open_one (some r) = if is_state r.run.state running then some r else none

-- `state in (WAITING, RUNNING)`, or `state != QUEUED and not retry`
unfoldable pub holds_back : Bool → State → Bool
holds_back retry s =
    is_state s waiting || is_state s running || (not (is_state s queued) && not retry)

module _ (texts : Texts) where
  publish_attempt :
      Desk
      → String
      → Result StoreError (Publication AnyRecord × Rows)
      → Result TaskError Started × Desk
  publish_attempt d id (ok (p, log')) =
      (ok (opened (not p.duplicate) p.envelope), record { log = log'; held = hold id d.held })
  publish_attempt d id (err e) =
      (err (store_error e), record d { held = release id (hold id d.held) })

  -- The constructor of the record, and its publication under a hold.
  unfoldable pub open_run : Desk → Result RecordError Run → Result TaskError Started × Desk
  unfolding publish_attempt hold release
  open_run d (err e) = (err (record_error e), d)
  open_run d (ok r) = publish_attempt d r.id (publish_record texts d.log (run r) r.id 0)

  -- The answer of `start`, of the attempt that is open, whether the task's state holds it back, that
  -- state, and the record of the next attempt.
  unfoldable pub start_with :
      Option RunRow
      → Bool
      → State × Why
      → Desk
      → Result RecordError Run
      → Result TaskError Started × Desk
  unfolding open_run
  start_with (some r) back own d next = (ok (open_attempt r), d)
  start_with none true (state, why) d next = (ok (refused state why), d)
  start_with none false own d next = open_run d next

  unfoldable pub start_task : String → Bool → Task → Desk → Result TaskError Started × Desk
  unfolding sorted last open_one start_with next_attempt holds_back new_run
  start_task now retry t d =
      let s = snapshot d.log in
      let newest = last (sorted (s.runs t.id)) in
      let own = state_of d.held s t in
      start_with (open_one newest) (holds_back retry own.0) own d
        (checked (new_run now t (next_attempt newest)))

  unfoldable pub start_found : String → Bool → Option Task → Desk → Result TaskError Started × Desk
  unfolding start_task
  start_found now retry none d = (err no_such_task, d)
  start_found now retry (some t) d = start_task now retry t d

  -- `start`
  unfoldable pub start : String → String → Bool → Desk → Result TaskError Started × Desk
  unfolding start_found
  start now id retry d = start_found now retry (task_of (snapshot d.log) id) d

  publish_finished : Rows → RunRow → State → Result RecordError Run → Result TaskError Row × Rows
  publish_finished log r target (err e) = (err (record_error e), log)
  publish_finished log r target (ok updated) =
      elim (publish_record texts log (run updated)
        (String.◌++◌ r.run.id (String.◌++◌ "-" (state_name target))) r.revision) [
          | ok (p, log') ↦ (ok p.envelope, log')
          | err e ↦ (err (store_error e), log)
        ]

  -- `finish`
  unfoldable pub finish : String → RunRow → State → String → Rows → Result TaskError Row × Rows
  unfolding publish_finished
  finish now r target notes log =
      publish_finished log r target
        (with_state now target none (λ (x : Run). record x { notes = clip 2000 notes }) r.run)

  finish_lost : String → List String → List RunRow → Rows → Result TaskError (List String) × Rows
  unfolding finish
  finish_lost now held [] log = (ok [], log)
  finish_lost now held (r ∷ rs) log =
      elim (is_state r.run.state running && not (contains held r.run.id)) [
        | false ↦ finish_lost now held rs log
        | true ↦
            let (done, log') =
              finish now r uncertain
                "this attempt started and never reported back; whether it changed anything is unknown"
                log in
            elim done [
              | err e ↦ (err e, log')
              | ok row ↦
                  let (rest, after) = finish_lost now held rs log' in
                  (rest >>= λ ids. ok (r.run.id ∷ ids), after)
            ]
      ]

  attempts_of : Snapshot → List String → List RunRow
  unfolding sorted
  attempts_of s [] = []
  attempts_of s (id ∷ ids) = sorted (s.runs id) ++ attempts_of s ids

  -- `reconcile`
  unfoldable pub reconcile : String → Desk → Result TaskError (List String) × Desk
  unfolding finish_lost attempts_of
  reconcile now d =
      let s = snapshot d.log in
      let (done, log') = finish_lost now d.held (attempts_of s s.run_tasks) d.log in
      (done, record d { log = log' })
