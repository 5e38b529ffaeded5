-- ===== src/Tasks/States.antt =====
-- python/oneiro/tasks.py: the snapshot of the stored stream, the state of each task and the level
-- that decides what starts by itself. The sentence that says why is the value of its parts.
use oneiro_ostis.Prelude.{
  first_of_each, ℕ, suc, String, Bool, true, false, not, Option, none, some, List, [], ◌∷◌, ◌==◌,
  string_comparable, contains, keep_if, first_where, length, take, leb, ltb, if◌then◌else◌,
}
use oneiro_ostis.Records.Base.{
  State, queued, running, waiting, completed, failed, cancelled, uncertain, is_state,
}
use oneiro_ostis.Records.Kinds.{Task, Run}
use oneiro_ostis.Records.Stored.{task, run}
use oneiro_ostis.Memory.{Rows}
use oneiro_ostis.Recall.{max_scanned}

-- `MAX_ATTEMPTS`
abbrev pub max_attempts : ℕ
max_attempts = 3

-- A stored run with the revision of its row.
pub record RunRow : Type 0 where
  pub revision : ℕ
  pub run : Run

abbrev pub run_id : RunRow → String
run_id r = r.run.id

unfoldable pub tasks_in : Rows → List Task
tasks_in [] = []
tasks_in (e ∷ rows) = elim e.content [ task t ↦ t ∷ tasks_in rows | _ ↦ tasks_in rows ]

unfoldable pub runs_in : String → Rows → List RunRow
runs_in id [] = []
runs_in id (e ∷ rows) =
    let rest = runs_in id rows in
    elim e.content [
      | run r ↦ if r.task_id == id then record { revision = e.revision; run = r } ∷ rest else rest
      | _ ↦ rest
    ]

-- The keys of `runs`, in the order of their first row.
unfoldable pub run_tasks_in : Rows → List String
run_tasks_in [] = []
run_tasks_in (e ∷ rows) = elim e.content [
  | run r ↦ r.task_id ∷ run_tasks_in rows
  | _ ↦ run_tasks_in rows
]

-- `Snapshot`: the newest revision of each task and, for each task, of its runs.
pub record Snapshot : Type 0 where
  pub tasks : List Task
  pub runs : String → List RunRow
  pub run_tasks : List String

-- `snapshot`, of the rows that one scan serves.
unfoldable pub snapshot : Rows → Snapshot
unfolding tasks_in runs_in run_tasks_in
snapshot log = record {
  tasks = first_of_each (λ (t : Task). t.id) [] (tasks_in (take max_scanned log));
  runs = λ id. first_of_each run_id [] (runs_in id (take max_scanned log));
  run_tasks = first_of_each (λ id. id) [] (run_tasks_in (take max_scanned log));
}

-- `snapshot.tasks.get(id)`
unfoldable pub task_of : Snapshot → String → Option Task
task_of s id = first_where (λ (t : Task). t.id == id) s.tasks

-- Why a task has its state.
pub data Why : Type 0 where
  not_started in_flight no_report unknown_outcome finished called_off : Why
  gave_up : ℕ → Why
  ready_for : ℕ → Why
  waiting_for : List String → Why

-- `max(runs, key=_attempt)` for a run and the ones behind it: the first of the highest attempts.
unfoldable pub newest_attempt : RunRow → List RunRow → RunRow
newest_attempt r [] = r
newest_attempt r (x ∷ xs) = newest_attempt (if ltb r.run.attempt x.run.attempt then x else r) xs

-- `_own_state` behind the test of an empty list, of the newest attempt and the number of them.
unfoldable pub state_after : List String → RunRow → State → ℕ → State × Why
state_after held latest running n =
    if contains held (run_id latest) then (running, in_flight) else (uncertain, no_report)
state_after held latest uncertain n = (uncertain, unknown_outcome)
state_after held latest completed n = (completed, finished)
state_after held latest cancelled n = (cancelled, called_off)
state_after held latest _ n =
    if leb max_attempts n then (failed, gave_up n) else (queued, ready_for (suc n))

-- `_own_state`
unfoldable pub own_state : List String → List RunRow → State × Why
unfolding newest_attempt state_after
own_state held [] = (queued, not_started)
own_state held (r ∷ rs) =
    let latest = newest_attempt r rs in state_after held latest latest.run.state (length (r ∷ rs))

-- The states that a dependency does not change.
unfoldable pub is_settled : State → Bool
is_settled completed = true
is_settled uncertain = true
is_settled running = true
is_settled cancelled = true
is_settled _ = false

-- `own.get(id, ("", ""))[0] == State.COMPLETED.value`
unfoldable pub is_done : List String → Snapshot → String → Bool
unfolding own_state task_of
is_done held s id = elim (task_of s id) [
  | none ↦ false
  | some t ↦ is_state (own_state held (s.runs id)).0 completed
]

-- The dependencies of a task that are not finished.
unfoldable pub missing : List String → Snapshot → Task → List String
unfolding is_done
missing held s t = keep_if (λ id. not (is_done held s id)) t.blocked_by

unfoldable pub hold_back : List String → State × Why → State × Why
hold_back [] own = own
hold_back (id ∷ ids) own = (waiting, waiting_for (id ∷ ids))

-- `states`, at one task
unfoldable pub state_of : List String → Snapshot → Task → State × Why
unfolding own_state is_settled missing hold_back
state_of held s t =
    let own = own_state held (s.runs t.id) in
    if is_settled own.0 then own else hold_back (missing held s t) own

-- `LEVELS`
pub data Level : Type 0 where
  off on_command scheduled proactive : Level

-- `level`, of the text that the settings declare, stripped and in lower case; `none` stands for a
-- setting that cannot be read.
unfoldable pub level : Option String → Level
level none = off
level (some declared) =
    if declared == "on_command"
    then on_command
    else if declared == "scheduled"
    then scheduled
    else if declared == "proactive"
    then proactive
    else off

-- `picks_up_work`
unfoldable pub picks_up_work : Level → Bool
picks_up_work scheduled = true
picks_up_work proactive = true
picks_up_work _ = false

-- `speaks_up`
unfoldable pub speaks_up : Level → Bool
speaks_up proactive = true
speaks_up _ = false
