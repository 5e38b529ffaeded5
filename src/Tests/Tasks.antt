-- ===== src/Tests/Tasks.antt =====
-- Tasks at a memory that holds one task.
use oneiro_ostis.Tests.Store.{unbounded}
use oneiro_ostis.Prelude.{
  ok, All, ◌==◌, string_comparable, ℕ, ◌≡◌, refl, true, false, none, some, [], ◌∷◌,
}
use oneiro_ostis.Prelude.Text.{
  is_blank, strip, split, join, clip, is_space, is_empty, numeral, or_else, chars,
}
use oneiro_ostis.Store.Graph.{is_name}
use oneiro_ostis.Store.Spec.{publish}
use oneiro_ostis.Records.Base.{queued, failed}
use oneiro_ostis.Records.Kinds.{task_check, Task, run_check, run_class}
use oneiro_ostis.Records.Stored.{is_named_record, task, any_base, kind_name, is_sound_record}
use oneiro_ostis.Memory.{memory_entity, publish_record}
use oneiro_ostis.Tasks.States.{
  RunRow, snapshot, task_of, tasks_in, runs_in, state_of, own_state, is_settled, missing, hold_back,
}
use oneiro_ostis.Tasks.Attempts.{
  Desk, start, start_found, start_task, start_with, open_run, sorted, last, next_attempt, open_one,
  holds_back, new_run, run_name, hold,
}
use oneiro_ostis.Tasks.Ready.{IsReady, has_opened, start-IsReady}
use oneiro_ostis.Tasks.Newest.{Below, next_attempt-above}
use oneiro_ostis.Tasks.Create.{
  create, create_unless, create_new, request_error, check_blocked, is_stored, new_task,
  create-blocked,
}
use oneiro_ostis.Tests.Records.{base_of, task_in}

abbrev desk : Desk
desk = record {
  log =
      record {
        operation = "task-1";
        sequence = 1;
        revision = 1;
        previous = none;
        previous_revision = none;
        content = task (task_in queued "t0");
      }
      ∷ [];
  held = [];
}

begins : has_opened (start unbounded "t1" "task-1" false desk).0 ≡ true
unfolding start snapshot task_of tasks_in runs_in state_of own_state is_settled missing hold_back
    start_found start_task start_with open_run sorted last next_attempt open_one holds_back new_run
    run_name hold numeral or_else publish_record publish is_name is_sound_record is_named_record
    any_base kind_name run_check is_empty chars
begins = refl

start-IsReady_example :
    (t : Task) × (task_of (snapshot desk.log) "task-1" ≡ some t) × IsReady (snapshot desk.log) t
start-IsReady_example = start-IsReady unbounded "t1" "task-1" desk begins

abbrev attempt : ℕ → RunRow
attempt n = record {
  revision = 2;
  run = record {
    base = base_of "run-1" failed;
    task_id = "task-1";
    role = "executor";
    attempt = n;
    notes = "";
  };
}

next_attempt-above_example :
    Below (next_attempt (last (sorted (attempt 2 ∷ attempt 1 ∷ [])))) (attempt 2 ∷ attempt 1 ∷ [])
next_attempt-above_example = next_attempt-above (attempt 2 ∷ attempt 1 ∷ [])

-- The answer to a request for a second task that waits for the first.
abbrev second_task : Task
second_task = new_task "t1" "task-2" "read" "" "executor" ("task-1" ∷ []) []

second_is_new : memory_entity "task-2" desk.log ≡ none
unfolding memory_entity any_base
second_is_new = refl

second_made :
    (create unbounded "t1" "read" "" "executor" ("task-1" ∷ []) [] "2" desk.log).0
    ≡ ok (task second_task, false)
unfolding create create_unless create_new request_error check_blocked is_stored memory_entity
    any_base new_task publish_record publish is_name is_sound_record is_named_record kind_name
    task_check is_blank is_empty strip is_space split join chars clip
second_made = refl

create-blocked_example :
    All
      (λ item. ((item == "task-2") ≡ false) × (is_stored (memory_entity item desk.log) ≡ true))
      ("task-1" ∷ [])
create-blocked_example =
    create-blocked unbounded "t1" "read" "" "executor" "2" ("task-1" ∷ []) [] desk.log second_is_new
      second_made
