-- ===== src/Tests/Records.antt =====
-- Records at concrete values.
use oneiro_ostis.Prelude.{ℕ, String, ◌≡◌, refl, true, [], ◌∷◌, ok, All}
use oneiro_ostis.Prelude.Text.{is_empty, is_blank, strip, is_space}
use oneiro_ostis.Records.Base.{
  Base, State, queued, running, completed, system, owner_instruction, with_state, unknown,
}
use oneiro_ostis.Records.Kinds.{
  Task, task_class, task_check, Experiment, experiment_class, experiment_check, with_repeats,
  may_conclude, Action,
}
use oneiro_ostis.Records.Owner.{
  Approval, consumed_by, approval_check, Question, answered, with_answer, question_check,
}
use oneiro_ostis.Records.Lifecycle.{life, finished_for_good}

abbrev pub base_of : String → State → Base
base_of id state = record {
  id = id;
  schema_version = 1;
  created_at = "t0";
  updated_at = "t0";
  provenance = system;
  state = state;
  labels = [];
}

abbrev pub task_in : State → String → Task
task_in state at = record {
  base = record (base_of "task-1" state) { updated_at = at };
  title = "write";
  detail = "";
  assigned_role = "executor";
  parent_id = "";
  blocked_by = [];
}

moved :
    life (("t1", running) ∷ ("t2", completed) ∷ []) (task_in queued "t0")
    ≡ ok (task_in completed "t2")
unfolding life with_state task_check is_blank strip is_empty is_space
moved = refl

kept : life (("t3", completed) ∷ []) (task_in completed "t2") ≡ ok (task_in completed "t3")
unfolding life with_state task_check is_blank strip is_empty is_space
kept = refl

finished_for_good_example :
    ((task_in completed "t3").state ≡ (task_in completed "t2").state)
    × All (λ (m : String × State). m.1 ≡ (task_in completed "t2").state) (("t3", completed) ∷ [])
finished_for_good_example =
    finished_for_good (("t3", completed) ∷ []) (task_in completed "t2") refl kept

abbrev grant : String → String → Approval
grant at used_on = record {
  base = record (base_of "approval-1" completed) {
    updated_at = at;
    provenance = owner_instruction;
  };
  action_id = "act-1";
  tool = "send";
  arguments_digest = "d1";
  granted = true;
  reason = "";
  task_id = "";
  consumed_action_id = used_on;
}

spent : consumed_by "t1" "act-1" (grant "t0" "") ≡ ok (grant "t1" "act-1")
unfolding consumed_by approval_check is_blank strip is_empty is_space
spent = refl

abbrev ask : String → String → Question
ask at answer = record {
  base = record (base_of "ask-1" completed) { updated_at = at };
  question = "when?";
  answer = answer;
  task_id = "";
  conversation_id = "";
}

told : with_answer "t1" " now " (ask "t0" "") ≡ ok (ask "t1" "now")
unfolding with_answer answered question_check is_blank strip is_empty is_space
told = refl

abbrev measured : String → ℕ → Experiment
measured at repeats = record {
  base = record (base_of "exp-1" running) { updated_at = at };
  name = "windows";
  hypothesis = "a smaller window keeps the answers";
  control = "recorded";
  candidate = "windowed";
  seeds = 1 ∷ 2 ∷ [];
  repeats = repeats;
  min_repeats = 3;
  frozen_before_run = true;
}

counted : with_repeats "t1" 5 (measured "t0" 3) ≡ ok (measured "t1" 5)
unfolding with_repeats experiment_check is_blank strip is_empty is_space
counted = refl

may_do : may_conclude (measured "t0" 3) ≡ true
unfolding may_conclude
may_do = refl

abbrev sent : Action
sent = record {
  base = base_of "act-1" completed;
  run_id = "run-1";
  tool = "send";
  arguments = [];
  effect = record { kind = "mail"; target = "owner"; outcome = unknown; observed_at = "" };
  result = "";
  decision = "allow";
}
