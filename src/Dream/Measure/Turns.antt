-- ===== src/Dream/Measure/Turns.antt =====
-- The real turns of python/oneiro/dream/measure.py, over a state of everything outside the measurement.
use Prim.Native.String.{String, ◌++◌}
use mathlib.Core.List.{◌++◌ as append}
use oneiro_ostis.Prelude.{
  ℕ, zero, suc, ◌-◌, Bool, false, not, Option, none, some, List, [], ◌∷◌, Result, ok, err, bind,
  ◌==◌, string_comparable, ltb, length, any, keep_if, if◌then◌else◌, drop,
}
use oneiro_ostis.Prelude.Text.{is_empty}
use oneiro_ostis.Dream.Policy.{TurnPolicy, Knob, changed_fields}
use oneiro_ostis.Dream.Measure.{
  Task, MeasureError, not_applicable, unreadable, few_repeats, no_tasks, other_candidate, no_items,
  inside, Run, TaskResult, Measurement, default_repeats, record_attempts, is_measured,
  missing_repeats, sorted, task_result, is_applicable, client_of,
}

-- What a record of a turn reads as: its reply, or that it is not there, or that the graph did not
-- answer.
pub data Reading : Type 0 where
  reply_of : String → Reading
  not_recorded graph_failed : Reading

-- What the ledger of the models reports.
pub record Report : Type 0 where
  pub tokens_in : ℕ
  pub tokens_out : ℕ
  pub entries : List (Option String)

-- What a measurement uses, over a state `W` of everything outside it: `episode.read`, the report
-- of the ledger, the prelude followed by `agent.run_turn` (the reply's text and the number of
-- steps, or the error as it is recorded, which is never empty), the fixtures, and `config.save`.
pub record Subject (W : Type 0) : Type 0 where
  pub read : String → W → Reading × W
  pub report : W → Report
  pub turn : String → String → String → W → Result String (String × ℕ) × W
  pub write_fixtures : Task → W → W
  pub save : TurnPolicy → List Knob → W → W
  -- `str.casefold`, the sorted set of the models that served, `request_for` of the workspace
  pub casefold : String → String
  pub served_by : List (Option String) → List String
  pub request_for : Task → String

module _ {W : Type 0} (s : Subject W) where
  -- `Task.solved_by`
  unfoldable pub solved_by : Task → String → Bool
  unfolding inside
  solved_by task reply = any (λ answer. inside (s.casefold answer) (s.casefold reply)) task.answers

  -- `run_once`; the totals of the ledger only grow, so the differences are those of the source.
  abbrev run_of : ℕ → String → Task → W → Result String (String × ℕ) × W → Run × W
  run_of repeat session task before (outcome, w) =
      let old = s.report before in
      let new = s.report w in
      let fresh = drop (length old.entries) new.entries in
      (
        record {
          repeat = repeat;
          tokens_in = new.tokens_in - old.tokens_in;
          tokens_out = new.tokens_out - old.tokens_out;
          calls = length fresh;
          steps = elim outcome [ err e ↦ 0 | ok answer ↦ answer.1 ];
          solved = elim outcome [ err e ↦ false | ok answer ↦ solved_by task answer.0 ];
          served = s.served_by fresh;
          error = elim outcome [ err e ↦ e | ok answer ↦ "" ];
          session = session;
        },
        w,
      )

  unfoldable pub run_once : Task → ℕ → String → String → String → W → Run × W
  unfolding client_of solved_by
  run_once task repeat request conversation session w =
      run_of repeat session task w
        (s.turn request (client_of session task.name repeat) conversation w)

  -- `record_verdict`, with the attempts that are left.
  abbrev on_reading :
      Task
      → Run
      → String
      → Reading × W
      → (W → Result MeasureError (Option Run) × W)
      → Result MeasureError (Option Run) × W
  on_reading task run session (reply_of reply, w) again =
      (ok (some (record run { solved = solved_by task reply; session = session })), w)
  on_reading task run session (not_recorded, w) again = (ok none, w)
  on_reading task run session (graph_failed, w) again = again w

  unfoldable pub record_verdict : ℕ → Task → Run → String → W → Result MeasureError (Option Run) × W
  unfolding client_of solved_by
  record_verdict zero task run session w =
      (err (unreadable ("reply-" ++ client_of session task.name run.repeat)), w)
  record_verdict (suc left) task run session w =
      on_reading task run session (s.read ("reply-" ++ client_of session task.name run.repeat) w)
        (record_verdict left task run session)

  abbrev kept_and : Option Run → List Run → List Run
  kept_and none runs = runs
  kept_and (some run) runs = run ∷ runs

  abbrev or_session : String → String → String
  or_session session other = if is_empty session then other else session

  -- `kept_runs`, of the stored runs of a task.
  unfoldable pub kept_of : Task → String → List Run → W → Result MeasureError (List Run) × W
  unfolding record_verdict record_attempts
  kept_of task session [] w = (ok [], w)
  kept_of task session (run ∷ runs) w =
      if not (is_measured run)
      then kept_of task session runs w
      else bind (record_verdict record_attempts task run (or_session run.session session) w)
          (λ scored w'.
            bind (kept_of task session runs w') (λ kept w''. (ok (kept_and scored kept), w'')))

  unfoldable pub kept_runs : Task → Option Measurement → W → Result MeasureError (List Run) × W
  unfolding kept_of task_result
  kept_runs task none w = (ok [], w)
  kept_runs task (some reuse) w = elim (task_result task.name reuse) [
    | none ↦ (ok [], w)
    | some stored ↦ kept_of task reuse.session stored.runs w
  ]

  -- The repeats that are owed, each in a conversation of its own.
  unfoldable pub run_owed : Task → String → List ℕ → W → List Run × W
  unfolding run_once client_of
  run_owed task session [] w = ([], w)
  run_owed task session (repeat ∷ owed) w =
      let (run, w') =
        run_once task repeat (s.request_for task) (client_of session task.name repeat) session w in
      let (runs, w'') = run_owed task session owed w' in (run ∷ runs, w'')

  abbrev finish_task : Task → String → List Run → List Run × W → Result MeasureError TaskResult × W
  finish_task task policy kept (runs, w) =
      (ok record { task = task.name; policy = policy; runs = sorted (append kept runs) }, w)

  -- The body of the loop over the tasks.
  unfoldable pub measure_task :
      TurnPolicy → ℕ → String → Option Measurement → Task → W → Result MeasureError TaskResult × W
  unfolding kept_runs run_owed missing_repeats sorted
  measure_task policy repeats session reuse task w =
      bind (kept_runs task reuse (s.write_fixtures task w)) (λ kept w'.
        finish_task task policy.name kept (run_owed task session (missing_repeats kept repeats) w'))

  unfoldable pub measure_all :
      TurnPolicy
      → ℕ
      → String
      → Option Measurement
      → List Task
      → W
      → Result MeasureError (List TaskResult) × W
  unfolding measure_task
  measure_all policy repeats session reuse [] w = (ok [], w)
  measure_all policy repeats session reuse (task ∷ tasks) w =
      bind (measure_task policy repeats session reuse task w) (λ result w'.
        bind (measure_all policy repeats session reuse tasks w')
          (λ results w''. (ok (result ∷ results), w'')))

  -- `apply_policy`
  unfoldable pub unappliable : TurnPolicy → TurnPolicy → List Knob
  unfolding changed_fields is_applicable
  unappliable policy recorded =
      keep_if (λ knob. not (is_applicable knob)) (changed_fields policy recorded)

  abbrev blocked_or : List Knob → W → W → Result MeasureError (Unit {0}) × W
  blocked_or [] w saved = (ok tt, saved)
  blocked_or (knob ∷ knobs) w saved = (err (not_applicable (knob ∷ knobs)), w)

  unfoldable pub apply_policy : TurnPolicy → TurnPolicy → W → Result MeasureError (Unit {0}) × W
  unfolding unappliable changed_fields
  apply_policy policy recorded w =
      let changed = changed_fields policy recorded in
      blocked_or (unappliable policy recorded) w
        (if no_items changed then w else s.save policy changed w)

  abbrev pub is_other : TurnPolicy → Option Measurement → Bool
  is_other policy none = false
  is_other policy (some reuse) = not (reuse.policy == policy.name)

  -- What `measure` does behind its checks.
  unfoldable pub measure_checked :
      TurnPolicy
      → ℕ
      → List Task
      → TurnPolicy
      → String
      → Option Measurement
      → W
      → Result MeasureError Measurement × W
  unfolding measure_all apply_policy
  measure_checked policy repeats tasks recorded session reuse w =
      bind (apply_policy policy recorded w) (λ applied w'.
        bind (measure_all policy repeats session reuse tasks w') (λ results w''. (
          ok record { policy = policy.name; repeats = repeats; tasks = results; session = session },
          w'',
        )))

  -- `measure`, with the session already named
  unfoldable pub measure :
      TurnPolicy
      → ℕ
      → List Task
      → TurnPolicy
      → String
      → Option Measurement
      → W
      → Result MeasureError Measurement × W
  unfolding measure_checked default_repeats
  measure policy repeats tasks recorded session reuse w =
      if ltb repeats default_repeats
      then (err few_repeats, w)
      else if no_items tasks
      then (err no_tasks, w)
      else if is_other policy reuse
      then (err other_candidate, w)
      else measure_checked policy repeats tasks recorded session reuse w
