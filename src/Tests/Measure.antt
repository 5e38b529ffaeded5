-- ===== src/Tests/Measure.antt =====
-- A measurement at concrete inputs: it is continued with the two repeats that it is missing.
use Prim.Native.String.{String}
use oneiro_ostis.Prelude.{ℕ, ◌+◌, ◌≡◌, refl, false, some, List, [], ◌∷◌, Result, ok, err, map}
use oneiro_ostis.Prelude.Text.{is_empty}
use oneiro_ostis.Dream.Policy.{changed_fields}
use oneiro_ostis.Dream.Policy.{recorded as base_policy}
use oneiro_ostis.Dream.Measure.{
  Task, MeasureError, Run, TaskResult, Measurement, missing_repeats, count_up, sorted, insert,
  task_result, default_repeats, record_attempts,
}
use oneiro_ostis.Dream.Measure.Turns.{
  Subject, reply_of, run_once, record_verdict, kept_of, kept_runs, run_owed, measure_task,
  measure_all, unappliable, apply_policy, measure_checked, measure,
}
use oneiro_ostis.Dream.Measure.Covered.{Covers, measure-Covers}

-- The state counts the turns, each of which reads two tokens.
abbrev subject : Subject ℕ
subject = record {
  read = λ id w. (reply_of "it is 7", w);
  report = λ w. record { tokens_in = w + w; tokens_out = w; entries = [] };
  turn = λ request client conversation w. (ok ("7", 1), w + 1);
  write_fixtures = λ task w. w;
  save = λ policy knobs w. w;
  casefold = λ text. text;
  served_by = λ entries. [];
  request_for = λ task. task.request;
}

abbrev counting : Task
counting = record {
  name = "count";
  request = "how many lines?";
  files = ("LINES.txt", "1") ∷ [];
  answers = "7" ∷ [];
}

abbrev old_run : ℕ → String → Run
old_run repeat error = record {
  repeat = repeat;
  tokens_in = 5;
  tokens_out = 1;
  calls = 1;
  steps = 1;
  solved = false;
  served = [];
  error = error;
  session = "old";
}

-- The first repeat had failed, the second came back, and the third was never made.
abbrev cut_short : Measurement
cut_short = record {
  policy = "recorded";
  repeats = 3;
  tasks =
      record {
        task = "count";
        policy = "recorded";
        runs = old_run 1 "TimeoutError: " ∷ old_run 2 "" ∷ [];
      }
      ∷ [];
  session = "old";
}

measure-Covers_example :
    Covers subject
      (counting ∷ [])
      3
      (measure subject base_policy 3 (counting ∷ []) base_policy "new" (some cut_short) 0)
measure-Covers_example =
    measure-Covers subject base_policy 3 (counting ∷ []) base_policy "new" (some cut_short) 0

-- The tokens of each run that a result holds.
abbrev tokens : Result MeasureError Measurement × ℕ → List (List ℕ)
tokens (err e, w) = []
tokens (ok m, w) = map (λ (r : TaskResult). map (λ (run : Run). run.tokens_in) r.runs) m.tasks

-- The run that came back is kept with its cost, and only the other two are made.
continued :
    tokens (measure subject base_policy 3 (counting ∷ []) base_policy "new" (some cut_short) 0)
    ≡ (2 ∷ 5 ∷ 2 ∷ []) ∷ []
unfolding measure measure_checked measure_all measure_task apply_policy unappliable changed_fields
    kept_runs kept_of record_verdict run_owed run_once missing_repeats count_up sorted insert
    task_result default_repeats record_attempts is_empty
continued = refl
