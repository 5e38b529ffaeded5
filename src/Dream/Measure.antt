-- ===== src/Dream/Measure.antt =====
-- python/oneiro/dream/measure.py: each task of a measurement run several times under a candidate,
-- and a measurement that was cut short continued with the runs it is missing. Less the clock and
-- the means, which are floating-point numbers.
pub mod Turns
pub mod Covered
use Prim.Native.Char.{code}
use Prim.Native.String.{String, ◌++◌, [], ◌∷◌}
use mathlib.Core.List.{map, ◌++◌ as append}
use oneiro_ostis.Prelude.{
  ℕ, zero, suc, ◌-◌, Bool, true, false, not, ◌&&◌, ◌||◌, Option, none, some, List, [], ◌∷◌, Result,
  ok, err, bind, ◌==◌, string_comparable, nat_beq, leb, ltb, length, any, all, keep_if, first_where,
  if◌then◌else◌, drop,
}
use oneiro_ostis.Prelude.Text.{is_empty, is_blank, numeral}
use oneiro_ostis.Dream.Policy.{TurnPolicy, Knob, changed_fields}

-- `Task`
pub record Task : Type 0 where
  pub name : String
  pub request : String
  pub files : List (String × String)
  pub answers : List String

pub data MeasureError : Type 0 where
  nameless_task empty_answer no_files few_repeats no_tasks other_candidate : MeasureError
  not_applicable : List Knob → MeasureError
  unreadable : String → MeasureError

abbrev pub no_items {ℓ} : {A : Type ℓ} → List A → Bool
no_items [] = true
no_items (x ∷ xs) = false

-- `Task.__post_init__`
unfoldable pub task_check : Task → Result MeasureError (Unit {0})
task_check t =
    if is_blank t.name || is_blank t.request || no_items t.answers
    then err nameless_task
    else if not (all (λ answer. not (is_blank answer)) t.answers)
    then err empty_answer
    else if no_items t.files
    then err no_files
    else ok tt

starts : String → String → Bool
starts [] text = true
starts (c ∷ needle) [] = false
starts (c ∷ needle) (d ∷ text) = nat_beq (code c) (code d) && starts needle text

-- `needle in text`
unfoldable pub inside : String → String → Bool
unfolding starts
inside needle [] = is_empty needle
inside needle (c ∷ text) = starts needle (c ∷ text) || inside needle text

-- `Run`, less its seconds
pub record Run : Type 0 where
  pub repeat : ℕ
  pub tokens_in : ℕ
  pub tokens_out : ℕ
  pub calls : ℕ
  pub steps : ℕ
  pub solved : Bool
  pub served : List String
  pub error : String
  pub session : String

-- `TaskResult`
pub record TaskResult : Type 0 where
  pub task : String
  pub policy : String
  pub runs : List Run

-- `Measurement`, less its notes
pub record Measurement : Type 0 where
  pub policy : String
  pub repeats : ℕ
  pub tasks : List TaskResult
  pub session : String

unfoldable pub default_repeats : ℕ
default_repeats = 3

unfoldable pub record_attempts : ℕ
record_attempts = 3

-- `if not run.error`
abbrev pub is_measured : Run → Bool
is_measured run = is_empty run.error

-- `TaskResult.measured`
abbrev pub measured : List Run → List Run
measured runs = keep_if is_measured runs

-- `range(first, first + n)`
unfoldable pub count_up : ℕ → ℕ → List ℕ
count_up first zero = []
count_up first (suc n) = first ∷ count_up (suc first) n

abbrev pub is_repeat : ℕ → Run → Bool
is_repeat number run = nat_beq run.repeat number

-- `missing_repeats`
unfoldable pub missing_repeats : List Run → ℕ → List ℕ
unfolding count_up
missing_repeats runs repeats =
    keep_if (λ number. not (any (is_repeat number) (measured runs))) (count_up 1 repeats)

-- `runs.sort(key=lambda run: run.repeat)`, which keeps the order of equal keys
unfoldable pub insert : Run → List Run → List Run
insert run [] = run ∷ []
insert run (other ∷ runs) =
    let rest = insert run runs in
    if leb run.repeat other.repeat then run ∷ other ∷ runs else other ∷ rest

unfoldable pub sorted : List Run → List Run
unfolding insert
sorted [] = []
sorted (run ∷ runs) = insert run (sorted runs)

-- `Measurement.task_result`
unfoldable pub task_result : String → Measurement → Option TaskResult
task_result name m = first_where (λ (r : TaskResult). r.task == name) m.tasks

unfoldable pub hyphenated : String → String
hyphenated [] = []
hyphenated (c ∷ text) =
    let rest = hyphenated text in if nat_beq (code c) b'_' then "-" ++ rest else c ∷ rest

-- `unappliable`: the knobs without a setting that the turn reads
unfoldable pub is_applicable : Knob → Bool
is_applicable Knob.history_messages = true
is_applicable Knob.context_chars = true
is_applicable Knob.max_turns = true
is_applicable _ = false

unfoldable pub client_of : String → String → ℕ → String
unfolding hyphenated
client_of session name repeat = hyphenated (session ++ ("-" ++ (name ++ ("-r" ++ numeral repeat))))
