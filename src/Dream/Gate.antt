-- ===== src/Dream/Gate.antt =====
-- python/oneiro/dream/gate.py: an experiment is frozen, measured, judged and promoted, and a
-- promotion can be undone. Python's floats are a type with its comparison `≤`, handed in.
pub mod Laws
use Prim.Native.String
use oneiro_ostis.Prelude.{
  ℕ, String, Bool, true, false, not, ◌&&◌, ◌||◌, List, [], ◌∷◌, ◌++◌, Result, ok, err, ◌>>=◌, ◌>>◌,
  require, leb, ◌==◌, string_comparable, if◌then◌else◌, map_error, all,
}
use oneiro_ostis.Prelude.Text.{is_blank, strip}
use oneiro_ostis.Records.Base.{
  Base, RecordClass, RecordError, schema_version, system, queued, running, completed, checked,
  touch,
}
use oneiro_ostis.Records.Kinds.{
  Experiment, Release, experiment_class, release_class, experiment_check, release_check,
  has_enough_repeats, may_conclude, with_repeats,
}

-- `MIN_REPEATS`
abbrev pub default_repeats : ℕ
default_repeats = 3

-- The checks that a refusal can name, in the order of the source's dictionary.
pub data Check : Type 0 where
  frozen_before_run enough_repeats coverage saving no_regression : Check

abbrev pub check_name : Check → String
check_name frozen_before_run = "frozen_before_run"
check_name enough_repeats = "enough_repeats"
check_name coverage = "coverage"
check_name saving = "saving"
check_name no_regression = "no_regression"

-- One constructor to a `raise GateError`; `not_a_record` is a `RecordError` that a record's own
-- constructor raises on the way.
pub data GateError : Type 0 where
  same_candidate : GateError
  other_candidate : String → String → GateError
  cannot_conclude : String → GateError
  refused : List Check → GateError
  no_reason : GateError
  already_rolled_back : GateError
  never_promoted : GateError
  not_a_record : RecordError → GateError

-- What a new record takes from the clock and from `uuid`: its identity and its times.
pub record Stamp : Type 0 where
  pub id : String
  pub at : String

pub record Verdict : Type 0 where
  pub passed : Bool
  pub checks : List (Check × Bool)
  pub reasons : List Check

abbrev pub failed_checks : List (Check × Bool) → List Check
failed_checks [] = []
failed_checks ((c, true) ∷ rest) = failed_checks rest
failed_checks ((c, false) ∷ rest) = c ∷ failed_checks rest

abbrev pub all_pass : List (Check × Bool) → Bool
all_pass [] = true
all_pass ((c, b) ∷ rest) = b && all_pass rest

abbrev pub named_checks : List (Check × Bool) → List (String × Bool)
named_checks [] = []
named_checks ((c, b) ∷ rest) = (check_name c, b) ∷ named_checks rest

-- The revision that undoes a promotion: `dataclasses.replace` of four fields.
abbrev pub undone : String → String → Release → Release
undone now reason release = record release {
  base = record release.base {
    updated_at = now;
    labels = release.labels ++ String.◌++◌ "rollback:" (strip reason) ∷ [];
  };
  promoted = false;
  rolled_back = true;
}

-- A revision that undoes a promotion. It touches the one release and names its reason.
unfoldable pub rollback : String → String → Release → Result GateError Release
rollback now reason release =
    if is_blank reason
    then err no_reason
    else if release.rolled_back
    then err already_rolled_back
    else if not release.promoted
    then err never_promoted
    else map_error not_a_record (checked (undone now reason release))

pub record Criteria (Float : Type 0) : Type 0 where
  pub coverage_floor : Float
  pub saving_threshold : Float
  pub min_repeats : ℕ
  pub max_regressions : ℕ

pub record Evidence (Float : Type 0) : Type 0 where
  pub policy : String
  pub coverage : Float
  pub saving : Float
  pub repeats : ℕ
  pub regressions : ℕ

-- `record_repeats`
unfoldable pub record_repeats : String → Experiment → ℕ → Result RecordError Experiment
record_repeats now experiment repeats = with_repeats now repeats experiment

module _ {Float : Type 0} where
  -- An experiment with its rules already frozen.
  unfoldable pub open_experiment :
      Stamp
      → String
      → String
      → String
      → String
      → Criteria Float
      → List ℕ
      → Result GateError Experiment
  open_experiment stamp name hypothesis control candidate criteria seeds =
      if control == candidate
      then err same_candidate
      else map_error not_a_record (
          checked (record {
            base = record {
              id = stamp.id;
              schema_version = schema_version;
              created_at = stamp.at;
              updated_at = stamp.at;
              provenance = system;
              state = running;
              labels = "dream-gate" ∷ [];
            };
            name = name;
            hypothesis = hypothesis;
            control = control;
            candidate = candidate;
            seeds = seeds;
            repeats = 0;
            min_repeats = criteria.min_repeats;
            frozen_before_run = true;
          }))

-- The one thing a promotion produces.
abbrev pub release_of : Stamp → Experiment → Verdict → String → Release
release_of stamp experiment verdict version = record {
  base = record {
    id = stamp.id;
    schema_version = schema_version;
    created_at = stamp.at;
    updated_at = stamp.at;
    provenance = system;
    state = completed;
    labels = "dream-gate" ∷ String.◌++◌ "experiment:" experiment.name ∷ [];
  };
  version = version;
  artifact = experiment.candidate;
  checks = named_checks verdict.checks;
  promoted = true;
  rolled_back = false;
}

module _ {Float : Type 0} (le : Float → Float → Bool) where
  unfoldable pub gate_checks : Experiment → Criteria Float → Evidence Float → List (Check × Bool)
  unfolding has_enough_repeats
  gate_checks experiment criteria evidence =
      (frozen_before_run, experiment.frozen_before_run)
      ∷ (enough_repeats, has_enough_repeats experiment && leb criteria.min_repeats evidence.repeats)
      ∷ (coverage, le criteria.coverage_floor evidence.coverage)
      ∷ (saving, le criteria.saving_threshold evidence.saving)
      ∷ (no_regression, leb evidence.regressions criteria.max_regressions)
      ∷ []

  unfoldable pub gate : Experiment → Criteria Float → Evidence Float → Verdict
  unfolding gate_checks
  gate experiment criteria evidence =
      let checks = gate_checks experiment criteria evidence in
      record { passed = all_pass checks; checks = checks; reasons = failed_checks checks }

  unfoldable pub promote :
      Stamp → Experiment → Criteria Float → Evidence Float → String → Result GateError Release
  unfolding gate may_conclude
  promote stamp experiment criteria evidence version =
      let verdict = gate experiment criteria evidence in
      if not (evidence.policy == experiment.candidate)
      then err (other_candidate evidence.policy experiment.candidate)
      else if not (may_conclude experiment)
      then err (cannot_conclude experiment.name)
      else if not verdict.passed
      then err (refused verdict.reasons)
      else map_error not_a_record (checked (release_of stamp experiment verdict version))
