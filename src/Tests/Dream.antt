-- ===== src/Tests/Dream.antt =====
-- The gate at a concrete experiment; the measured values are natural numbers here.
use oneiro_ostis.Prelude.{ℕ, String, ◌≡◌, ◌≢◌, ◌≤◌, ◌↔◌, refl, true, false, [], ◌∷◌, ok, leb}
use oneiro_ostis.Prelude.Text.{is_empty, is_blank, strip, is_space}
use oneiro_ostis.Records.Base.{running}
use oneiro_ostis.Records.Kinds.{
  Experiment, Release, checks_passed, release_check, experiment_check, may_conclude,
  has_enough_repeats,
}
use oneiro_ostis.Dream.Gate.{
  Criteria, Evidence, Stamp, gate, promote, release_of, rollback, open_experiment,
}
use oneiro_ostis.Dream.Gate.Laws.{promote_iff, rollback-promote}
use oneiro_ostis.Tests.Records.{base_of}

abbrev criteria : Criteria ℕ
criteria = record {
  coverage_floor = 90;
  saving_threshold = 10;
  min_repeats = 3;
  max_regressions = 0;
}

abbrev evidence : Evidence ℕ
evidence = record { policy = "windowed"; coverage = 95; saving = 20; repeats = 3; regressions = 0 }

abbrev stamp : Stamp
stamp = record { id = "rel-1"; at = "t1" }

abbrev trial : ℕ → Experiment
trial repeats = record {
  base = record (base_of "rel-1" running) {
    created_at = "t1";
    updated_at = "t1";
    labels = "dream-gate" ∷ [];
  };
  name = "windows";
  hypothesis = "fewer";
  control = "recorded";
  candidate = "windowed";
  seeds = 1 ∷ [];
  repeats = repeats;
  min_repeats = 3;
  frozen_before_run = true;
}

abbrev released : Release
released = release_of stamp (trial 3) (gate leb (trial 3) criteria evidence) "v1"

promote_iff_example :
    ((r : Release) × (promote leb stamp (trial 3) criteria evidence "v1" ≡ ok r)) ↔ (
      (evidence.policy ≡ (trial 3).candidate)
      × ((trial 3).frozen_before_run ≡ true)
      × ((trial 3).min_repeats ≤ (trial 3).repeats)
      × (criteria.min_repeats ≤ evidence.repeats)
      × (leb criteria.coverage_floor evidence.coverage ≡ true)
      × (leb criteria.saving_threshold evidence.saving ≡ true)
      × (evidence.regressions ≤ criteria.max_regressions)
      × (is_blank "v1" ≡ false))
promote_iff_example = promote_iff leb stamp (trial 3) criteria evidence "v1"

promoted : promote leb stamp (trial 3) criteria evidence "v1" ≡ ok released
unfolding promote gate may_conclude has_enough_repeats release_check is_blank strip is_empty
    is_space
promoted = refl

worded : is_blank "worse" ≡ false
unfolding is_blank strip is_empty is_space
worded = refl

rollback-promote_example :
    (checks_passed released ≡ true)
    × (s : Release) × (rollback "t2" "worse" released ≡ ok s)
    × (s.id ≡ released.id)
    × (s.version ≡ released.version)
    × (s.artifact ≡ released.artifact)
    × (s.checks ≡ released.checks)
    × (s.created_at ≡ released.created_at)
    × (s.promoted ≡ false)
    × (s.rolled_back ≡ true)
    × ((later other : String) (x : Release) → rollback later other s ≢ ok x)
rollback-promote_example =
    rollback-promote leb stamp (trial 3) criteria evidence "v1" "t2" "worse" promoted worded

fresh :
    open_experiment stamp "windows" "fewer" "recorded" "windowed" criteria (1 ∷ []) ≡ ok (trial 0)
unfolding open_experiment experiment_check is_blank strip is_empty is_space
fresh = refl
