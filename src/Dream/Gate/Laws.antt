-- ===== src/Dream/Gate/Laws.antt =====
-- What the gate of python/oneiro/dream/gate.py promises.
use oneiro_ostis.Prelude.{
  ℕ, ◌≤◌, ◌<◌, String, ◌≡◌, ◌≢◌, refl, ◌↔◌, Bool, true, false, List, [], ok, string_comparable,
  eq_iff, arith,
}
use oneiro_ostis.Prelude.Text.{is_blank}
use oneiro_ostis.Records.Kinds.{Experiment, Release, release_check, experiment_check, checks_passed}
use oneiro_ostis.Dream.Gate.{
  Criteria, Evidence, Stamp, gate, promote, release_of, undone, rollback, open_experiment,
}

module _ {Float : Type 0} (le : Float → Float → Bool) where
  -- A candidate is promoted under the criteria that `promote` is called with exactly when the
  -- evidence names it, the experiment was frozen before the run and has its own repeats, the
  -- evidence has the repeats of these criteria, every measured value is within them, and the
  -- version is not blank. Nothing ties these criteria to the ones that the experiment was opened
  -- with.
  pub promote_iff :
      (stamp : Stamp) (e : Experiment) (criteria : Criteria Float) (evidence : Evidence Float)
      (version : String)
      → ((r : Release) × (promote le stamp e criteria evidence version ≡ ok r)) ↔ (
          (evidence.policy ≡ e.candidate)
          × (e.frozen_before_run ≡ true)
          × (e.min_repeats ≤ e.repeats)
          × (criteria.min_repeats ≤ evidence.repeats)
          × (le criteria.coverage_floor evidence.coverage ≡ true)
          × (le criteria.saving_threshold evidence.saving ≡ true)
          × (evidence.regressions ≤ criteria.max_regressions)
          × (is_blank version ≡ false))
  unfolding promote release_check
  promote_iff stamp e criteria evidence version = (
    λ h. let same = eq_iff evidence.policy e.candidate in ground (arith, h.1),
    λ h.
        let same = eq_iff evidence.policy e.candidate in
        (release_of stamp e (gate le e criteria evidence) version, ground arith),
  )

  -- A release that a promotion produced carries checks that all passed and is not rolled back.
  -- It can be rolled back, for any reason that is not blank: the identity, the version, the
  -- artifact, the checks and the time of creation stay as they were, the release is no longer
  -- promoted, and whatever its reason a second rollback is refused.
  pub rollback-promote :
      (stamp : Stamp) (e : Experiment) (criteria : Criteria Float) (evidence : Evidence Float)
      (version now reason : String) {r : Release}
      → promote le stamp e criteria evidence version ≡ ok r
      → is_blank reason ≡ false
      → (checks_passed r ≡ true)
        × (s : Release) × (rollback now reason r ≡ ok s)
        × (s.id ≡ r.id)
        × (s.version ≡ r.version)
        × (s.artifact ≡ r.artifact)
        × (s.checks ≡ r.checks)
        × (s.created_at ≡ r.created_at)
        × (s.promoted ≡ false)
        × (s.rolled_back ≡ true)
        × ((later other : String) (x : Release) → rollback later other s ≢ ok x)
  unfolding promote release_check checks_passed rollback
  rollback-promote stamp e criteria evidence version now reason {r} h worded =
      let made : r ≡ release_of stamp e (gate le e criteria evidence) version = ground arith in
      (
        ground arith,
        undone now reason r,
        ground arith,
        refl,
        refl,
        refl,
        refl,
        refl,
        refl,
        refl,
        λ later other x k. ground arith,
      )

  -- The verdict is its list of reasons: it passes exactly when no check failed.
  pub gate-passed_iff :
      (e : Experiment) (criteria : Criteria Float) (evidence : Evidence Float)
      → ((gate le e criteria evidence).passed ≡ true) ↔ ((gate le e criteria evidence).reasons ≡ [])
  unfolding gate
  gate-passed_iff e criteria evidence = (λ h. ground arith, λ h. ground arith)

-- An experiment that was just opened promotes nothing, whatever the evidence and the criteria it
-- is judged by: with at least one repeat demanded it must be measured first.
pub promote-open_experiment :
    {Float : Type 0} (le : Float → Float → Bool) (stamp other : Stamp)
    (name hypothesis control candidate version : String) (criteria later : Criteria Float)
    (seeds : List ℕ) (evidence : Evidence Float) {e : Experiment}
    → 0 < criteria.min_repeats
    → open_experiment stamp name hypothesis control candidate criteria seeds ≡ ok e
    → (r : Release) → promote le other e later evidence version ≢ ok r
unfolding open_experiment promote experiment_check
promote-open_experiment le stamp other name hypothesis control candidate version criteria later
      seeds evidence pos h r k =
    ground arith
