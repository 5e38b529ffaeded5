-- ===== src/Agent/Safe.antt =====
-- When a call of python/oneiro/agent.py may be made again.
use Prim.Native.String.{String}
use oneiro_ostis.Prelude.{
  ◌≡◌, ◌⊎◌, inl, inr, refl, Bool, true, false, not, contains, string_comparable, arith,
}
use oneiro_ostis.Records.Base.{State, uncertain, is_state, EffectOutcome, not_happened}
use oneiro_ostis.Records.Kinds.{action_class}
use oneiro_ostis.Schedule.Text.{partition}
use oneiro_ostis.Tools.Reviewed.{contains-all}
use oneiro_ostis.Tools.Reasons.{reasons}
use oneiro_ostis.Agent.Steps.{Step, is_external, may_retry}
use oneiro_ostis.Agent.ReadBack.{IsLine}
use oneiro_ostis.Agent.Run.{Ran, ended_as}

-- A call that may be repeated changes nothing outside, or is known not to have happened; and one
-- whose effect is unknown changes something outside and may not be repeated.
abbrev pub RetrySafe : Step → Type 0
RetrySafe step =
    ((step.may_retry ≡ false) ⊎ (is_external step.effect ≡ false) ⊎ (step.outcome ≡ not_happened))
    × ((is_state step.state uncertain ≡ false)
        ⊎ ((is_external step.effect ≡ true) × (step.may_retry ≡ false)))

pub may_retry_cases :
    (effect : String) (outcome : EffectOutcome) (state : State)
    → (may_retry effect outcome state ≡ false)
      ⊎ (is_external effect ≡ false)
      ⊎ (outcome ≡ not_happened)
unfolding may_retry
may_retry_cases effect outcome state = ground arith

pub may_retry-uncertain :
    (effect : String) (outcome : EffectOutcome) (state : State)
    → is_state state uncertain ≡ true
    → may_retry effect outcome state ≡ false
unfolding may_retry
may_retry-uncertain effect outcome state h = rw h refl

-- Only a call that changes something outside can end with an unknown effect.
pub ended_as-uncertain :
    (limit : String) (external : Bool) (ran : Ran)
    → (is_state (ended_as limit external ran).state uncertain ≡ false) ⊎ (external ≡ true)
unfolding ended_as
ended_as-uncertain limit true ran = inr refl
ended_as-uncertain limit false (Ran.returned v) = inl refl
ended_as-uncertain limit false Ran.timed_out = inl refl
ended_as-uncertain limit false (Ran.tool_error m u) = inl refl
ended_as-uncertain limit false (Ran.value_error m) = inl refl
ended_as-uncertain limit false (Ran.raised m) = inl refl

pub IsLine-reason : (reason : String) → contains reasons reason ≡ true → IsLine reason
unfolding partition
IsLine-reason reason h =
    let line = contains-all (λ r. not (partition "\n" r).0) reasons reason refl h in ground arith
