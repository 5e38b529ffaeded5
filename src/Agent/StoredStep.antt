-- ===== src/Agent/StoredStep.antt =====
-- A call of python/oneiro/agent.py as it is read back from the record of its action.
use Prim.Native.String.{String, [], ◌∷◌, ◌++◌}
use mathlib.Core.List.{map}
use oneiro_ostis.Prelude.{
  ℕ, Bool, false, ◌&&◌, Option, none, some, List, ◌==◌, string_comparable, leb, take, keep_if,
  first_of_each, if◌then◌else◌,
}
use oneiro_ostis.Prelude.Text.{or_else, is_empty, numeral}
use oneiro_ostis.Records.Stored.{action}
use oneiro_ostis.Memory.{Rows}
use oneiro_ostis.Recall.{max_scanned}
use oneiro_ostis.Tools.Paths.{starts_with}
use oneiro_ostis.Records.Base.{completed, is_state}
use oneiro_ostis.Records.Kinds.{Action}
use oneiro_ostis.Schedule.Text.{Unicode, one, partition, int}
use oneiro_ostis.Agent.Steps.{Step, may_retry}

-- The text behind the first colon with a blank, if there is one.
unfoldable pub behind_colon : String → Option String
behind_colon [] = none
behind_colon (c ∷ []) = none
behind_colon (c ∷ (d ∷ s)) =
    let rest = behind_colon (d ∷ s) in if one c == ":" && one d == " " then some s else rest

-- `stored.split(": ", 1)[-1]`
unfoldable pub last_part : String → Option String → String
last_part stored none = stored
last_part stored (some rest) = rest

-- `_stored_parts`: the reason and the output.
unfoldable pub stored_parts : String → String → String × String
unfolding partition last_part behind_colon
stored_parts decision stored =
    let (newline, reason, result) = partition "\n" stored in
    if decision == "allow"
    then (reason, if newline then result else "")
    else (last_part stored (behind_colon stored), stored)

-- The step of a stored action, of its decision and of its two stored parts.
unfoldable pub step_from : ℕ → Action → String → String × String → Step
unfolding may_retry
step_from index a decision (reason, result) = record {
  index = index;
  tool = a.tool;
  arguments = a.arguments;
  decision = decision;
  reason = reason;
  succeeded = decision == "allow" && is_state a.state completed;
  result = result;
  action_id = a.id;
  state = a.state;
  effect = a.effect.kind;
  outcome = a.effect.outcome;
  may_retry = decision == "allow" && may_retry a.effect.kind a.effect.outcome a.state;
}

-- `step_index`: the number in the first label that carries one. A label whose text `int` does not
-- read carries none.
unfoldable pub step_index : Unicode → List String → Option ℕ
unfolding starts_with partition
step_index u List.[] = none
step_index u (List.◌∷◌ label labels) =
    let rest = step_index u labels in
    if starts_with "step:" label then int u (partition ":" label).2 else rest

unfoldable pub or_zero : Option ℕ → ℕ
or_zero none = 0
or_zero (some n) = n

-- The number of a step by its labels.
abbrev pub number_in : Unicode → List String → ℕ
unfolding step_index or_zero
number_in u labels = or_zero (step_index u labels)

-- The step that `turn_steps_for` reads back from a row of the turn, by what numbers it.
unfoldable pub stored_with : (List String → ℕ) → Action → Step
unfolding stored_parts step_from or_else
stored_with number a =
    let decision = or_else a.decision "allow" in
    step_from (number a.labels) a decision (stored_parts decision a.result)

unfoldable pub stored_step : Unicode → Action → Step
unfolding stored_with
stored_step u a = stored_with (number_in u) a

-- `reply_of` for one reply. An older refusal has no run, and is known by the numbered identifier of
-- its action; the text behind the last dash of that is the number, which has no dash.
unfoldable pub is_numbered : String → String → Option ℕ → Bool
is_numbered reply_id identity none = false
is_numbered reply_id identity (some number) =
    leb 1 number && identity == "act-" ++ (reply_id ++ ("-" ++ numeral number))

unfoldable pub is_step_of : Unicode → String → Action → Bool
unfolding step_index is_numbered
is_step_of u reply_id a =
    if is_empty a.run_id
    then is_numbered reply_id a.id (step_index u a.labels)
    else a.run_id == reply_id

unfoldable pub actions_in : Rows → List Action
actions_in List.[] = List.[]
actions_in (List.◌∷◌ e rows) =
    let rest = actions_in rows in elim e.content [ action a ↦ List.◌∷◌ a rest | _ ↦ rest ]

-- `rows.sort(key=lambda step: step["index"])`, which keeps the order of equal keys
unfoldable pub insert : Step → List Step → List Step
insert step List.[] = List.◌∷◌ step List.[]
insert step (List.◌∷◌ other steps) =
    let rest = insert step steps in
    if leb step.index other.index then List.◌∷◌ step (List.◌∷◌ other steps) else List.◌∷◌ other rest

unfoldable pub sorted : List Step → List Step
unfolding insert
sorted List.[] = List.[]
sorted (List.◌∷◌ step steps) = insert step (sorted steps)

-- `turn_steps`, which is `turn_steps_for` of one reply, over the rows that one scan serves.
unfoldable pub turn_steps : Unicode → String → Rows → List Step
unfolding actions_in is_step_of stored_step sorted
turn_steps u reply_id log = sorted (
    map (stored_step u) (
      first_of_each (λ (a : Action). a.id) List.[]
        (keep_if (is_step_of u reply_id) (actions_in (take max_scanned log)))))
