-- ===== src/Records/Base.antt =====
-- python/oneiro/records.py: the enumerations, the fields that every record has, and `with_state`.
use oneiro_ostis.Prelude.{
  ℕ, String, ◌≡◌, ◌↔◌, arith, Bool, true, false, not, ◌&&◌, Option, none, some, List, Result, ok,
  err, ◌>>◌, if◌then◌else◌,
}

-- `SCHEMA_VERSION`
abbrev pub schema_version : ℕ
schema_version = 1

pub data Provenance : Type 0 where
  owner_instruction model_claim observation verified_tool_outcome system : Provenance

abbrev pub is_verified : Provenance → Bool
is_verified observation = true
is_verified verified_tool_outcome = true
is_verified _ = false

abbrev pub is_owner : Provenance → Bool
is_owner owner_instruction = true
is_owner _ = false

pub data State : Type 0 where
  queued running waiting completed failed cancelled interrupted uncertain : State

abbrev pub is_terminal : State → Bool
is_terminal completed = true
is_terminal failed = true
is_terminal cancelled = true
is_terminal _ = false

abbrev pub is_open : State → Bool
is_open queued = true
is_open running = true
is_open waiting = true
is_open uncertain = true
is_open _ = false

-- `a is b` on states
abbrev pub is_state : State → State → Bool
is_state queued queued = true
is_state running running = true
is_state waiting waiting = true
is_state completed completed = true
is_state failed failed = true
is_state cancelled cancelled = true
is_state interrupted interrupted = true
is_state uncertain uncertain = true
is_state _ _ = false

pub is_state_iff : (a b : State) → (is_state a b ≡ true) ↔ (a ≡ b)
is_state_iff a b = ground arith

-- What is known about a change outside the process. `nothing` is the source's `NONE`.
pub data EffectOutcome : Type 0 where
  nothing happened not_happened unknown : EffectOutcome

abbrev pub permits_blind_retry : EffectOutcome → Bool
permits_blind_retry not_happened = true
permits_blind_retry _ = false

-- The fields of `Record`.
pub record Base : Type 0 where
  pub id : String
  pub schema_version : ℕ
  pub created_at : String
  pub updated_at : String
  pub provenance : Provenance
  pub state : State
  pub labels : List String

-- Why a record cannot exist, one constructor to a `raise RecordError` (or the `TypeError` of a
-- constructor that is handed a keyword it does not have).
pub data RecordError : Type 0 where
  is_finished : State → State → RecordError
  required : String → RecordError
  unknown_decision : String → RecordError
  attempt_zero : RecordError
  uncounted : RecordError
  empty_answer : RecordError
  already_answered : RecordError
  already_consumed : RecordError
  type_error : RecordError

-- What `with_state` and `replace` need of a subclass of `Record`: its inherited fields, and the
-- check that its constructor runs.
pub record RecordClass (R : Type 0) : Type 0 where
  pub base : R → Base
  pub set_base : R → Base → R
  pub post_init : R → Result RecordError (Unit {0})
  pub base-set_base : (r : R) (b : Base) → base (set_base r b) ≡ b

-- `changes.get("allow_reopen")`
abbrev pub reopens : Option Bool → Bool
reopens none = false
reopens (some b) = b

module _ {R : Type 0} ⦃c : RecordClass R⦄ where
  -- `dataclasses.replace` builds a new object, so the check runs again.
  abbrev pub checked : R → Result RecordError R
  checked r = c.post_init r >> ok r

  -- `replace(self, updated_at=now(), **changes)`
  abbrev pub touch : String → (R → R) → R → R
  touch now changes r =
      let changed = changes r in c.set_base changed (record (c.base changed) { updated_at = now })

  -- `replace(self, state=state, updated_at=now(), **changes)`
  abbrev pub move : String → State → (R → R) → R → R
  move now target changes r =
      let changed = changes r in
      c.set_base changed (record (c.base changed) { state = target; updated_at = now })

  -- `with_state`. `reopen` is the keyword `allow_reopen`, when it is given; with the state
  -- unchanged it is handed on to the constructor, which has no such field.
  unfoldable pub with_state : String → State → Option Bool → (R → R) → R → Result RecordError R
  with_state now target reopen changes r =
      if is_state target (c.base r).state
      then (elim reopen [ none ↦ checked (touch now changes r) | some _ ↦ err type_error ])
      else (if is_terminal (c.base r).state && not (reopens reopen)
          then err (is_finished (c.base r).state target)
          else checked (move now target changes r))
