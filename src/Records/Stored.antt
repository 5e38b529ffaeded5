-- ===== src/Records/Stored.antt =====
-- python/oneiro/records.py: the records of every kind together, as the store and the reads meet
-- them. (`Experience` carries a float and is left out.)
use mathlib.Core.Bool.{Bool-discrete, false≢true}
use mathlib.Core.Logic.{dite, ite, if_pos, if_neg}
use native.Mathlib.Decide.{ℕ_discrete}
use text.Mathlib.Text.{◌==◌ as str_eq}
use oneiro_ostis.Prelude.{
  String, ◌≡◌, ◌↔◌, Bool, true, false, ◌&&◌, eq_iff, nat_beq, Result, ok, err,
}
use oneiro_ostis.Records.Base.{Base, RecordError, schema_version}
use oneiro_ostis.Records.Kinds.{
  ConversationMessage, Task, Run, Action, Decision, Note, Experiment, Release, message_check,
  task_check, run_check, action_check, decision_check, note_check, experiment_check, release_check,
}
use oneiro_ostis.Records.Owner.{
  CuratedFact, Question, Approval, Schedule, fact_check, question_check, approval_check,
  schedule_check,
}
use oneiro_ostis.Store.Graph.{Content, Head, is_name}

pub data AnyRecord : Type 0 where
  plain : Base → AnyRecord
  message : ConversationMessage → AnyRecord
  task : Task → AnyRecord
  run : Run → AnyRecord
  action : Action → AnyRecord
  decision : Decision → AnyRecord
  note : Note → AnyRecord
  experiment : Experiment → AnyRecord
  release : Release → AnyRecord
  fact : CuratedFact → AnyRecord
  question : Question → AnyRecord
  approval : Approval → AnyRecord
  schedule : Schedule → AnyRecord

pub String-discrete : Discrete String
String-discrete s t =
    dite (Bool-discrete (str_eq s t) true) (λ same. yes ((eq_iff s t).0 same))
      (λ differ. no (λ p. differ ((eq_iff s t).1 p)))

pub AnyRecord-discrete : Discrete AnyRecord
AnyRecord-discrete = hlevel (String-discrete, ℕ_discrete, Bool-discrete)

-- Python's `==` on records, which is what the store compares by their digests.
unfoldable pub same_record : AnyRecord → AnyRecord → Bool
same_record a b = ite (AnyRecord-discrete a b) true false

pub same_record_iff : (a b : AnyRecord) → (same_record a b ≡ true) ↔ (a ≡ b)
unfolding same_record
same_record_iff a b = (
  λ h. elim (AnyRecord-discrete a b) [
    | yes p ↦ p
    | no n ↦ absurd (false≢true (rw (if_neg _ n) at h))
  ],
  λ h. elim (AnyRecord-discrete a b) [ yes p ↦ rw (if_pos _ p) | no n ↦ absurd (n h) ],
)

unfoldable pub any_base : AnyRecord → Base
any_base (plain r) = r
any_base (message r) = r.base
any_base (task r) = r.base
any_base (run r) = r.base
any_base (action r) = r.base
any_base (decision r) = r.base
any_base (note r) = r.base
any_base (experiment r) = r.base
any_base (release r) = r.base
any_base (fact r) = r.base
any_base (question r) = r.base
any_base (approval r) = r.base
any_base (schedule r) = r.base

-- `KIND` of each class.
unfoldable pub kind_name : AnyRecord → String
kind_name (plain r) = "record"
kind_name (message r) = "conversation_message"
kind_name (task r) = "task"
kind_name (run r) = "run"
kind_name (action r) = "action"
kind_name (decision r) = "decision"
kind_name (note r) = "note"
kind_name (experiment r) = "experiment"
kind_name (release r) = "release"
kind_name (fact r) = "curated_fact"
kind_name (question r) = "question"
kind_name (approval r) = "approval"
kind_name (schedule r) = "schedule"

-- The check that the constructor of each class runs, and with it `decode`.
unfoldable pub any_check : AnyRecord → Result RecordError (Unit {0})
any_check (plain r) = ok tt
any_check (message r) = message_check r
any_check (task r) = task_check r
any_check (run r) = run_check r
any_check (action r) = action_check r
any_check (decision r) = decision_check r
any_check (note r) = note_check r
any_check (experiment r) = experiment_check r
any_check (release r) = release_check r
any_check (fact r) = fact_check r
any_check (question r) = question_check r
any_check (approval r) = approval_check r
any_check (schedule r) = schedule_check r

abbrev passes : Result RecordError (Unit {0}) → Bool
passes (ok u) = true
passes (err e) = false

-- `decode` and the checks of `RecordStore._record`. Whether a text is an instant with a zone is
-- `datetime.fromisoformat`'s to say, and is handed in.
unfoldable pub is_sound_record : (String → Bool) → AnyRecord → Bool
unfolding any_base any_check
is_sound_record is_instant r =
    passes (any_check r)
    && nat_beq (any_base r).schema_version schema_version
    && is_name (any_base r).id
    && is_instant (any_base r).created_at
    && is_instant (any_base r).updated_at

-- What the store asks of texts that are not modelled: whether a text is an instant with a zone, and
-- whether the JSON of a record, and of a head with what is pending in it, is within the bound of a
-- link.
pub record Texts : Type 0 where
  pub is_instant : String → Bool
  pub fits : AnyRecord → Bool
  pub head_fits : Head AnyRecord → Bool

-- `decode`, and the identifier's check in `append`.
unfoldable pub is_named_record : AnyRecord → Bool
unfolding any_base any_check
is_named_record r = passes (any_check r) && is_name (any_base r).id

-- Records as the content of the store.
abbrev pub record_content : Texts → Content AnyRecord
record_content texts = record {
  same = record { equal = same_record; equal_iff = same_record_iff };
  id_of = λ r. (any_base r).id;
  kind_of = kind_name;
  created_of = λ r. (any_base r).created_at;
  is_named = is_named_record;
  fits = texts.fits;
  is_sound = is_sound_record texts.is_instant;
  head_fits = texts.head_fits;
}
