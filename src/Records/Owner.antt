-- ===== src/Records/Owner.antt =====
-- python/oneiro/records.py: the subclasses that carry the owner's own word - a fact, a question,
-- an approval, a schedule - with the checks of their constructors and their methods.
use oneiro_ostis.Prelude.{
  string_comparable, String, refl, Bool, not, ◌&&◌, ◌||◌, Result, err, require, ◌==◌, if◌then◌else◌,
}
use oneiro_ostis.Prelude.Text.{is_blank, is_empty, strip}
use oneiro_ostis.Records.Base.{
  Base, RecordClass, RecordError, required, empty_answer, already_answered, already_consumed,
  is_owner, checked, touch,
}

pub record CuratedFact : Type 0 where
  pub base : Base
  pub open base use *
  pub text : String

unfoldable pub fact_check : CuratedFact → Result RecordError (Unit {0})
fact_check f = require (not (is_blank f.text)) (required "fact text")

instance abbrev pub fact_class : RecordClass CuratedFact
fact_class = record {
  base = λ r. r.base;
  set_base = λ r b. record r { base = b };
  post_init = fact_check;
  base-set_base = λ r b. refl;
}

pub record Question : Type 0 where
  pub base : Base
  pub open base use *
  pub question : String
  pub answer : String
  pub task_id : String
  pub conversation_id : String

unfoldable pub question_check : Question → Result RecordError (Unit {0})
question_check q = require (not (is_blank q.question)) (required "question text")

instance abbrev pub question_class : RecordClass Question
question_class = record {
  base = λ r. r.base;
  set_base = λ r b. record r { base = b };
  post_init = question_check;
  base-set_base = λ r b. refl;
}

unfoldable pub answered : Question → Bool
answered q = not (is_blank q.answer)

unfoldable pub with_answer : String → String → Question → Result RecordError Question
with_answer now answer q =
    if is_blank answer
    then err empty_answer
    else if answered q
    then err already_answered
    else checked (touch now (λ x. record x { answer = strip answer }) q)

pub record Approval : Type 0 where
  pub base : Base
  pub open base use *
  pub action_id : String
  pub tool : String
  pub arguments_digest : String
  pub granted : Bool
  pub reason : String
  pub task_id : String
  pub consumed_action_id : String

unfoldable pub approval_check : Approval → Result RecordError (Unit {0})
approval_check a =
    require (not (is_blank a.action_id || is_blank a.tool)) (required "action_id and tool")

instance abbrev pub approval_class : RecordClass Approval
approval_class = record {
  base = λ r. r.base;
  set_base = λ r b. record r { base = b };
  post_init = approval_check;
  base-set_base = λ r b. refl;
}

unfoldable pub available : Approval → Bool
available a = a.granted && is_empty a.consumed_action_id && is_owner a.provenance

unfoldable pub covers : String → String → Approval → Bool
covers tool digest a = available a && a.tool == tool && a.arguments_digest == digest

unfoldable pub consumed_by : String → String → Approval → Result RecordError Approval
consumed_by now action_id a =
    if is_blank action_id
    then err (required "action_id")
    else if not (is_empty a.consumed_action_id)
    then err already_consumed
    else checked (touch now (λ x. record x { consumed_action_id = action_id }) a)

pub record Schedule : Type 0 where
  pub base : Base
  pub open base use *
  pub cron : String
  pub task_title : String
  pub task_detail : String
  pub role : String
  pub enabled : Bool
  pub last_fired_at : String
  pub last_task_id : String

unfoldable pub schedule_check : Schedule → Result RecordError (Unit {0})
schedule_check s =
    require (not (is_blank s.cron || is_blank s.task_title)) (required "cron and task_title")

instance abbrev pub schedule_class : RecordClass Schedule
schedule_class = record {
  base = λ r. r.base;
  set_base = λ r b. record r { base = b };
  post_init = schedule_check;
  base-set_base = λ r b. refl;
}
