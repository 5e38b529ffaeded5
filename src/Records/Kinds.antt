-- ===== src/Records/Kinds.antt =====
-- python/oneiro/records.py: the subclasses of `Record`, each with the check of its constructor
-- and its own methods. A field `arguments` or `checks` that holds a dictionary is an association
-- list.
use oneiro_ostis.Prelude.{
  string_comparable, ℕ, String, refl, Bool, true, false, not, ◌&&◌, ◌||◌, List, [], ◌∷◌, Result,
  err, ◌>>◌, require, leb, ltb, contains, all, if◌then◌else◌,
}
use oneiro_ostis.Prelude.Json.{Json}
use oneiro_ostis.Prelude.Text.{is_blank, is_empty}
use oneiro_ostis.Records.Base.{
  Base, RecordClass, RecordError, EffectOutcome, unknown, permits_blind_retry, required,
  unknown_decision, attempt_zero, uncounted, is_verified, checked, touch,
}

pub record ConversationMessage : Type 0 where
  pub base : Base
  pub open base use *
  pub conversation_id : String
  pub role : String
  pub text : String
  pub attachments : List String

abbrev pub no_items {ℓ} : {A : Type ℓ} → List A → Bool
no_items [] = true
no_items (x ∷ xs) = false

unfoldable pub message_check : ConversationMessage → Result RecordError (Unit {0})
message_check m = do
  require (not (is_empty m.conversation_id)) (required "conversation_id")
  require (not (is_empty m.role)) (required "role")
  require (not (is_blank m.text && no_items m.attachments)) (required "text or attachments")

instance abbrev pub message_class : RecordClass ConversationMessage
message_class = record {
  base = λ r. r.base;
  set_base = λ r b. record r { base = b };
  post_init = message_check;
  base-set_base = λ r b. refl;
}

pub record Task : Type 0 where
  pub base : Base
  pub open base use *
  pub title : String
  pub detail : String
  pub assigned_role : String
  pub parent_id : String
  pub blocked_by : List String

unfoldable pub task_check : Task → Result RecordError (Unit {0})
task_check t = require (not (is_blank t.title)) (required "title")

instance abbrev pub task_class : RecordClass Task
task_class = record {
  base = λ r. r.base;
  set_base = λ r b. record r { base = b };
  post_init = task_check;
  base-set_base = λ r b. refl;
}

pub record Run : Type 0 where
  pub base : Base
  pub open base use *
  pub task_id : String
  pub role : String
  pub attempt : ℕ
  pub notes : String

unfoldable pub run_check : Run → Result RecordError (Unit {0})
run_check r = do
  require (not (is_empty r.task_id)) (required "task_id")
  require (leb 1 r.attempt) attempt_zero

instance abbrev pub run_class : RecordClass Run
run_class = record {
  base = λ r. r.base;
  set_base = λ r b. record r { base = b };
  post_init = run_check;
  base-set_base = λ r b. refl;
}

pub record Effect : Type 0 where
  pub kind : String
  pub target : String
  pub outcome : EffectOutcome
  pub observed_at : String

pub record Action : Type 0 where
  pub base : Base
  pub open base use *
  pub run_id : String
  pub tool : String
  pub arguments : List (String × Json)
  pub effect : Effect
  pub result : String
  pub decision : String

unfoldable pub action_check : Action → Result RecordError (Unit {0})
action_check a = do
  require (not (is_blank a.tool)) (required "tool")
  require (is_empty a.decision || contains ("allow" ∷ "deny" ∷ "ask" ∷ []) a.decision)
      (unknown_decision a.decision)

unfoldable pub may_retry : Action → Bool
may_retry a = permits_blind_retry a.effect.outcome

abbrev is_unknown : EffectOutcome → Bool
is_unknown unknown = true
is_unknown _ = false

unfoldable pub requires_inspection : Action → Bool
requires_inspection a = is_unknown a.effect.outcome

instance abbrev pub action_class : RecordClass Action
action_class = record {
  base = λ r. r.base;
  set_base = λ r b. record r { base = b };
  post_init = action_check;
  base-set_base = λ r b. refl;
}

pub record Decision : Type 0 where
  pub base : Base
  pub open base use *
  pub question : String
  pub chosen : String
  pub alternatives : List String
  pub rationale : String
  pub task_id : String

unfoldable pub decision_check : Decision → Result RecordError (Unit {0})
decision_check d =
    require (not (is_blank d.question || is_blank d.chosen)) (required "question and chosen")

pub record Note : Type 0 where
  pub base : Base
  pub open base use *
  pub topic : String
  pub body : String
  pub sources : List String
  pub task_id : String

unfoldable pub note_check : Note → Result RecordError (Unit {0})
note_check n = require (not (is_blank n.topic || is_blank n.body)) (required "topic and body")

unfoldable pub is_citable : Note → Bool
is_citable n = is_verified n.provenance

pub record Experiment : Type 0 where
  pub base : Base
  pub open base use *
  pub name : String
  pub hypothesis : String
  pub control : String
  pub candidate : String
  pub seeds : List ℕ
  pub repeats : ℕ
  pub min_repeats : ℕ
  pub frozen_before_run : Bool

unfoldable pub experiment_check : Experiment → Result RecordError (Unit {0})
experiment_check e =
    require (not (is_blank e.name || is_blank e.hypothesis)) (required "name and hypothesis")

instance abbrev pub experiment_class : RecordClass Experiment
experiment_class = record {
  base = λ r. r.base;
  set_base = λ r b. record r { base = b };
  post_init = experiment_check;
  base-set_base = λ r b. refl;
}

unfoldable pub has_enough_repeats : Experiment → Bool
has_enough_repeats e = leb e.min_repeats e.repeats

unfoldable pub with_repeats : String → ℕ → Experiment → Result RecordError Experiment
with_repeats now repeats e =
    if ltb repeats e.repeats
    then err uncounted
    else checked (touch now (λ x. record x { repeats = repeats }) e)

unfoldable pub may_conclude : Experiment → Bool
unfolding has_enough_repeats
may_conclude e = e.frozen_before_run && has_enough_repeats e

pub record Release : Type 0 where
  pub base : Base
  pub open base use *
  pub version : String
  pub artifact : String
  pub checks : List (String × Bool)
  pub promoted : Bool
  pub rolled_back : Bool

unfoldable pub release_check : Release → Result RecordError (Unit {0})
release_check r = require (not (is_blank r.version)) (required "version")

instance abbrev pub release_class : RecordClass Release
release_class = record {
  base = λ r. r.base;
  set_base = λ r b. record r { base = b };
  post_init = release_check;
  base-set_base = λ r b. refl;
}

unfoldable pub checks_passed : Release → Bool
checks_passed r = not (no_items r.checks) && all (λ (c : String × Bool). c.1) r.checks
