-- ===== src/Questions.antt =====
-- python/oneiro/questions.py: questions to the owner. An operation takes the log of the owner's
-- memory and returns its answer beside the log that it leaves; the digest of a question is handed in.
pub mod Answered
use Prim.Native.String
use oneiro_ostis.Prelude.{
  ℕ, zero, suc, ◌+◌, String, Bool, true, false, not, ◌&&◌, ◌||◌, Option, none, some, List, [], ◌∷◌,
  Result, ok, err, ◌>>=◌, ◌==◌, string_comparable, contains, leb, if◌then◌else◌, length,
}
use oneiro_ostis.Prelude.Text.{strip, clip, is_blank, is_empty}
use oneiro_ostis.Store.Graph.{Envelope, StoreError}
use oneiro_ostis.Store.Writer.{Publication}
use oneiro_ostis.Records.Base.{
  Base, RecordError, checked, with_state, schema_version, State, waiting, completed, is_state,
  owner_instruction,
}
use oneiro_ostis.Records.Owner.{Question, question_class, with_answer, answered}
use oneiro_ostis.Records.Stored.{Texts, AnyRecord, question}
use oneiro_ostis.Memory.{Row, Rows, publish_record, latest}

-- The reasons of `QuestionError`, and the errors of the layers below.
pub data QuestionError : Type 0 where
  unknown_question already_answered empty_answer : QuestionError
  record_error : RecordError → QuestionError
  store_error : StoreError → QuestionError

unfoldable pub as_question : AnyRecord → Result QuestionError Question
as_question (question q) = ok q
as_question _ = err unknown_question

-- `question_id`, of the digest of the conversation and the stripped text.
unfoldable pub question_id : String → String
question_id digest = String.◌++◌ "ask-" (clip 24 digest)

-- The record that `ask` builds.
unfoldable pub new_question : String → String → String → String → String → Question
unfolding question_id
new_question now digest text conversation_id task_id = record {
  base = record {
    id = question_id digest;
    schema_version = schema_version;
    created_at = now;
    updated_at = now;
    provenance = owner_instruction;
    state = waiting;
    labels = [];
  };
  question = strip text;
  answer = "";
  task_id = task_id;
  conversation_id = conversation_id;
}

-- `current.with_answer(text).with_state(State.COMPLETED)`
unfoldable pub answered_with : String → String → Question → Result RecordError Question
answered_with now text q = with_answer now text q >>= with_state now completed none (λ x. x)

-- `unanswered`, of the rows that one scan serves, newest first: the ones seen so far, and how many
-- were found.
unfoldable pub unanswered_from : ℕ → List String → ℕ → List Question → List Question
unanswered_from limit seen n [] = []
unanswered_from limit seen n (q ∷ qs) = elim (contains seen q.id) [
  | true ↦ unanswered_from limit seen n qs
  | false ↦ elim (is_state q.state waiting && is_empty q.answer) [
    | false ↦ if leb limit n then [] else unanswered_from limit (q.id ∷ seen) n qs
    | true ↦
        if leb limit (suc n) then q ∷ [] else q ∷ unanswered_from limit (q.id ∷ seen) (suc n) qs
  ]
]

unfoldable pub unanswered : ℕ → List Question → List Question
unfolding unanswered_from
unanswered limit rows = unanswered_from limit [] 0 rows

module _ (texts : Texts) where
  unfoldable pub published :
      Rows → Result StoreError (Publication AnyRecord × Rows) → Result QuestionError Row × Rows
  published log (ok (p, log')) = (ok p.envelope, log')
  published log (err e) = (err (store_error e), log)

  unfoldable pub publish_checked :
      Rows → Result RecordError Question → String → ℕ → Result QuestionError Row × Rows
  unfolding published
  publish_checked log (err e) operation expected = (err (record_error e), log)
  publish_checked log (ok q) operation expected =
      published log (publish_record texts log (question q) operation expected)

  unfoldable pub ask_on : Option Row → Question → Rows → Result QuestionError Row × Rows
  unfolding published
  ask_on (some row) q log = (ok row, log)
  ask_on none q log = published log (publish_record texts log (question q) q.id 0)

  unfoldable pub ask_checked : Result RecordError Question → Rows → Result QuestionError Row × Rows
  unfolding ask_on
  ask_checked (err e) log = (err (record_error e), log)
  ask_checked (ok q) log = ask_on (latest "question" q.id log) q log

  -- `ask`
  unfoldable pub ask :
      String → String → String → String → String → Rows → Result QuestionError Row × Rows
  unfolding ask_checked
  ask now digest text conversation_id task_id log =
      ask_checked (checked (new_question now digest text conversation_id task_id)) log

  unfoldable pub answer_on :
      String → String → Row → Result QuestionError Question → Rows → Result QuestionError Row × Rows
  unfolding publish_checked
  answer_on now text row (err e) log = (err e, log)
  answer_on now text row (ok q) log =
      if answered q
      then (err already_answered, log)
      else publish_checked log (answered_with now text q) (String.◌++◌ "answer-" q.id) row.revision

  unfoldable pub answer_found :
      String → String → Option Row → Rows → Result QuestionError Row × Rows
  unfolding answer_on
  answer_found now text none log = (err unknown_question, log)
  answer_found now text (some row) log = answer_on now text row (as_question row.content) log

  -- `answer`
  unfoldable pub answer : String → String → String → Rows → Result QuestionError Row × Rows
  unfolding answer_found
  answer now id text log =
      if is_blank text
      then (err empty_answer, log)
      else answer_found now text (latest "question" id log) log
