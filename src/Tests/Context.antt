-- ===== src/Tests/Context.antt =====
-- The context of a reply, a question, a window and a candidate at concrete values.
use oneiro_ostis.Tests.Store.{unbounded}
use oneiro_ostis.Prelude.{
  ℕ, String, ◌≡◌, ◌≤◌, ◌++◌, refl, Bool, true, false, none, some, List, [], ◌∷◌, Result, ok,
}
use oneiro_ostis.Prelude.Text.{chars, is_blank, is_empty, strip, is_space}
use oneiro_ostis.Store.Graph.{StoreError, is_name}
use oneiro_ostis.Store.Spec.{publish}
use oneiro_ostis.Records.Base.{waiting, completed, with_state}
use oneiro_ostis.Records.Kinds.{ConversationMessage}
use oneiro_ostis.Records.Owner.{Question, answered, with_answer, question_check}
use oneiro_ostis.Records.Stored.{is_named_record, question, any_base, kind_name, is_sound_record}
use oneiro_ostis.Recall.{Scan}
use oneiro_ostis.Memory.{Row, latest, publish_record}
use oneiro_ostis.Context.{FactSet, complete, report_of, facts_part, history_part, fitting}
use oneiro_ostis.Context.Honest.{size, report_of-fits, report_of-complete}
use oneiro_ostis.Questions.{as_question, answer, answer_found, answer_on, answered_with, published}
use oneiro_ostis.Questions.Answered.{answer-open}
use oneiro_ostis.Schedule.Text.{partition, is_digits, int}
use oneiro_ostis.Tasks.Quiet.{quiet_window}
use oneiro_ostis.Tests.Records.{base_of}
use oneiro_ostis.Tests.Schedule.{ascii}

abbrev said : String → ConversationMessage
said text = record {
  base = base_of "m" completed;
  conversation_id = "c";
  role = "owner";
  text = text;
  attachments = [];
}

abbrev seen : Bool → Scan ConversationMessage
seen whole = record {
  rows = said "first" ∷ said "second" ∷ [];
  scanned = 2;
  skipped = 0;
  complete = whole;
}

abbrev no_facts : FactSet
no_facts = record {
  facts = [];
  used_chars = 0;
  complete = true;
  skipped = 0;
  limit_chars = 2000;
  history_complete = true;
}

report_of-fits_example :
    (older : List ConversationMessage) × (older
        ++ (report_of 10 6 (ok no_facts) (ok (seen true))).history
      ≡ (seen true).rows)
    × (size (report_of 10 6 (ok no_facts) (ok (seen true))).history ≤ 6)
report_of-fits_example = report_of-fits 10 6 (ok no_facts) (seen true)

says_complete : (report_of 10 600 (ok no_facts) (ok (seen true))).status ≡ complete
unfolding report_of facts_part history_part fitting chars
says_complete = refl

report_of-complete_example :
    (f : FactSet) × (s : Scan ConversationMessage) × (◌≡◌ {A = Result StoreError FactSet}
      (ok no_facts)
      (ok f))
    × (f.complete ≡ true)
    × (f.skipped ≡ 0)
    × (◌≡◌ {A = Result StoreError (Scan ConversationMessage)} (ok (seen true)) (ok s))
    × (s.complete ≡ true)
    × ((report_of 10 600 (ok no_facts) (ok (seen true))).history ≡ s.rows)
    × ((n : ℕ) → (report_of 10 600 (ok no_facts) (ok (record s { skipped = n }))).status ≡ complete)
report_of-complete_example = report_of-complete 10 600 (ok no_facts) (ok (seen true)) says_complete

abbrev asked : Question
asked = record {
  base = base_of "ask-1" waiting;
  question = "when?";
  answer = "";
  task_id = "";
  conversation_id = "";
}

abbrev asked_row : Row
asked_row = record {
  operation = "ask-1";
  sequence = 1;
  revision = 1;
  previous = none;
  previous_revision = none;
  content = question asked;
}

abbrev reply : Row
reply = record {
  operation = "answer-ask-1";
  sequence = 2;
  revision = 2;
  previous = some "ask-1";
  previous_revision = some "ask-1";
  content = question (record asked {
    base = record (base_of "ask-1" completed) { updated_at = "t1" };
    answer = "now";
  });
}

accepted : (answer unbounded "t1" "ask-1" "now" (asked_row ∷ [])).0 ≡ ok reply
unfolding answer answer_found answer_on answered_with published publish_record publish is_name
    is_sound_record is_named_record any_base kind_name latest as_question answered with_answer
    with_state question_check is_blank is_empty strip is_space chars
accepted = refl

answer-open_example :
    (is_blank "now" ≡ false)
    × (row : Row) × (q : Question) × (latest "question" "ask-1" (asked_row ∷ []) ≡ some row)
    × (as_question row.content ≡ ok q)
    × (answered q ≡ false)
answer-open_example = answer-open unbounded "t1" "ask-1" "now" (asked_row ∷ []) accepted

reads_window : quiet_window ascii "22:00-07:00" ≡ some (1320, 420)
unfolding quiet_window partition is_digits int is_empty strip is_space chars
reads_window = refl
