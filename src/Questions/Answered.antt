-- ===== src/Questions/Answered.antt =====
-- An answer is given once.
use oneiro_ostis.Records.Stored.{Texts}
use oneiro_ostis.Prelude.{
  String, ◌≡◌, ◌≢◌, refl, false, Option, none, some, Result, ok, err, inl, inr, Bool-cases, arith,
}
use oneiro_ostis.Prelude.Text.{is_blank}
use oneiro_ostis.Records.Owner.{Question, answered}
use oneiro_ostis.Memory.{Row, Rows, latest}
use oneiro_ostis.Questions.{
  QuestionError, as_question, answer, answer_found, answer_on, empty_answer, already_answered,
}

module _ (texts : Texts) where
  on-answered :
      (now text : String) (row : Row) (r : Result QuestionError Question) (log : Rows) {x : Row}
      → (answer_on texts now text row r log).0 ≡ ok x
      → (q : Question) × (r ≡ ok q) × (answered q ≡ false)
  unfolding answer_on
  on-answered now text row (err e) log h = ground arith
  on-answered now text row (ok q) log h = elim (Bool-cases (answered q)) [
    | inl e ↦ absurd (refused (rw e at h))
    | inr e ↦ (q, refl, e)
  ]
    where
      refused : {x : Row} → ◌≢◌ {A = Result QuestionError Row} (err already_answered) (ok x)
      refused k = ground arith

  found-answered :
      (now text : String) (o : Option Row) (log : Rows) {x : Row}
      → (answer_found texts now text o log).0 ≡ ok x
      → (row : Row) × (q : Question) × (o ≡ some row)
        × (as_question row.content ≡ ok q)
        × (answered q ≡ false)
  unfolding answer_found
  found-answered now text none log h = ground arith
  found-answered now text (some row) log h =
      let (q, e, open_) = on-answered now text row (as_question row.content) log h in
      (row, q, refl, e, open_)

  -- An answer that is accepted is not blank, and it answers a stored question whose newest revision
  -- has no answer yet.
  pub answer-open :
      (now id text : String) (log : Rows) {x : Row}
      → (answer texts now id text log).0 ≡ ok x
      → (is_blank text ≡ false)
        × (row : Row) × (q : Question) × (latest "question" id log ≡ some row)
        × (as_question row.content ≡ ok q)
        × (answered q ≡ false)
  unfolding answer
  answer-open now id text log h = elim (Bool-cases (is_blank text)) [
    | inl e ↦ absurd (refused (rw e at h))
    | inr e ↦
        let (row, q, there, is_one, open_) =
          found-answered now text (latest "question" id log) log (rw e at h) in
        (e, row, q, there, is_one, open_)
  ]
    where
      refused : {x : Row} → ◌≢◌ {A = Result QuestionError Row} (err empty_answer) (ok x)
      refused k = ground arith
