-- ===== src/Memory/Published.antt =====
-- What a publication answers and leaves, `append` of python/oneiro/store.py for a record.
use mathlib.Core.Path.{subst}
use mathlib.Core.Bool.{false≢true}
use oneiro_ostis.Prelude.{
  ℕ, String, ◌≡◌, refl, Bool, true, false, not, Option, none, some, List, Result, ok, err, inl, inr,
  Bool-cases, nat_beq, if◌then◌else◌, first_where, ◌==◌, string_comparable, equal_refl, [], ◌∷◌,
  sym, ap, ◌∙◌,
}
use oneiro_ostis.Store.Graph.{Envelope, Content, StoreError, is_name}
use oneiro_ostis.Store.Writer.{Publication, pending_head}
use oneiro_ostis.Store.Spec.{
  publish, publish_found, publish_known, head_of, find_id, find_op, envelope_for, keeps_identity,
  revision_of,
}
use oneiro_ostis.Records.Stored.{Texts, AnyRecord, any_base, record_content}
use oneiro_ostis.Memory.{Rows, publish_record, memory_entity, content_of_row}

module _ {R : Type 0} ⦃c : Content R⦄ where
  -- The answer holds the record, and the log that is left holds it under the operation.
  abbrev pub Answers : R → String → Result StoreError (Publication R × List (Envelope R)) → Type 0
  Answers r op (err e) = Unit
  Answers r op (ok (p, log)) = (p.envelope.content ≡ r) × (find_op op log ≡ some p.envelope)

  if-Answers :
      (b : Bool) (r : R) (op : String) (e : StoreError)
      (rest : Result StoreError (Publication R × List (Envelope R)))
      → Answers r op rest
      → Answers r op (if b then err e else rest)
  if-Answers true r op e rest h = tt
  if-Answers false r op e rest h = h

  known-Answers :
      (log : List (Envelope R)) (r : R) (op : String) (old : Envelope R)
      → find_op op log ≡ some old
      → Answers r op (publish_known log r old)
  known-Answers log r op old h = elim (Bool-cases (c.same.equal old.content r)) [
    | inl e ↦ rw e ((c.same.equal_iff old.content r).0 e, h)
    | inr e ↦ rw e tt
  ]

  found-Answers :
      (log : List (Envelope R)) (r : R) (op : String) (expected : ℕ) (o : Option (Envelope R))
      → find_op op log ≡ o
      → Answers r op (publish_found log r op expected o)
  found-Answers log r op expected (some old) h = known-Answers log r op old h
  found-Answers log r op expected none h =
      if-Answers (not (nat_beq (revision_of (find_id (c.id_of r) log)) expected)) r op _ _ (
        if-Answers (not (keeps_identity r (find_id (c.id_of r) log))) r op _ _ (
          if-Answers (not (c.head_fits (pending_head (head_of log) (envelope_for log r op)))) r op _
            _ (refl, rw (equal_refl op) refl)))

  pub publish-Answers :
      (log : List (Envelope R)) (r : R) (op : String) (expected : ℕ)
      → Answers r op (publish log r op expected)
  unfolding publish
  publish-Answers log r op expected = if-Answers (not (is_name op)) r op _ _ (
      if-Answers (not (c.is_named r)) r op _ _ (
        if-Answers (not (c.fits r)) r op _ _ (
          if-Answers (not (c.is_sound r)) r op _ _
            (found-Answers log r op expected (find_op op log) refl))))

module _ (texts : Texts) where
  pub publish_record-content :
      (log : Rows) (r : AnyRecord) (op : String) (expected : ℕ) {p : Publication AnyRecord}
      {log' : Rows}
      → publish_record texts log r op expected ≡ ok (p, log')
      → (p.envelope.content ≡ r) × (find_op op log' ≡ some p.envelope)
  unfolding publish_record
  publish_record-content log r op expected {p} {log'} h =
      subst (Answers ⦃c = record_content texts⦄ r op) h
        (publish-Answers ⦃c = record_content texts⦄ log r op expected)

-- A search that finds something finds something also by another test that this passes.
first_where-other :
    {A : Type 0} (p q : A → Bool) (xs : List A) {x : A}
    → first_where p xs ≡ some x
    → q x ≡ true
    → (y : A) × (first_where q xs ≡ some y)
first_where-other p q [] h k = cc
first_where-other p q (a ∷ xs) {x} h k = elim (Bool-cases (q a)) [
  | inl e ↦ (a, rw e refl)
  | inr e ↦ elim (Bool-cases (p a)) [
    | inl e' ↦
        let same : some a ≡ some x = rw e' at h in
        let e'' : a ≡ x = cc in absurd (false≢true (sym e ∙ ap q e'' ∙ k))
    | inr e' ↦ let (y, found) = first_where-other p q xs (rw e' at h) k in (y, rw e found)
  ]
]

module _ {R : Type 0} ⦃c : Content R⦄ where
  -- The record has a revision in the log that is left.
  abbrev Stores : R → Result StoreError (Publication R × List (Envelope R)) → Type 0
  Stores r (err e) = Unit
  Stores r (ok (p, log)) = (e : Envelope R) × (find_id (c.id_of r) log ≡ some e)

  if-Stores :
      (b : Bool) (r : R) (e : StoreError)
      (rest : Result StoreError (Publication R × List (Envelope R)))
      → Stores r rest
      → Stores r (if b then err e else rest)
  if-Stores true r e rest h = tt
  if-Stores false r e rest h = h

  known-Stores :
      (log : List (Envelope R)) (r : R) (op : String) (old : Envelope R)
      → find_op op log ≡ some old
      → Stores r (publish_known log r old)
  known-Stores log r op old h = elim (Bool-cases (c.same.equal old.content r)) [
    | inl e ↦
        let there =
          first_where-other (λ (x : Envelope R). x.operation == op)
            (λ (x : Envelope R). c.id_of x.content == c.id_of r) log h
            (ap (λ z. c.id_of z == c.id_of r) ((c.same.equal_iff old.content r).0 e)
              ∙ equal_refl (c.id_of r)) in
        rw e there
    | inr e ↦ rw e tt
  ]

  found-Stores :
      (log : List (Envelope R)) (r : R) (op : String) (expected : ℕ) (o : Option (Envelope R))
      → find_op op log ≡ o
      → Stores r (publish_found log r op expected o)
  found-Stores log r op expected (some old) h = known-Stores log r op old h
  found-Stores log r op expected none h =
      if-Stores (not (nat_beq (revision_of (find_id (c.id_of r) log)) expected)) r _ _ (
        if-Stores (not (keeps_identity r (find_id (c.id_of r) log))) r _ _ (
          if-Stores (not (c.head_fits (pending_head (head_of log) (envelope_for log r op)))) r _ _
            (envelope_for log r op, rw (equal_refl (c.id_of r)) refl)))

  publish-Stores :
      (log : List (Envelope R)) (r : R) (op : String) (expected : ℕ)
      → Stores r (publish log r op expected)
  unfolding publish
  publish-Stores log r op expected = if-Stores (not (is_name op)) r _ _ (
      if-Stores (not (c.is_named r)) r _ _ (
        if-Stores (not (c.fits r)) r _ _ (
          if-Stores (not (c.is_sound r)) r _ _
            (found-Stores log r op expected (find_op op log) refl))))

module _ (texts : Texts) where
  -- A record that was published has a revision in the log.
  pub publish_record-stored :
      (log : Rows) (r : AnyRecord) (op : String) (expected : ℕ) {p : Publication AnyRecord}
      {log' : Rows}
      → publish_record texts log r op expected ≡ ok (p, log')
      → (s : AnyRecord) × (memory_entity (any_base r).id log' ≡ some s)
  unfolding publish_record memory_entity content_of_row
  publish_record-stored log r op expected {p} {log'} h =
      let (e, found) =
        subst (Stores ⦃c = record_content texts⦄ r) h
          (publish-Stores ⦃c = record_content texts⦄ log r op expected) in
      (e.content, rw found refl)
