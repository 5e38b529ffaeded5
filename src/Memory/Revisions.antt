-- ===== src/Memory/Revisions.antt =====
-- What a publication does to the newest revision of each record.
use mathlib.Core.Option.{none-ne-some, some-injective}
use oneiro_ostis.Prelude.{
  ℕ, zero, suc, String, ◌≡◌, sym, ap, ◌∙◌, Bool, true, false, ◌&&◌, Option, none, some, List, [],
  ◌∷◌, ok, ◌⊎◌, inl, inr, ◌==◌, string_comparable, take, first_where, Bool-cases, if◌then◌else◌,
  arith, and_parts,
}
use oneiro_ostis.Store.Graph.{Envelope, Content}
use oneiro_ostis.Store.Writer.{Publication}
use oneiro_ostis.Store.Spec.{publish, publish_found, find_id, find_op, envelope_for, revision_of}
use oneiro_ostis.Records.Stored.{Texts, AnyRecord, any_base, kind_name, record_content}
use oneiro_ostis.Recall.{max_scanned}
use oneiro_ostis.Memory.{Row, Rows, publish_record, latest}

-- The newest revision of a record, wherever in the log it stands.
abbrev pub newest_row : String → Rows → Option Row
newest_row id log = first_where (λ (e : Row). (any_base e.content).id == id) log

module _ {R : Type 0} ⦃c : Content R⦄ where
  -- What a publication makes of the log: nothing, or one revision more of the record, after the
  -- revision that was expected.
  abbrev pub Grows : List (Envelope R) → R → String → ℕ → List (Envelope R) → Type 0
  Grows log r operation expected log' =
      (log' ≡ log)
      ⊎ ((log' ≡ envelope_for log r operation ∷ log)
          × (revision_of (find_id (c.id_of r) log) ≡ expected))

  found-Grows :
      (log : List (Envelope R)) (r : R) (operation : String) (expected : ℕ)
      (o : Option (Envelope R)) {p : Publication R} {log' : List (Envelope R)}
      → publish_found log r operation expected o ≡ ok (p, log')
      → Grows log r operation expected log'
  found-Grows log r operation expected (some old) h = inl (ground arith)
  found-Grows log r operation expected none h = inr (ground arith)

  pub publish-Grows :
      (log : List (Envelope R)) (r : R) (operation : String) (expected : ℕ) {p : Publication R}
      {log' : List (Envelope R)}
      → publish log r operation expected ≡ ok (p, log')
      → Grows log r operation expected log'
  unfolding publish
  publish-Grows log r operation expected {p} {log'} h =
      let found : publish_found log r operation expected (find_op operation log) ≡ ok (p, log') =
        ground arith in
      found-Grows log r operation expected (find_op operation log) found

module _ (texts : Texts) where
  pub publish_record-Grows :
      (log : Rows) (r : AnyRecord) (operation : String) (expected : ℕ) {p : Publication AnyRecord}
      {log' : Rows}
      → publish_record texts log r operation expected ≡ ok (p, log')
      → Grows ⦃c = record_content texts⦄ log r operation expected log'
  unfolding publish_record
  publish_record-Grows log r operation expected h =
      publish-Grows ⦃c = record_content texts⦄ log r operation expected h

-- The row that `latest` shows is the newest of its record, if that is of the kind asked for.
first_two :
    (p q : Row → Bool) (n : ℕ) (log : Rows) {x e : Row}
    → first_where (λ (r : Row). p r && q r) (take n log) ≡ some x
    → first_where q log ≡ some e
    → p e ≡ true
    → x ≡ e
first_two p q zero log h k pe = absurd (none-ne-some _ h)
first_two p q (suc n) [] h k pe = absurd (none-ne-some _ h)
first_two p q (suc n) (a ∷ log) {x} {e} h k pe = elim (Bool-cases (q a)) [
  | inl hit ↦
      let same : a ≡ e = some-injective a e (rw hit at k) in
      let fits : p a ≡ true = ap p same ∙ pe in
      sym (some-injective a x (rw (fits, hit) at h)) ∙ same
  | inr miss ↦ first_two p q n log (misses (p a) (q a) miss h) (rw miss at k) pe
]
  where
    misses :
        (b d : Bool)
        → d ≡ false
        → (if b && d then some a else first_where (λ (r : Row). p r && q r) (take n log)) ≡ some x
        → first_where (λ (r : Row). p r && q r) (take n log) ≡ some x
    misses b d m g = ground arith

pub latest-newest_row :
    (kind id : String) (log : Rows) {x e : Row}
    → latest kind id log ≡ some x
    → newest_row id log ≡ some e
    → (kind_name e.content == kind) ≡ true
    → x ≡ e
unfolding latest
latest-newest_row kind id log h k same =
    first_two (λ (r : Row). kind_name r.content == kind)
      (λ (r : Row). (any_base r.content).id == id) max_scanned log h k same

first-both :
    (p q : Row → Bool) (n : ℕ) (log : Rows) {x : Row}
    → first_where (λ (r : Row). p r && q r) (take n log) ≡ some x
    → (p x ≡ true) × (q x ≡ true)
first-both p q zero log h = absurd (none-ne-some _ h)
first-both p q (suc n) [] h = absurd (none-ne-some _ h)
first-both p q (suc n) (a ∷ log) {x} h = elim (Bool-cases (p a && q a)) [
  | inl hit ↦
      let same : a ≡ x = some-injective a x (rw hit at h) in
      rw (sym same) (and_parts (p a) (q a) hit)
  | inr miss ↦ first-both p q n log (rw miss at h)
]

-- The row that `latest` shows has the kind and the identifier that were asked for.
pub latest-fits :
    (kind id : String) (log : Rows) {x : Row}
    → latest kind id log ≡ some x
    → ((kind_name x.content == kind) ≡ true) × (((any_base x.content).id == id) ≡ true)
unfolding latest
latest-fits kind id log h =
    first-both (λ (r : Row). kind_name r.content == kind)
      (λ (r : Row). (any_base r.content).id == id) max_scanned log h
