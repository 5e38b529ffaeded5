-- ===== src/Approvals/Used.antt =====
-- A used proposal, and the publications that keep it used.
use Prim.Native.String
use mathlib.Core.Bool.{true≢false}
use oneiro_ostis.Prelude.{
  ℕ, String, ◌≡◌, ◌≢◌, refl, sym, ap, ◌∙◌, ◌⊎◌, inl, inr, Bool, true, false, not, ◌&&◌, Option,
  none, some, ◌∷◌, Result, ok, err, ◌==◌, string_comparable, Bool-cases, Option-cases, arith, leb,
  ◌≤◌, leb→le, le→leb, and_parts, eq_iff,
}
use oneiro_ostis.Prelude.Text.{is_empty}
use oneiro_ostis.Store.Graph.{StoreError}
use oneiro_ostis.Store.Writer.{Publication}
use oneiro_ostis.Store.Spec.{envelope_for, revision_of}
use oneiro_ostis.Records.Base.{with_state, RecordError}
use oneiro_ostis.Records.Owner.{Approval, approval_class, consumed_by}
use oneiro_ostis.Records.Stored.{Texts, AnyRecord, approval, any_base, kind_name, record_content}
use oneiro_ostis.Records.Grants.{is_empty-blank, consumed_by-eq-ok}
use oneiro_ostis.Memory.{Row, Rows, publish_record, latest}
use oneiro_ostis.Memory.Revisions.{newest_row, publish_record-Grows, latest-newest_row}
use oneiro_ostis.Approvals.{
  ApprovalError, as_approval, published, publish_approval, publish_checked, request_on,
  request_checked, consume_on, decided,
}

-- The record is a proposal that has been used.
abbrev pub used : AnyRecord → Bool
used (approval a) = not (is_empty a.consumed_action_id)
used _ = false

abbrev pub used_row : Option Row → Bool
used_row none = false
used_row (some e) = used e.content && leb 1 e.revision

-- The newest revision of the record is a proposal that has been used.
abbrev pub IsSpent : String → Rows → Type 0
IsSpent id log = used_row (newest_row id log) ≡ true

-- A publication that cannot replace a used proposal by one that is not: of another record, of a
-- used proposal, or of a record that is expected to be new.
abbrev pub Harmless : String → AnyRecord → ℕ → Type 0
Harmless id r expected = (((any_base r).id == id) ≡ false) ⊎ ((used r ≡ true) ⊎ (expected ≡ 0))

pub used-revision : (o : Option Row) → used_row o ≡ true → revision_of o ≢ 0
used-revision none h k = absurd (true≢false (sym h))
used-revision (some e) h k =
    let (_, high) = and_parts (used e.content) (leb 1 e.revision) h in
    let low : 1 ≤ e.revision = leb→le 1 e.revision high in omega arith

pub stored-content : (r : AnyRecord) (a : Approval) → as_approval r ≡ ok a → r ≡ approval a
unfolding as_approval
stored-content r a h = ground arith

-- The row that is read for a spent proposal is the spent one.
pub latest-used :
    (id : String) (log : Rows) (row : Row) (a : Approval)
    → IsSpent id log
    → latest "approval" id log ≡ some row
    → as_approval row.content ≡ ok a
    → used (approval a) ≡ true
unfolding kind_name
latest-used id log row a h e k = elim (Option-cases (newest_row id log)) [
  | inl missing ↦ absurd (true≢false (sym (rw missing at h)))
  | inr (x, there) ↦
      let (u, _) = and_parts (used x.content) (leb 1 x.revision) (rw there at h) in
      let kind : (kind_name x.content == "approval") ≡ true = is_used-kind x.content u in
      let same : row ≡ x = latest-newest_row "approval" id log e there kind in
      let content : x.content ≡ approval a =
        ap (λ (y : Row). y.content) (sym same) ∙ stored-content row.content a k in
      rw content at u
]
  where
    is_used-kind : (r : AnyRecord) → used r ≡ true → (kind_name r == "approval") ≡ true
    is_used-kind (approval a) u = refl
    is_used-kind _ u = ground arith

module _ (texts : Texts) where
  pub Harmless-keeps :
      (id : String) (log : Rows) (r : AnyRecord) (operation : String) (expected : ℕ)
      → IsSpent id log
      → Harmless id r expected
      → revision_of (newest_row (any_base r).id log) ≡ expected
      → IsSpent id (envelope_for ⦃c = record_content texts⦄ log r operation ∷ log)
  Harmless-keeps id log r operation expected h k e = elim (Bool-cases ((any_base r).id == id)) [
    | inr differ ↦ rw differ h
    | inl same ↦ elim k [
      | inl differ ↦ absurd (true≢false (sym same ∙ differ))
      | inr (inl u) ↦ rw (same, u) (le→leb 1 _ (omega arith))
      | inr (inr zero_expected) ↦
          let eq : (any_base r).id ≡ id = (eq_iff (any_base r).id id).0 same in
          absurd (used-revision (newest_row id log) h (rw eq at e ∙ zero_expected))
    ]
  ]

  pub published_keeps :
      (id : String) (log : Rows) (r : AnyRecord) (operation : String) (expected : ℕ)
      (res : Result StoreError (Publication AnyRecord × Rows))
      → publish_record texts log r operation expected ≡ res
      → IsSpent id log
      → Harmless id r expected
      → IsSpent id (published texts log res).1
  unfolding published
  published_keeps id log r operation expected (err e) q h k = h
  published_keeps id log r operation expected (ok (p, log')) q h k =
      elim (publish_record-Grows texts log r operation expected q) [
        | inl same ↦ rw same h
        | inr (same, e) ↦ rw same (Harmless-keeps id log r operation expected h k e)
      ]

  pub approval_keeps :
      (id : String) (log : Rows) (a : Approval) (operation : String) (expected : ℕ)
      → IsSpent id log
      → Harmless id (approval a) expected
      → IsSpent id (publish_approval texts log a operation expected).1
  unfolding publish_approval
  approval_keeps id log a operation expected h k =
      published_keeps id log (approval a) operation expected
        (publish_record texts log (approval a) operation expected) refl h k

  pub request_on-keeps :
      (id : String) (o : Option Row) (a : Approval) (log : Rows)
      → IsSpent id log
      → IsSpent id (request_on texts o a log).1
  unfolding request_on
  request_on-keeps id (some row) a log h = h
  request_on-keeps id none a log h = approval_keeps id log a a.id 0 h (inr (inr refl))

  pub request-keeps :
      (id : String) (r : Result RecordError Approval) (log : Rows)
      → IsSpent id log
      → IsSpent id (request_checked texts r log).1
  unfolding request_checked
  request-keeps id (err e) log h = h
  request-keeps id (ok a) log h = request_on-keeps id (latest "approval" a.id log) a log h

  pub checked_keeps :
      (id : String) (log : Rows) (r : Result RecordError Approval) (operation : String)
      (expected : ℕ)
      → ((a : Approval) → r ≡ ok a → Harmless id (approval a) expected)
      → IsSpent id log
      → IsSpent id (publish_checked texts log r operation expected).1
  unfolding publish_checked
  checked_keeps id log (err e) operation expected k h = h
  checked_keeps id log (ok a) operation expected k h =
      approval_keeps id log a operation expected h (k a refl)

  pub consume_on-keeps :
      (id now : String) (row : Row) (r : Result ApprovalError Approval) (action_id : String)
      (log : Rows)
      → IsSpent id log
      → IsSpent id (consume_on texts now row r action_id log).1
  unfolding consume_on
  consume_on-keeps id now row (err e) action_id log h = h
  consume_on-keeps id now row (ok a) action_id log h =
      checked_keeps id log (consumed_by now action_id a) (String.◌++◌ "used-" action_id)
        row.revision
        (λ b e.
          let (worded, same) = consumed_by-eq-ok now action_id a e in
          let left : is_empty action_id ≡ false = is_empty-blank action_id worded in
          inr (inl (ground arith)))
        h

  pub decided-id :
      (now : String) (granted : Bool) (reason : String) (a : Approval) {b : Approval}
      → decided texts now granted reason a ≡ ok b
      → b.id ≡ a.id
  unfolding with_state
  decided-id now granted reason a h = ground arith
