-- ===== src/Store/Chain.antt =====
-- What holds of the entries of a chain of revisions.
use mathlib.Core.Path.{subst}
use mathlib.Core.Option.{none-ne-some, some-injective}
use oneiro_ostis.Prelude.{
  ℕ, All, ◌+◌, ◌≤◌, String, ◌≡◌, refl, sym, ap, ◌∙◌, true, Option, none, some, List, [], ◌∷◌, ◌==◌,
  nat_beq, string_comparable, eq_iff, length, Bool-cases, inl, inr, arith, equal_refl,
}
use oneiro_ostis.Store.Graph.{Content, Envelope}
use oneiro_ostis.Store.Writer.{is_linked, agree, is_absent}
use oneiro_ostis.Store.Spec.{newest, find_op, find_id, revision_of, operation_of, Follows, IsChain}

module _ {R : Type 0} ⦃c : Content R⦄ where
  -- An entry of the log, as the reads of the store meet it.
  pub record IsEntry (e : Envelope R) (log : List (Envelope R)) : Type 0 where
    pub first : 1 ≤ e.sequence
    pub last : e.sequence ≤ length log
    pub well_linked : is_linked e.operation e.sequence e ≡ true
    pub revised : 1 ≤ e.revision
    pub sound : c.is_sound e.content ≡ true
    pub stored : find_op e.operation log ≡ some e

  find_op_self : (e : Envelope R) (log : List (Envelope R)) → find_op e.operation (e ∷ log) ≡ some e
  find_op_self e log = rw (equal_refl e.operation)

  -- An entry keeps its place when the log grows.
  IsEntry-cons :
      (x e : Envelope R) (log : List (Envelope R))
      → find_op x.operation log ≡ none
      → IsEntry e log
      → IsEntry e (x ∷ log)
  IsEntry-cons x e log fresh h = record {
    first = h.first;
    last = omega (arith, h.last);
    well_linked = h.well_linked;
    revised = h.revised;
    sound = h.sound;
    stored = elim (Bool-cases (x.operation == e.operation)) [
      | inl same ↦
          let gone : find_op e.operation log ≡ none =
            subst (λ op. find_op op log ≡ none) ((eq_iff x.operation e.operation).0 same) fresh in
          absurd (none-ne-some e (sym gone ∙ h.stored))
      | inr other ↦ rw other h.stored
    ];
  }

  pub newest-absent : (log : List (Envelope R)) → is_absent (newest log) ≡ nat_beq (length log) 0
  newest-absent [] = refl
  newest-absent (e ∷ log) = ground arith

  -- The revision that a chained envelope names as its predecessor is there exactly when its
  -- number is above one.
  first_revision :
      (o : Option (Envelope R)) (revision : ℕ) (previous : Option String)
      → ((f : Envelope R) → o ≡ some f → 1 ≤ f.revision)
      → revision ≡ revision_of o + 1
      → previous ≡ operation_of o
      → agree (nat_beq revision 1) (is_absent previous) ≡ true
  first_revision none revision previous h r p = ground arith
  first_revision (some f) revision previous h r p = let pos = h f refl in ground arith

  module _ (e : Envelope R) (log : List (Envelope R)) (f : Follows e log)
      (older : (x : Envelope R) → find_id (c.id_of e.content) log ≡ some x → 1 ≤ x.revision) where
    head_linked : is_linked e.operation e.sequence e ≡ true
    unfolding is_linked
    head_linked =
        let revisions =
          first_revision (find_id (c.id_of e.content) log) e.revision e.previous_revision older
            f.revised f.revises in
        let absent : is_absent e.previous ≡ nat_beq (length log) 0 =
          ap is_absent f.linked ∙ newest-absent log in
        let self = equal_refl e.operation in ground (arith, f.named, f.numbered, f.revised)

    head-IsEntry : IsEntry e (e ∷ log)
    head-IsEntry = record {
      first = omega (arith, f.numbered);
      last = omega (arith, f.numbered);
      well_linked = head_linked;
      revised = omega (arith, f.revised);
      sound = f.sound;
      stored = find_op_self e log;
    }

  -- A lookup meets only entries, by the operation or by the identity of the record.
  pub find_id-IsEntry :
      (id : String) (log : List (Envelope R)) {e : Envelope R}
      → IsChain log
      → find_id id log ≡ some e
      → IsEntry e log × (c.id_of e.content ≡ id)
  find_id-IsEntry id [] ch h = absurd (none-ne-some _ h)
  find_id-IsEntry id (x ∷ log) {e} (f, ch) h = elim (Bool-cases (c.id_of x.content == id)) [
    | inl same ↦
        let e' : x ≡ e = some-injective x e (rw same at h) in
        subst (λ y. IsEntry y (x ∷ log) × (c.id_of y.content ≡ id)) e'
          (
            head-IsEntry x log f
                (λ y found. (find_id-IsEntry (c.id_of x.content) log ch found).0.revised),
            (eq_iff (c.id_of x.content) id).0 same,
          )
    | inr other ↦
        let (there, named) = find_id-IsEntry id log ch (rw other at h) in
        (IsEntry-cons x e log f.fresh there, named)
  ]

  pub find_op-IsEntry :
      (op : String) (log : List (Envelope R)) {e : Envelope R}
      → IsChain log
      → find_op op log ≡ some e
      → IsEntry e log × (e.operation ≡ op)
  find_op-IsEntry op [] ch h = absurd (none-ne-some _ h)
  find_op-IsEntry op (x ∷ log) {e} (f, ch) h = elim (Bool-cases (x.operation == op)) [
    | inl same ↦
        let e' : x ≡ e = some-injective x e (rw same at h) in
        subst (λ y. IsEntry y (x ∷ log) × (y.operation ≡ op)) e'
          (
            head-IsEntry x log f
                (λ y found. (find_id-IsEntry (c.id_of x.content) log ch found).0.revised),
            (eq_iff x.operation op).0 same,
          )
    | inr other ↦
        let (there, named) = find_op-IsEntry op log ch (rw other at h) in
        (IsEntry-cons x e log f.fresh there, named)
  ]

  All-map :
      (P Q : Envelope R → Type 0)
      → ((e : Envelope R) → P e → Q e)
      → (log : List (Envelope R)) → All P log
      → All Q log
  All-map P Q f [] h = tt
  All-map P Q f (e ∷ log) h = (f e h.0, All-map P Q f log h.1)

  -- Every revision of a chain is an entry of it.
  pub All-entries : (log : List (Envelope R)) → IsChain log → All (λ e. IsEntry e log) log
  All-entries [] ch = tt
  All-entries (x ∷ log) (f, ch) = (
    head-IsEntry x log f (λ y found. (find_id-IsEntry (c.id_of x.content) log ch found).0.revised),
    All-map (λ e. IsEntry e log) (λ e. IsEntry e (x ∷ log)) (λ e h. IsEntry-cons x e log f.fresh h)
        log (All-entries log ch),
  )
