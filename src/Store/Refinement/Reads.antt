-- ===== src/Store/Refinement/Reads.antt =====
-- `_idle_head`, `_envelope`, `entity` and the part of `append` before its first write, over a
-- graph that holds a log.
use oneiro_ostis.Prelude.{
  ℕ, String, ◌≡◌, refl, true, not, List, ◌==◌, nat_beq, nat_beq_iff, leb, string_comparable, eq_iff,
  ok, err, require, length, if◌then◌else◌, Option-cases, some, inl, inr, arith, le→leb,
}
use oneiro_ostis.Store.Graph.{
  Content, Envelope, Graph, revision_conflict, identity_collision, record_too_large,
}
use oneiro_ostis.Store.Writer.{
  idle_head, get_envelope, get_pointer, entity, prepare, check_prior, same_identity, pending_head,
}
use oneiro_ostis.Store.Spec.{
  find_id, revision_of, content_of, pointer_to, head_of, IsChain, Holds, keeps_identity,
  envelope_for,
}
use oneiro_ostis.Store.Chain.{IsEntry, find_id-IsEntry}

module _ {R : Type 0} ⦃c : Content R⦄ (g : Graph R) (log : List (Envelope R)) (chain : IsChain log)
    (h : Holds g log) where
  pub idle_head-Holds : idle_head g ≡ ok (head_of log)
  unfolding idle_head
  idle_head-Holds = rw (h.idle)

  pub get_envelope-Holds :
      (e : Envelope R) → IsEntry e log → get_envelope g e.operation e.sequence ≡ ok e
  unfolding get_envelope
  get_envelope-Holds e there = rw (h.entries, there.stored, there.well_linked)

  -- `entity` answers the content of the newest revision of the record, or that there is none.
  pub entity-Holds : (id : String) → entity g id ≡ ok (content_of (find_id id log))
  unfolding entity get_pointer
  entity-Holds id = elim (Option-cases (find_id id log)) [
    | inl missing ↦ rw (idle_head-Holds, h.currents, missing)
    | inr (e, found) ↦
        let (there, named) = find_id-IsEntry id log chain found in
        let same : (c.id_of e.content == id) ≡ true = (eq_iff (c.id_of e.content) id).1 named in
        let first : leb 1 e.sequence ≡ true = le→leb 1 e.sequence there.first in
        let last : leb e.sequence (length log) ≡ true = le→leb e.sequence (length log) there.last in
        let self : nat_beq e.revision e.revision ≡ true =
          (nat_beq_iff e.revision e.revision).1 refl in
        rw (
          idle_head-Holds,
          h.currents,
          found,
          first,
          last,
          get_envelope-Holds e there,
          there.sound,
          same,
          self,
        )
  ]

  check_prior-Holds :
      (r : R) (e : Envelope R)
      → find_id (c.id_of r) log ≡ some e
      → check_prior g r (some (pointer_to e))
        ≡ require (keeps_identity r (some e)) identity_collision
  unfolding check_prior same_identity
  check_prior-Holds r e found =
      let (there, named) = find_id-IsEntry (c.id_of r) log chain found in
      let pos : leb 1 e.revision ≡ true = le→leb 1 e.revision there.revised in
      rw (pos, entity-Holds, found)

  -- Before its first write `append` refuses what the log refuses, and otherwise has built the
  -- envelope that follows the log.
  pub prepare-Holds :
      (r : R) (op : String) (expected : ℕ)
      → prepare g (head_of log) r op expected ≡ (
          if not (nat_beq (revision_of (find_id (c.id_of r) log)) expected)
          then err revision_conflict
          else if not (keeps_identity r (find_id (c.id_of r) log))
          then err identity_collision
          else if not (c.head_fits (pending_head (head_of log) (envelope_for log r op)))
          then err record_too_large
          else ok (envelope_for log r op))
  unfolding prepare get_pointer
  prepare-Holds r op expected = elim (Option-cases (find_id (c.id_of r) log)) [
    | inl missing ↦ rw (h.currents, missing) (ground arith)
    | inr (e, found) ↦ rw (h.currents, found, check_prior-Holds r e found) (ground arith)
  ]
