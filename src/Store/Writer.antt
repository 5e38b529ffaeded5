-- ===== src/Store/Writer.antt =====
-- python/oneiro/store.py: `append`, `_finish`, `recover` and `entity`. A call returns its result
-- beside the graph that it leaves, so that what was written before a failure stays written.
use oneiro_ostis.Prelude.{
  ℕ, ◌+◌, String, Bool, true, false, not, ◌&&◌, Option, none, some, List, [], ◌∷◌, ◌++◌, ◌==◌, leb,
  nat_beq, string_comparable, Result, ok, err, ◌>>=◌, ◌>>◌, require, if◌then◌else◌,
}
use oneiro_ostis.Store.Graph.{
  Content, head_key, entry_key, current_key, Envelope, Head, Pointer, Link, head, entry, pointer,
  Call, write, classify, relate, Graph, perform, perform_all, is_name, StoreError, bad_operation,
  record_refused, record_unreadable, chain_corrupt, publication_pending, operation_collision,
  revision_conflict, identity_collision, record_too_large,
}

pub record Publication (R : Type 0) : Type 0 where
  pub envelope : Envelope R
  pub duplicate : Bool

abbrev pub is_absent {ℓ} : {A : Type ℓ} → Option A → Bool
is_absent none = true
is_absent (some a) = false

abbrev pub agree : Bool → Bool → Bool
agree true b = b
agree false b = not b

abbrev pub text_option_beq : Option String → Option String → Bool
text_option_beq none none = true
text_option_beq (some a) (some b) = a == b
text_option_beq _ _ = false

-- The revision that the next publication of a record follows, with its entry.
abbrev pub pointer_revision : Option Pointer → ℕ
pointer_revision none = 0
pointer_revision (some p) = p.revision

abbrev pub pointer_entry : Option Pointer → Option String
pointer_entry none = none
pointer_entry (some p) = some p.entry

module _ {R : Type 0} ⦃c : Content R⦄ where
  -- `_head`
  head_of_link : Option (Link R) → Result StoreError (Head R)
  head_of_link none = ok (record { tail = none; count = 0; pending = none })
  head_of_link (some (head h)) =
      if agree (nat_beq h.count 0) (is_absent h.tail) then ok h else err chain_corrupt
  head_of_link (some _) = err record_unreadable

  unfoldable pub get_head : Graph R → Result StoreError (Head R)
  unfolding head_of_link
  get_head g = head_of_link (g.read head_key)

  -- `_idle_head`
  unfoldable pub idle_head : Graph R → Result StoreError (Head R)
  idle_head g = do h ← get_head g; require (is_absent h.pending) publication_pending; ok h

  -- The checks of `_envelope`.
  unfoldable pub is_linked : String → ℕ → Envelope R → Bool
  is_linked name sequence e =
      nat_beq e.sequence sequence
      && leb 1 e.revision
      && is_name e.operation
      && agree (nat_beq e.revision 1) (is_absent e.previous_revision)
      && name == e.operation
      && agree (nat_beq sequence 1) (is_absent e.previous)

  envelope_of_link : String → ℕ → Option (Link R) → Result StoreError (Envelope R)
  envelope_of_link name sequence (some (entry e)) =
      if is_linked name sequence e then ok e else err chain_corrupt
  envelope_of_link name sequence _ = err record_unreadable

  -- `_envelope`
  unfoldable pub get_envelope : Graph R → String → ℕ → Result StoreError (Envelope R)
  unfolding envelope_of_link
  get_envelope g name sequence = envelope_of_link name sequence (g.read (entry_key name))

  -- The pointer to the current revision of a record, if it has one.
  pointer_of_link : Option (Link R) → Result StoreError (Option Pointer)
  pointer_of_link none = ok none
  pointer_of_link (some (pointer p)) = ok (some p)
  pointer_of_link (some _) = err record_unreadable

  unfoldable pub get_pointer : Graph R → String → Result StoreError (Option Pointer)
  unfolding pointer_of_link
  get_pointer g id = pointer_of_link (g.read (current_key id))

  follow : Graph R → String → Head R → Option Pointer → Result StoreError (Option R)
  follow g id h none = ok none
  follow g id h (some p) = do
    require (leb 1 p.sequence && leb p.sequence h.count) chain_corrupt
    e ← get_envelope g p.entry p.sequence
    require (c.is_sound e.content) record_unreadable
    require (c.id_of e.content == id && nat_beq p.revision e.revision) identity_collision
    ok (some e.content)

  -- `entity`
  unfoldable pub entity : Graph R → String → Result StoreError (Option R)
  unfolding follow
  entity g id = do h ← idle_head g; p ← get_pointer g id; follow g id h p

  -- What `_finish` does to the graph once its checks have passed, in order.
  abbrev pub relate_to : String → Option String → String → List (Call R)
  relate_to name none relation = []
  relate_to name (some other) relation = relate (entry_key name) (entry_key other) relation ∷ []

  abbrev pub before_head : Envelope R → List (Call R)
  before_head e =
      write (entry_key e.operation) (entry e)
      ∷ classify e.operation (c.kind_of e.content)
      ∷ (relate_to e.operation e.previous "nrel_oneiro_previous"
          ++ (relate_to e.operation e.previous_revision "nrel_oneiro_previous_revision"
              ++ (relate (entry_key e.operation) head_key "nrel_oneiro_publication"
                  ∷ write (current_key (c.id_of e.content)) (
                      pointer (record {
                        entry = e.operation;
                        sequence = e.sequence;
                        revision = e.revision;
                      }))
                  ∷ [])))

  abbrev pub head_after : Envelope R → Head R
  head_after e = record { tail = some e.operation; count = e.sequence; pending = none }

  abbrev pub finish_calls : Envelope R → List (Call R)
  finish_calls e = before_head e ++ (write head_key (head (head_after e)) ∷ [])

  -- An entry that is already there must be the pending one, written before an interruption.
  abbrev pub envelope_beq : Envelope R → Envelope R → Bool
  envelope_beq a b =
      a.operation == b.operation
      && nat_beq a.sequence b.sequence
      && nat_beq a.revision b.revision
      && text_option_beq a.previous b.previous
      && text_option_beq a.previous_revision b.previous_revision
      && c.same.equal a.content b.content

  abbrev pub may_write : Envelope R → Option (Link R) → Bool
  may_write e none = true
  may_write e (some (entry old)) = envelope_beq old e
  may_write e (some _) = false

  -- `_finish`
  unfoldable pub finish : Head R → Envelope R → Graph R → Result StoreError (Unit {0}) × Graph R
  finish h e g =
      if not
        (nat_beq e.sequence (h.count + 1) && text_option_beq e.previous h.tail && leb 1 e.revision)
      then (err chain_corrupt, g)
      else if not (c.is_sound e.content)
      then (err record_unreadable, g)
      else if not (may_write e (g.read (entry_key e.operation)))
      then (err operation_collision, g)
      else (ok tt, perform_all (finish_calls e) g)

  unfoldable pub recover_pending :
      Head R → Option (Envelope R) → Graph R → Result StoreError Bool × Graph R
  recover_pending h none g = (ok false, g)
  recover_pending h (some e) g = let (r, g') = finish h e g in (r >> ok true, g')

  unfoldable pub recover_head :
      Result StoreError (Head R) → Graph R → Result StoreError Bool × Graph R
  recover_head (err x) g = (err x, g)
  recover_head (ok h) g = recover_pending h h.pending g

  -- `recover`
  unfoldable pub recover : Graph R → Result StoreError Bool × Graph R
  unfolding recover_pending recover_head
  recover g = recover_head (get_head g) g

  -- A revision keeps the kind and the time of creation of the record it revises.
  unfoldable pub same_identity : R → Option R → Result StoreError (Unit {0})
  same_identity r none = err identity_collision
  same_identity r (some old) =
      require (c.kind_of old == c.kind_of r && c.created_of old == c.created_of r)
        identity_collision

  unfoldable pub check_prior : Graph R → R → Option Pointer → Result StoreError (Unit {0})
  check_prior g r none = ok tt
  check_prior g r (some p) = do
    require (leb 1 p.revision) chain_corrupt
    old ← entity g (c.id_of r)
    same_identity r old

  abbrev pub next_envelope : Head R → String → Option Pointer → R → Envelope R
  next_envelope h operation prior r = record {
    operation = operation;
    sequence = h.count + 1;
    revision = pointer_revision prior + 1;
    previous = h.tail;
    previous_revision = pointer_entry prior;
    content = r;
  }

  abbrev pub pending_head : Head R → Envelope R → Head R
  pending_head h e = record h { pending = some e }

  -- The part of `append` for an operation that has no entry yet, up to its first write. The text
  -- of the pending head is the longest that a publication writes: it holds all the others but the
  -- pointer and the head that is left.
  unfoldable pub prepare : Graph R → Head R → R → String → ℕ → Result StoreError (Envelope R)
  unfolding same_identity check_prior
  prepare g h r operation expected = do
    prior ← get_pointer g (c.id_of r)
    require (nat_beq (pointer_revision prior) expected) revision_conflict
    check_prior g r prior
    let e = next_envelope h operation prior r
    require (c.head_fits (pending_head h e)) record_too_large
    ok e

  -- The answer for an operation that is already stored.
  unfoldable pub repeated :
      Graph R → Head R → R → String → Link R → Result StoreError (Publication R)
  repeated g h r operation (entry old) = do
    require (c.same.equal old.content r && old.operation == operation) operation_collision
    require (leb 1 old.sequence && leb old.sequence h.count) publication_pending
    e ← get_envelope g operation old.sequence
    ok (record { envelope = e; duplicate = true })
  repeated g h r operation _ = err record_unreadable

  unfoldable pub publish_fresh :
      Head R
      → Graph R
      → Result StoreError (Envelope R)
      → Result StoreError (Publication R) × Graph R
  publish_fresh h g (err x) = (err x, g)
  publish_fresh h g (ok e) =
      let g' = perform (write head_key (head (pending_head h e))) g in
      let (r, g'') = finish (pending_head h e) e g' in
      (r >> ok (record { envelope = e; duplicate = false }), g'')

  unfoldable pub append_idle :
      R
      → String
      → ℕ
      → Graph R
      → Result StoreError (Head R)
      → Option (Link R)
      → Result StoreError (Publication R) × Graph R
  append_idle r operation expected g (err x) found = (err x, g)
  append_idle r operation expected g (ok h) (some link) = (repeated g h r operation link, g)
  append_idle r operation expected g (ok h) none =
      publish_fresh h g (prepare g h r operation expected)

  -- `append`
  unfoldable pub append : R → String → ℕ → Graph R → Result StoreError (Publication R) × Graph R
  unfolding repeated publish_fresh append_idle
  append r operation expected g =
      if not (is_name operation)
      then (err bad_operation, g)
      else if not (c.is_named r)
      then (err record_refused, g)
      else if not (c.fits r)
      then (err record_too_large, g)
      else if not (c.is_sound r)
      then (err record_refused, g)
      else append_idle r operation expected g (idle_head g) (g.read (entry_key operation))
