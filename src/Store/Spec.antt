-- ===== src/Store/Spec.antt =====
-- What the store of python/oneiro/store.py promises: an append-only list of revisions, newest
-- first, in which an operation stands at most once.
use oneiro_ostis.Prelude.{
  ℕ, ◌+◌, String, ◌≡◌, Bool, true, false, not, ◌&&◌, Option, none, some, List, [], ◌∷◌, ◌==◌,
  nat_beq, string_comparable, Result, ok, err, length, first_where, if◌then◌else◌,
}
use oneiro_ostis.Store.Graph.{
  Content, entry_key, current_key, Envelope, Head, Pointer, Link, entry, pointer, Graph, is_name,
  StoreError, bad_operation, record_refused, operation_collision, revision_conflict,
  identity_collision, record_too_large,
}
use oneiro_ostis.Store.Writer.{Publication, get_head, pending_head}

module _ {R : Type 0} where
  abbrev pub newest : List (Envelope R) → Option String
  newest [] = none
  newest (e ∷ log) = some e.operation

  abbrev pub find_op : String → List (Envelope R) → Option (Envelope R)
  find_op op log = first_where (λ (e : Envelope R). e.operation == op) log

  abbrev pub revision_of : Option (Envelope R) → ℕ
  revision_of none = 0
  revision_of (some e) = e.revision

  abbrev pub operation_of : Option (Envelope R) → Option String
  operation_of none = none
  operation_of (some e) = some e.operation

  abbrev pub content_of : Option (Envelope R) → Option R
  content_of none = none
  content_of (some e) = some e.content

  -- What the graph holds for an entry and for the current revision of a record.
  abbrev pub entry_link : Option (Envelope R) → Option (Link R)
  entry_link none = none
  entry_link (some e) = some (entry e)

  abbrev pub pointer_to : Envelope R → Pointer
  pointer_to e = record { entry = e.operation; sequence = e.sequence; revision = e.revision }

  abbrev pub pointer_link : Option (Envelope R) → Option (Link R)
  pointer_link none = none
  pointer_link (some e) = some (pointer (pointer_to e))

  abbrev pub head_of : List (Envelope R) → Head R
  head_of log = record { tail = newest log; count = length log; pending = none }

module _ {R : Type 0} ⦃c : Content R⦄ where
  abbrev pub find_id : String → List (Envelope R) → Option (Envelope R)
  find_id id log = first_where (λ (e : Envelope R). c.id_of e.content == id) log

  abbrev pub keeps_identity : R → Option (Envelope R) → Bool
  keeps_identity r none = true
  keeps_identity r (some e) =
      c.kind_of e.content == c.kind_of r && c.created_of e.content == c.created_of r

  abbrev pub envelope_for : List (Envelope R) → R → String → Envelope R
  envelope_for log r op = record {
    operation = op;
    sequence = length log + 1;
    revision = revision_of (find_id (c.id_of r) log) + 1;
    previous = newest log;
    previous_revision = operation_of (find_id (c.id_of r) log);
    content = r;
  }

  -- A publication that no earlier operation of that name stands in the way of.
  abbrev pub publish_new :
      List (Envelope R) → R → String → ℕ → Result StoreError (Publication R × List (Envelope R))
  publish_new log r op expected =
      if not (nat_beq (revision_of (find_id (c.id_of r) log)) expected)
      then err revision_conflict
      else if not (keeps_identity r (find_id (c.id_of r) log))
      then err identity_collision
      else if not (c.head_fits (pending_head (head_of log) (envelope_for log r op)))
      then err record_too_large
      else ok (
        record { envelope = envelope_for log r op; duplicate = false },
        envelope_for log r op ∷ log,
      )

  abbrev pub publish_known :
      List (Envelope R) → R → Envelope R → Result StoreError (Publication R × List (Envelope R))
  publish_known log r old =
      if c.same.equal old.content r
      then ok (record { envelope = old; duplicate = true }, log)
      else err operation_collision

  abbrev pub publish_found :
      List (Envelope R)
      → R
      → String
      → ℕ
      → Option (Envelope R)
      → Result StoreError (Publication R × List (Envelope R))
  publish_found log r op expected (some old) = publish_known log r old
  publish_found log r op expected none = publish_new log r op expected

  unfoldable pub publish :
      List (Envelope R) → R → String → ℕ → Result StoreError (Publication R × List (Envelope R))
  publish log r op expected =
      if not (is_name op)
      then err bad_operation
      else if not (c.is_named r)
      then err record_refused
      else if not (c.fits r)
      then err record_too_large
      else if not (c.is_sound r)
      then err record_refused
      else publish_found log r op expected (find_op op log)

  -- A revision follows the log that it was published on.
  pub record Follows (e : Envelope R) (log : List (Envelope R)) : Type 0 where
    pub numbered : e.sequence ≡ length log + 1
    pub revised : e.revision ≡ revision_of (find_id (c.id_of e.content) log) + 1
    pub linked : e.previous ≡ newest log
    pub revises : e.previous_revision ≡ operation_of (find_id (c.id_of e.content) log)
    pub fresh : find_op e.operation log ≡ none
    pub named : is_name e.operation ≡ true
    pub sound : c.is_sound e.content ≡ true

  abbrev pub IsChain : List (Envelope R) → Type 0
  IsChain [] = Unit
  IsChain (e ∷ log) = Follows e log × IsChain log

  -- The graph holds a log, with nothing pending.
  pub record Holds (g : Graph R) (log : List (Envelope R)) : Type 0 where
    pub idle : get_head g ≡ ok (head_of log)
    pub entries : (op : String) → g.read (entry_key op) ≡ entry_link (find_op op log)
    pub currents : (id : String) → g.read (current_key id) ≡ pointer_link (find_id id log)
