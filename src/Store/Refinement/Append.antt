-- ===== src/Store/Refinement/Append.antt =====
-- `append` of python/oneiro/store.py refines the append-only log of `Store.Spec`.
use mathlib.Core.Path.{subst}
use oneiro_ostis.Prelude.{
  ℕ, String, ◌≡◌, refl, true, false, none, some, List, [], ◌∷◌, ◌==◌, nat_beq, leb,
  string_comparable, eq_iff, Result, ok, err, length, if◌then◌else◌, Bool-cases, Option-cases, inl,
  inr, le→leb,
}
use oneiro_ostis.Store.Graph.{
  Content, head_key, entry_key, Envelope, head, entry, write, Graph, perform, empty_graph,
  StoreError, is_name, bad_operation, record_refused, operation_collision, revision_conflict,
  identity_collision, record_too_large,
}
use oneiro_ostis.Store.Writer.{
  Publication, append, append_idle, publish_fresh, repeated, prepare, pending_head, get_head,
  idle_head, get_envelope,
}
use oneiro_ostis.Store.Spec.{
  find_op, find_id, head_of, Follows, IsChain, Holds, publish, publish_new, publish_known,
  publish_found, envelope_for, revision_of, keeps_identity,
}
use oneiro_ostis.Store.Chain.{find_op-IsEntry}
use oneiro_ostis.Store.Refinement.Reads.{idle_head-Holds, get_envelope-Holds, prepare-Holds}
use oneiro_ostis.Store.Refinement.Finish.{IsMidway, finish-IsMidway, finished-Holds}

module _ {R : Type 0} ⦃c : Content R⦄ where
  -- What `append` leaves, beside what the log's `publish` leaves.
  pub data Refines (log : List (Envelope R)) (g : Graph R)
      : Result StoreError (Publication R) × Graph R
        → Result StoreError (Publication R × List (Envelope R))
        → Type 0 where
    published :
        (p : Publication R) (log' : List (Envelope R)) (g' : Graph R)
        → IsChain log'
        → Holds g' log'
        → Refines log g (ok p, g') (ok (p, log'))
    refused : (x : StoreError) → Refines log g (err x, g) (err x)

  abbrev pub announce : List (Envelope R) → Envelope R → Graph R → Graph R
  announce log e g = perform (write head_key (head (pending_head (head_of log) e))) g

  module _ (g : Graph R) (log : List (Envelope R)) (chain : IsChain log) (h : Holds g log) where
    -- The envelope that `append` builds follows the log.
    pub envelope_for-Follows :
        (r : R) (op : String)
        → is_name op ≡ true
        → c.is_sound r ≡ true
        → find_op op log ≡ none
        → Follows (envelope_for log r op) log
    envelope_for-Follows r op named sound fresh = record {
      numbered = refl;
      revised = refl;
      linked = refl;
      revises = refl;
      fresh = fresh;
      named = named;
      sound = sound;
    }

    -- The first write of a publication.
    pub announced-IsMidway :
        (e : Envelope R) → find_op e.operation log ≡ none → IsMidway e log (announce log e g)
    unfolding perform
    announced-IsMidway e fresh = record {
      announced = refl;
      own_entry = rw (h.entries, fresh);
      entries = λ op other. h.entries op;
      currents = λ id other. h.currents id;
    }

    publish_fresh-Refines :
        (e : Envelope R)
        → Follows e log
        → Refines log g
            (publish_fresh (head_of log) g (ok e))
            (ok (record { envelope = e; duplicate = false }, e ∷ log))
    unfolding publish_fresh
    publish_fresh-Refines e follows =
        let mid = announced-IsMidway e follows.fresh in
        rw (finish-IsMidway e log follows (announce log e g) mid) (
          published (record { envelope = e; duplicate = false }) (e ∷ log) _ (follows, chain)
            (finished-Holds e log follows (announce log e g) mid))

    repeated-Holds :
        (r : R) (op : String) (old : Envelope R)
        → find_op op log ≡ some old
        → repeated g (head_of log) r op (entry old) ≡ (
            if c.same.equal old.content r
            then ok (record { envelope = old; duplicate = true })
            else err operation_collision)
    unfolding repeated
    repeated-Holds r op old found =
        let (there, named) = find_op-IsEntry op log chain found in
        let same : (old.operation == op) ≡ true = (eq_iff old.operation op).1 named in
        let first : leb 1 old.sequence ≡ true = le→leb 1 old.sequence there.first in
        let last : leb old.sequence (length log) ≡ true =
          le→leb old.sequence (length log) there.last in
        let read : get_envelope g op old.sequence ≡ ok old =
          subst (λ name. get_envelope g name old.sequence ≡ ok old) named
            (get_envelope-Holds g log chain h old there) in
        elim (Bool-cases (c.same.equal old.content r)) [
          | inl e ↦ rw (e, same, first, last, read)
          | inr e ↦ rw e
        ]

    append_new-Refines :
        (r : R) (op : String) (expected : ℕ)
        → is_name op ≡ true
        → c.is_sound r ≡ true
        → find_op op log ≡ none
        → Refines log g
            (publish_fresh (head_of log) g (prepare g (head_of log) r op expected))
            (publish_new log r op expected)
    append_new-Refines r op expected named sound fresh =
        rw (prepare-Holds g log chain h r op expected)
          (elim (Bool-cases (nat_beq (revision_of (find_id (c.id_of r) log)) expected)) [
            | inr a ↦ rw a (unfold publish_fresh in refused revision_conflict)
            | inl a ↦ elim (Bool-cases (keeps_identity r (find_id (c.id_of r) log))) [
              | inr b ↦ rw (a, b) (unfold publish_fresh in refused identity_collision)
              | inl b ↦
                  elim (Bool-cases
                    (c.head_fits (pending_head (head_of log) (envelope_for log r op)))) [
                      | inr d ↦ rw (a, b, d) (unfold publish_fresh in refused record_too_large)
                      | inl d ↦
                          rw (a, b, d)
                            (publish_fresh-Refines (envelope_for log r op)
                              (envelope_for-Follows r op named sound fresh))
                    ]
            ]
          ])

    append_known-Refines :
        (r : R) (op : String) (expected : ℕ) (old : Envelope R)
        → find_op op log ≡ some old
        → Refines log g (repeated g (head_of log) r op (entry old), g) (publish_known log r old)
    append_known-Refines r op expected old found =
        rw (repeated-Holds r op old found) (elim (Bool-cases (c.same.equal old.content r)) [
          | inl e ↦ rw e (published (record { envelope = old; duplicate = true }) log g chain h)
          | inr e ↦ rw e (refused operation_collision)
        ])

    append_idle-Refines :
        (r : R) (op : String) (expected : ℕ)
        → is_name op ≡ true
        → c.is_sound r ≡ true
        → Refines log g
            (append_idle r op expected g (idle_head g) (g.read (entry_key op)))
            (publish_found log r op expected (find_op op log))
    append_idle-Refines r op expected named sound = elim (Option-cases (find_op op log)) [
      | inl fresh ↦
          rw (idle_head-Holds g log chain h, h.entries op, fresh)
            (unfold append_idle in append_new-Refines r op expected named sound fresh)
      | inr (old, found) ↦
          rw (idle_head-Holds g log chain h, h.entries op, found)
            (unfold append_idle in append_known-Refines r op expected old found)
    ]

    -- `append` does what `publish` does to the log that the graph holds: the same publication or
    -- the same refusal, the graph then holds the log that `publish` leaves, and a refused call has
    -- changed nothing.
    pub append-Refines :
        (r : R) (op : String) (expected : ℕ)
        → Refines log g (append r op expected g) (publish log r op expected)
    unfolding append publish append_idle
    append-Refines r op expected = elim (Bool-cases (is_name op)) [
      | inr n ↦ rw n (refused bad_operation)
      | inl n ↦ elim (Bool-cases (c.is_named r)) [
        | inr i ↦ rw (n, i) (refused record_refused)
        | inl i ↦ elim (Bool-cases (c.fits r)) [
          | inr f ↦ rw (n, i, f) (refused record_too_large)
          | inl f ↦ elim (Bool-cases (c.is_sound r)) [
            | inr s ↦ rw (n, i, f, s) (refused record_refused)
            | inl s ↦ rw (n, i, f, s) (append_idle-Refines r op expected n s)
          ]
        ]
      ]
    ]

  -- The log that a publication leaves: a refused one leaves it as it was.
  abbrev pub log_after :
      List (Envelope R) → Result StoreError (Publication R × List (Envelope R)) → List (Envelope R)
  log_after log (ok (p, log')) = log'
  log_after log (err x) = log

  abbrev pub answer_of :
      Result StoreError (Publication R × List (Envelope R)) → Result StoreError (Publication R)
  answer_of (ok (p, log')) = ok p
  answer_of (err x) = err x

  Refines-Holds :
      (g : Graph R) (log : List (Envelope R)) {left : Result StoreError (Publication R) × Graph R}
      {spec : Result StoreError (Publication R × List (Envelope R))}
      → IsChain log
      → Holds g log
      → Refines log g left spec
      → (left.0 ≡ answer_of spec) × IsChain (log_after log spec) × Holds left.1 (log_after log spec)
  Refines-Holds g log chain h (published p log' g' chain' h') = (refl, chain', h')
  Refines-Holds g log chain h (refused x) = (refl, chain, h)

  -- One client's calls of `append`, an error ending only its own call.
  unfoldable pub append_all : List (R × String × ℕ) → Graph R → Graph R
  append_all [] g = g
  append_all ((r, op, expected) ∷ rest) g = append_all rest (append r op expected g).1

  unfoldable pub publish_all : List (R × String × ℕ) → List (Envelope R) → List (Envelope R)
  publish_all [] log = log
  publish_all ((r, op, expected) ∷ rest) log =
      publish_all rest (log_after log (publish log r op expected))

  -- A graph that holds a log answers every call of `append` with the publication or the refusal
  -- of the log's `publish`; and after any sequence of calls, accepted or refused, it holds the
  -- log that the same sequence of `publish` leaves, whose revisions are again a chain.
  pub append_all-Holds :
      (calls : List (R × String × ℕ)) (g : Graph R) (log : List (Envelope R))
      → IsChain log
      → Holds g log
      → ((r : R) (op : String) (expected : ℕ)
          → (append r op expected g).0 ≡ answer_of (publish log r op expected))
        × IsChain (publish_all calls log)
        × Holds (append_all calls g) (publish_all calls log)
  unfolding append_all publish_all
  append_all-Holds [] g log chain h = (
    λ r op expected. (Refines-Holds g log chain h (append-Refines g log chain h r op expected)).0,
    chain,
    h,
  )
  append_all-Holds ((r, op, expected) ∷ rest) g log chain h =
      let (_, chain', h') =
        Refines-Holds g log chain h (append-Refines g log chain h r op expected) in
      let (_, chain'', h'') =
        append_all-Holds rest (append r op expected g).1 (log_after log (publish log r op expected))
          chain' h' in
      (
        λ r op expected.
            (Refines-Holds g log chain h (append-Refines g log chain h r op expected)).0,
        chain'',
        h'',
      )

  pub empty_graph-Holds : Holds (empty_graph {R = R}) []
  unfolding get_head
  empty_graph-Holds = record { idle = refl; entries = λ op. refl; currents = λ id. refl }
