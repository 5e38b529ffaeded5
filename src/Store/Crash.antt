-- ===== src/Store/Crash.antt =====
-- A publication of python/oneiro/store.py that stops between any two of its calls of the graph.
use oneiro_ostis.Prelude.{
  ℕ, zero, suc, String, ◌≡◌, refl, ap, ◌∙◌, Bool, true, false, Option, none, some, List, [], ◌∷◌,
  ◌++◌, ◌==◌, nat_beq, string_comparable, All, ◌⊎◌, ok, length, take, equal_refl, if◌then◌else◌,
  inl, inr, arith,
}
use oneiro_ostis.Store.Graph.{
  Content, Key, head_key, entry_key, current_key, Envelope, Pointer, head, entry, pointer, Call,
  write, classify, relate, Graph, perform, perform_all, is_name,
}
use oneiro_ostis.Store.Writer.{
  publish_fresh, recover, finish_calls, before_head, relate_to, pending_head, is_absent, agree,
  head_after, may_write,
}
use oneiro_ostis.Store.Spec.{newest, find_op, head_of, Follows, IsChain, Holds, envelope_for}
use oneiro_ostis.Store.Chain.{newest-absent}
use oneiro_ostis.Store.Refinement.Finish.{
  IsMidway, finish-IsMidway, finished-Holds, get_head-some, envelope_beq_refl,
}
use oneiro_ostis.Store.Refinement.Append.{announce, announced-IsMidway, envelope_for-Follows}

agree_self : (b : Bool) → agree b b ≡ true
agree_self b = ground arith

module _ {R : Type 0} ⦃c : Content R⦄ where
  -- Every call of a publication, in order: the head that announces it, then those of `_finish`.
  abbrev pub publication_calls : List (Envelope R) → Envelope R → List (Call R)
  publication_calls log e = write head_key (head (pending_head (head_of log) e)) ∷ finish_calls e

  -- The graph that a publication leaves which stops after its first `n` calls.
  unfoldable pub stopped : ℕ → List (Envelope R) → Envelope R → Graph R → Graph R
  stopped n log e g = perform_all (take n (publication_calls log e)) g

  module _ (e : Envelope R) (log : List (Envelope R)) where
    abbrev Keeps : Call R → Type 0
    Keeps call = (g : Graph R) → IsMidway e log g → IsMidway e log (perform call g)

    Keeps-entry : Keeps (write (entry_key e.operation) (entry e))
    unfolding perform
    Keeps-entry g mid = record {
      announced = mid.announced;
      own_entry = own;
      entries = λ op other. rw other (mid.entries op other);
      currents = mid.currents;
    }
      where
        own :
            may_write e (
              if e.operation == e.operation then some (entry e) else g.read (entry_key e.operation))
            ≡ true
        own = rw (equal_refl e.operation, envelope_beq_refl e)

    Keeps-pointer : (p : Pointer) → Keeps (write (current_key (c.id_of e.content)) (pointer p))
    unfolding perform
    Keeps-pointer p g mid = record {
      announced = mid.announced;
      own_entry = mid.own_entry;
      entries = mid.entries;
      currents = λ id other. rw other (mid.currents id other);
    }

    keeps_drawing :
        (call : Call R) (g : Graph R) (g' : Graph R)
        → g'.read ≡ g.read
        → IsMidway e log g
        → IsMidway e log g'
    keeps_drawing call g g' same mid = record {
      announced = rw same mid.announced;
      own_entry = rw same mid.own_entry;
      entries = λ op other. rw same (mid.entries op other);
      currents = λ id other. rw same (mid.currents id other);
    }

    Keeps-kind : (name kind : String) → Keeps (classify name kind)
    unfolding perform
    Keeps-kind name kind g mid = keeps_drawing (classify name kind) g _ refl mid

    Keeps-relation : (a b : Key) (name : String) → Keeps (relate a b name)
    unfolding perform
    Keeps-relation a b name g mid = keeps_drawing (relate a b name) g _ refl mid

    All-relations :
        (name relation : String) (o : Option String) (rest : List (Call R))
        → All Keeps rest
        → All Keeps (relate_to name o relation ++ rest)
    All-relations name relation none rest h = h
    All-relations name relation (some other) rest h =
        (Keeps-relation (entry_key name) (entry_key other) relation, h)

    before_head-Keeps : All Keeps (before_head e)
    before_head-Keeps = (
      Keeps-entry,
      (
        Keeps-kind e.operation (c.kind_of e.content),
        All-relations e.operation "nrel_oneiro_previous" e.previous _ (
            All-relations e.operation "nrel_oneiro_previous_revision" e.previous_revision _ (
              Keeps-relation (entry_key e.operation) head_key "nrel_oneiro_publication",
              (Keeps-pointer _, tt),
            )),
      ),
    )

    -- A prefix of the calls keeps the publication under way, unless it is all of them.
    prefix :
        (calls : List (Call R)) (last : Call R) (g : Graph R) (n : ℕ)
        → All Keeps calls
        → IsMidway e log g
        → IsMidway e log (perform_all (take n (calls ++ (last ∷ []))) g)
          ⊎ (take n (calls ++ (last ∷ [])) ≡ calls ++ (last ∷ []))
    unfolding perform_all
    prefix [] last g zero h mid = inl mid
    prefix [] last g (suc zero) h mid = inr refl
    prefix [] last g (suc (suc n)) h mid = inr refl
    prefix (x ∷ calls) last g zero h mid = inl mid
    prefix (x ∷ calls) last g (suc n) h mid =
        elim (prefix calls last (perform x g) n h.1 (h.0 g mid)) [
          | inl there ↦ inl there
          | inr all ↦ inr (ap (λ t. x ∷ t) all)
        ]

    module _ (chain : IsChain log) (follows : Follows e log) where
      recover-IsMidway :
          (g : Graph R) → IsMidway e log g → recover g ≡ (ok true, perform_all (finish_calls e) g)
      unfolding recover
      recover-IsMidway g mid =
          let count : agree (nat_beq (length log) 0) (is_absent (newest log)) ≡ true =
            ap (agree (nat_beq (length log) 0)) (newest-absent log)
            ∙ agree_self (nat_beq (length log) 0) in
          rw (
            get_head-some g (pending_head (head_of log) e) mid.announced count,
            finish-IsMidway e log follows g mid,
          )

      recover-Holds : (g : Graph R) → Holds g (e ∷ log) → recover g ≡ (ok false, g)
      unfolding recover
      recover-Holds g h = rw h.idle

      settled :
          (g : Graph R)
          → Holds g (e ∷ log)
          → (again : Bool) × (g' : Graph R) × (recover g ≡ (ok again, g'))
            × Holds g' (e ∷ log)
            × (recover g' ≡ (ok false, g'))
      settled g h = (false, g, recover-Holds g h, h, recover-Holds g h)

      midway_settled :
          (g : Graph R)
          → IsMidway e log g
          → (again : Bool) × (g' : Graph R) × (recover g ≡ (ok again, g'))
            × Holds g' (e ∷ log)
            × (recover g' ≡ (ok false, g'))
      midway_settled g mid =
          let done = finished-Holds e log follows g mid in
          (true, perform_all (finish_calls e) g, recover-IsMidway g mid, done, recover-Holds _ done)

      stopped_settled :
          (g : Graph R) (n : ℕ)
          → IsMidway e log g
          → (again : Bool) × (g' : Graph R) × (recover (perform_all (take n (finish_calls e)) g)
              ≡ (ok again, g'))
            × Holds g' (e ∷ log)
            × (recover g' ≡ (ok false, g'))
      stopped_settled g n mid =
          elim (prefix (before_head e) (write head_key (head (head_after e))) g n before_head-Keeps
            mid) [
              | inl under_way ↦ midway_settled _ under_way
              | inr all ↦ rw all (settled _ (finished-Holds e log follows g mid))
            ]

-- A publication that stops - because the process died, or a write raised - after any number of
-- its calls is atomic. With no call made the graph is as it was. With at least one call made, the
-- recovery of the next start succeeds and leaves a graph that holds the log with the new revision
-- at its end, and recovering once more changes nothing.
pub recover-stopped :
    {R : Type 0} ⦃c : Content R⦄ (g : Graph R) (log : List (Envelope R)) (r : R) (op : String)
    (n : ℕ)
    → IsChain log
    → Holds g log
    → is_name op ≡ true
    → c.is_sound r ≡ true
    → find_op op log ≡ none
    → (stopped 0 log (envelope_for log r op) g ≡ g)
      × (again : Bool) × (g' : Graph R) × (recover (stopped (suc n) log (envelope_for log r op) g)
          ≡ (ok again, g'))
      × Holds g' (envelope_for log r op ∷ log)
      × (recover g' ≡ (ok false, g'))
unfolding stopped perform_all
recover-stopped g log r op n chain h named sound fresh =
    let e = envelope_for log r op in
    let follows = envelope_for-Follows g log chain h r op named sound fresh in
    let mid = announced-IsMidway g log chain h e fresh in
    let (again, g', recovered, held, idle) =
      stopped_settled e log chain follows (announce log e g) n mid in
    (refl, again, g', recovered, held, idle)

-- What `append` leaves when nothing stops it is what all its calls leave.
pub append-stopped :
    {R : Type 0} ⦃c : Content R⦄ (g : Graph R) (log : List (Envelope R)) (r : R) (op : String)
    → IsChain log
    → Holds g log
    → is_name op ≡ true
    → c.is_sound r ≡ true
    → find_op op log ≡ none
    → publish_fresh (head_of log) g (ok (envelope_for log r op)) ≡ (
      ok (record { envelope = envelope_for log r op; duplicate = false }),
      perform_all (publication_calls log (envelope_for log r op)) g,
    )
unfolding publish_fresh perform_all
append-stopped g log r op chain h named sound fresh =
    let e = envelope_for log r op in
    let follows = envelope_for-Follows g log chain h r op named sound fresh in
    rw (finish-IsMidway e log follows (announce log e g) (announced-IsMidway g log chain h e fresh))
