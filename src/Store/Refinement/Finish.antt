-- ===== src/Store/Refinement/Finish.antt =====
-- `_finish` of python/oneiro/store.py: what the calls leave in the graph, from every state that an
-- interrupted publication can have left.
use oneiro_ostis.Prelude.{
  suc, ◌+◌, String, ◌≡◌, refl, ap, ◌∙◌, true, false, Option, none, some, List, [], ◌∷◌, ◌++◌, ◌==◌,
  nat_beq, nat_beq_iff, leb, string_comparable, ok, length, if◌then◌else◌, Bool-cases, inl, inr,
  arith, le→leb, equal_refl,
}
use oneiro_ostis.Store.Graph.{
  Content, Key, head_key, entry_key, current_key, key_beq, Envelope, Head, Pointer, Link, head,
  entry, pointer, Call, write, classify, relate, Graph, perform, perform_all,
}
use oneiro_ostis.Store.Writer.{
  agree, is_absent, finish, finish_calls, relate_to, head_after, pending_head, may_write,
  envelope_beq, text_option_beq, get_head,
}
use oneiro_ostis.Store.Spec.{
  newest, find_op, find_id, entry_link, pointer_link, pointer_to, head_of, Follows, Holds,
}

module _ {R : Type 0} where
  pub perform_all-append :
      (xs ys : List (Call R)) (g : Graph R)
      → perform_all (xs ++ ys) g ≡ perform_all ys (perform_all xs g)
  unfolding perform_all
  perform_all-append [] ys g = refl
  perform_all-append (x ∷ xs) ys g = perform_all-append xs ys (perform x g)

pub text_option_beq_refl : (o : Option String) → text_option_beq o o ≡ true
text_option_beq_refl none = refl
text_option_beq_refl (some s) = equal_refl s

module _ {R : Type 0} ⦃c : Content R⦄ where
  pub envelope_beq_refl : (e : Envelope R) → envelope_beq e e ≡ true
  envelope_beq_refl e =
      let a = equal_refl e.operation in
      let b = (nat_beq_iff e.sequence e.sequence).1 refl in
      let d = (nat_beq_iff e.revision e.revision).1 refl in
      let p = text_option_beq_refl e.previous in
      let q = text_option_beq_refl e.previous_revision in
      let r = (c.same.equal_iff e.content e.content).1 refl in rw (a, b, d, p, q, r)

  -- What a reader finds after all the calls.
  after : Envelope R → (Key → Option (Link R)) → Key → Option (Link R)
  after e read k =
      if key_beq head_key k
      then some (head (head_after e))
      else if key_beq (current_key (c.id_of e.content)) k
      then some (pointer (pointer_to e))
      else if key_beq (entry_key e.operation) k
      then some (entry e)
      else read k

  -- The relations that the calls draw change no link.
  read-finish_calls :
      (op id kind : String) (p q : Option String) (e : Envelope R) (ptr : Pointer) (last : Head R)
      (g : Graph R) (k : Key)
      → (perform_all
            ((write (entry_key op) (entry e)
                ∷ classify op kind
                ∷ (relate_to op p "nrel_oneiro_previous"
                    ++ (relate_to op q "nrel_oneiro_previous_revision"
                        ++ (relate (entry_key op) head_key "nrel_oneiro_publication"
                            ∷ write (current_key id) (pointer ptr)
                            ∷ []))))
              ++ (write head_key (head last) ∷ []))
            g).read
          k
        ≡ (if key_beq head_key k
            then some (head last)
            else if key_beq (current_key id) k
            then some (pointer ptr)
            else if key_beq (entry_key op) k
            then some (entry e)
            else g.read k)
  unfolding perform_all perform
  read-finish_calls op id kind none none e ptr last g k = refl
  read-finish_calls op id kind (some p) none e ptr last g k = refl
  read-finish_calls op id kind none (some q) e ptr last g k = refl
  read-finish_calls op id kind (some p) (some q) e ptr last g k = refl

  read-after :
      (e : Envelope R) (g : Graph R) (k : Key)
      → (perform_all (finish_calls e) g).read k ≡ after e g.read k
  unfolding after
  read-after e g k =
      read-finish_calls e.operation (c.id_of e.content) (c.kind_of e.content) e.previous
        e.previous_revision e (pointer_to e) (head_after e) g k

  head_read :
      (e : Envelope R) (read : Key → Option (Link R))
      → after e read head_key ≡ some (head (head_after e))
  unfolding after
  head_read e read = refl

  pub get_head-some :
      (g : Graph R) (h : Head R)
      → g.read head_key ≡ some (head h)
      → agree (nat_beq h.count 0) (is_absent h.tail) ≡ true
      → get_head g ≡ ok h
  unfolding get_head
  get_head-some g h p q = rw (p, q)

  -- A publication under way: the head names it as pending, its own entry and the pointer to its
  -- record may or may not be written, and every other link is the log's.
  pub record IsMidway (e : Envelope R) (log : List (Envelope R)) (g : Graph R) : Type 0 where
    pub announced : g.read head_key ≡ some (head (pending_head (head_of log) e))
    pub own_entry : may_write e (g.read (entry_key e.operation)) ≡ true
    pub entries :
        (op : String)
        → (e.operation == op) ≡ false
        → g.read (entry_key op) ≡ entry_link (find_op op log)
    pub currents :
        (id : String)
        → (c.id_of e.content == id) ≡ false
        → g.read (current_key id) ≡ pointer_link (find_id id log)

  module _ (e : Envelope R) (log : List (Envelope R)) (follows : Follows e log) (g : Graph R)
      (mid : IsMidway e log g) where
    -- From there `_finish` succeeds, and the graph holds the log with the new revision.
    pub finish-IsMidway :
        finish (pending_head (head_of log) e) e g ≡ (ok tt, perform_all (finish_calls e) g)
    unfolding finish
    finish-IsMidway =
        let a : nat_beq e.sequence (length log + 1) ≡ true =
          (nat_beq_iff e.sequence (length log + 1)).1 follows.numbered in
        let b : text_option_beq e.previous (newest log) ≡ true =
          ap (λ o. text_option_beq o (newest log)) follows.linked
          ∙ text_option_beq_refl (newest log) in
        let d : leb 1 e.revision ≡ true = le→leb 1 e.revision (omega (arith, follows.revised)) in
        rw (a, b, d, follows.sound, mid.own_entry)

    entries_after :
        (op : String) → after e g.read (entry_key op) ≡ entry_link (find_op op (e ∷ log))
    unfolding after
    entries_after op = elim (Bool-cases (e.operation == op)) [
      | inl same ↦ rw same
      | inr other ↦ rw other (mid.entries op other)
    ]

    currents_after :
        (id : String) → after e g.read (current_key id) ≡ pointer_link (find_id id (e ∷ log))
    unfolding after
    currents_after id = elim (Bool-cases (c.id_of e.content == id)) [
      | inl same ↦ rw same
      | inr other ↦ rw other (mid.currents id other)
    ]

    idle_after : get_head (perform_all (finish_calls e) g) ≡ ok (head_of (e ∷ log))
    idle_after =
        let number : e.sequence ≡ suc (length log) = omega (arith, follows.numbered) in
        get_head-some (perform_all (finish_calls e) g) (head_after e)
          (read-after e g head_key ∙ head_read e g.read) (ground arith)
        ∙ ap (λ n. ok (record { tail = some e.operation; count = n; pending = none })) number

    pub finished-Holds : Holds (perform_all (finish_calls e) g) (e ∷ log)
    finished-Holds = record {
      idle = idle_after;
      entries = λ op. read-after e g (entry_key op) ∙ entries_after op;
      currents = λ id. read-after e g (current_key id) ∙ currents_after id;
    }
