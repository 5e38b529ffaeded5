-- ===== src/Records/Lifecycle.antt =====
-- What `with_state` (python/oneiro/records.py) promises for every kind of record.
use mathlib.Core.Path.{subst}
use oneiro_ostis.Prelude.{
  String, ◌≡◌, ◌≢◌, All, refl, ap, sym, ◌∙◌, true, inl, inr, none, List, [], ◌∷◌, Result, ok, err,
  ◌>>=◌, arith, Bool-cases, >>=-eq-ok,
}
use oneiro_ostis.Records.Base.{
  State, Base, RecordClass, RecordError, is_terminal, is_state, is_state_iff, checked, touch, move,
  with_state,
}

err-ne-ok {ℓ κ} : {E : Type ℓ} {A : Type κ} {e : E} {a : A} → err e ≢ ok a
err-ne-ok h = cc

module _ {R : Type 0} ⦃c : RecordClass R⦄ where
  checked-eq-ok : (r : R) {s : R} → checked r ≡ ok s → s ≡ r
  checked-eq-ok r h = ground (arith, >>=-eq-ok (c.post_init r) (λ _. ok r) h)

  base-touch :
      (now : String) (changes : R → R) (r : R)
      → c.base (changes r) ≡ c.base r
      → c.base (touch now changes r) ≡ record (c.base r) { updated_at = now }
  base-touch now changes r same =
      c.base-set_base (changes r) _ ∙ ap (λ (b : Base). record b { updated_at = now }) same

  base-move :
      (now : String) (target : State) (changes : R → R) (r : R)
      → c.base (changes r) ≡ c.base r
      → c.base (move now target changes r) ≡ record (c.base r) { state = target; updated_at = now }
  base-move now target changes r same =
      c.base-set_base (changes r) _
      ∙ ap (λ (b : Base). record b { state = target; updated_at = now }) same

  -- Of the fields that every record has, a successful move that does not reopen and whose other
  -- changes leave those fields alone writes the state and the time of the update and nothing
  -- else; and a finished record moves only to the state it has.
  pub base-with_state :
      (now : String) (target : State) (changes : R → R) (r : R) {s : R}
      → c.base (changes r) ≡ c.base r
      → with_state now target none changes r ≡ ok s
      → (c.base s ≡ record (c.base r) { state = target; updated_at = now })
        × (is_terminal (c.base r).state ≡ true → target ≡ (c.base r).state)
  unfolding with_state
  base-with_state now target changes r {s} same h =
      elim (Bool-cases (is_state target (c.base r).state)) [
        | inl e ↦
            let same_state : target ≡ (c.base r).state =
              (is_state_iff target (c.base r).state).0 e in
            let touched : s ≡ touch now changes r =
              checked-eq-ok (touch now changes r) (rw e at h) in
            (
              ap c.base touched
                  ∙ base-touch now changes r same
                  ∙ ap (λ t. record (c.base r) { state = t; updated_at = now }) (sym same_state),
              λ _. same_state,
            )
        | inr e ↦ elim (Bool-cases (is_terminal (c.base r).state)) [
          | inl finished ↦ absurd (err-ne-ok (rw (e, finished) at h))
          | inr unfinished ↦ (
            ap c.base (checked-eq-ok (move now target changes r) (rw (e, unfinished) at h))
                ∙ base-move now target changes r same,
            λ finished. cc,
          )
        ]
      ]

  -- A record moved through a list of states, at one time after another, with no other change.
  unfoldable pub life : List (String × State) → R → Result RecordError R
  life [] r = ok r
  life ((now, target) ∷ rest) r = with_state now target none (λ x. x) r >>= life rest

  -- However a record is moved, it keeps its identifier, its kind of claim and the time of its
  -- creation, if every move of the list succeeds.
  pub identity_for_good :
      (moves : List (String × State)) (r : R) {s : R}
      → life moves r ≡ ok s
      → ((c.base s).id ≡ (c.base r).id)
        × ((c.base s).provenance ≡ (c.base r).provenance)
        × ((c.base s).created_at ≡ (c.base r).created_at)
  unfolding life
  identity_for_good [] r {s} h =
      let e : s ≡ r = ground arith in
      (
        ap (λ x. (c.base x).id) e,
        ap (λ x. (c.base x).provenance) e,
        ap (λ x. (c.base x).created_at) e,
      )
  identity_for_good ((now, target) ∷ rest) r {s} h =
      let (t, moved, later) = >>=-eq-ok (with_state now target none (λ x. x) r) (life rest) h in
      let (base_eq, stays) = base-with_state now target (λ x. x) r refl moved in
      let (same_id, same_claim, same_birth) = identity_for_good rest t later in
      (
        same_id ∙ ap (λ (b : Base). b.id) base_eq,
        same_claim ∙ ap (λ (b : Base). b.provenance) base_eq,
        same_birth ∙ ap (λ (b : Base). b.created_at) base_eq,
      )

  -- A record that is completed, failed or cancelled stays so: a list of moves, none of which
  -- reopens, succeeds on it only if every one of them asks for the state it has.
  pub finished_for_good :
      (moves : List (String × State)) (r : R) {s : R}
      → is_terminal (c.base r).state ≡ true
      → life moves r ≡ ok s
      → ((c.base s).state ≡ (c.base r).state)
        × All (λ (m : String × State). m.1 ≡ (c.base r).state) moves
  unfolding life
  finished_for_good [] r {s} finished h =
      let e : s ≡ r = ground arith in (ap (λ x. (c.base x).state) e, tt)
  finished_for_good ((now, target) ∷ rest) r {s} finished h =
      let (t, moved, later) = >>=-eq-ok (with_state now target none (λ x. x) r) (life rest) h in
      let (base_eq, stays) = base-with_state now target (λ x. x) r refl moved in
      let there : (c.base t).state ≡ target = ap (λ (b : Base). b.state) base_eq in
      let still : (c.base t).state ≡ (c.base r).state = there ∙ stays finished in
      let (end, all) = finished_for_good rest t (ap is_terminal still ∙ finished) later in
      (
        end ∙ still,
        (stays finished, subst (λ x. All (λ (m : String × State). m.1 ≡ x) rest) still all),
      )
