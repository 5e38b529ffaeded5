-- ===== src/Context/Honest.antt =====
-- What the report of `reply_context` promises.
use mathlib.Core.Path.{subst}
use mathlib.Core.List.{reverse, reverse-reverse, reverse-append, reverse-cons}
use mathlib.Core.Bool.{true≢false}
use oneiro_ostis.Prelude.{
  ℕ, ◌+◌, ◌≤◌, ◌≡◌, ◌≢◌, refl, sym, ap, ◌∙◌, ◌⊎◌, inl, inr, Bool, true, false, List, [], ◌∷◌, ◌++◌,
  Result, ok, err, ltb, Bool-cases, arith,
}
use oneiro_ostis.Prelude.Text.{chars}
use oneiro_ostis.Store.Graph.{StoreError}
use oneiro_ostis.Records.Kinds.{ConversationMessage}
use oneiro_ostis.Recall.{Scan}
use oneiro_ostis.Context.{
  FactSet, Status, complete, limited, Omission, fitting, facts_part, history_part, report_of,
}

abbrev pub size : List ConversationMessage → ℕ
size [] = 0
size (m ∷ ms) = chars m.text + size ms

-- What is kept is the newest part that fits: nothing is left out unless the next one is too long.
pub record IsFitting (budget used : ℕ) (ms kept : List ConversationMessage) (cut : Bool)
    : Type 0 where
  pub left_out : List ConversationMessage
  pub parts : kept ++ left_out ≡ ms
  pub fits : used + size kept ≤ budget
  pub uncut : (cut ≡ true) ⊎ (left_out ≡ [])

fitting-IsFitting :
    (budget used : ℕ) (ms : List ConversationMessage)
    → used ≤ budget
    → IsFitting budget used ms (fitting budget used ms).0 (fitting budget used ms).1
unfolding fitting
fitting-IsFitting budget used [] low = record {
  left_out = [];
  parts = refl;
  fits = omega arith;
  uncut = inr refl;
}
fitting-IsFitting budget used (m ∷ ms) low = elim (Bool-cases (ltb budget (used + chars m.text))) [
  | inl e ↦ rw e (record { left_out = m ∷ ms; parts = refl; fits = omega arith; uncut = inl refl })
  | inr e ↦
      let h = fitting-IsFitting budget (used + chars m.text) ms (ground arith) in
      rw e (record {
        left_out = h.left_out;
        parts = ap (λ t. m ∷ t) h.parts;
        fits = omega (arith, h.fits);
        uncut = h.uncut;
      })
]

size-append : (ms ns : List ConversationMessage) → size (ms ++ ns) ≡ size ms + size ns
size-append [] ns = omega arith
size-append (m ∷ ms) ns = omega (arith, size-append ms ns)

size-reverse : (ms : List ConversationMessage) → size (reverse ms) ≡ size ms
size-reverse [] = refl
size-reverse (m ∷ ms) =
    ap size (reverse-cons m ms) ∙ size-append (reverse ms) (m ∷ []) ∙ omega (arith, size-reverse ms)

-- A part of the reversed rows from its front is a part of the rows up to their end.
turn :
    (kept left rows : List ConversationMessage)
    → kept ++ left ≡ reverse rows
    → reverse left ++ reverse kept ≡ rows
turn kept left rows h = sym (reverse-append kept left) ∙ ap reverse h ∙ reverse-reverse rows

fitting-all :
    (budget used : ℕ) (ms : List ConversationMessage)
    → (fitting budget used ms).1 ≡ false
    → (fitting budget used ms).0 ≡ ms
unfolding fitting
fitting-all budget used [] h = refl
fitting-all budget used (m ∷ ms) h = elim (Bool-cases (ltb budget (used + chars m.text))) [
  | inl e ↦ absurd (true≢false (rw e at h))
  | inr e ↦ rw e (ap (λ t. m ∷ t) (fitting-all budget (used + chars m.text) ms (rw e at h)))
]

-- The messages behind one reading of the history.
history_of :
    (limit budget : ℕ) (status : Status) (notes : List Omission) (s : Scan ConversationMessage)
    → (history_part limit budget status notes (ok s)).2
      ≡ reverse (fitting budget 0 (reverse s.rows)).0
unfolding history_part
history_of limit budget status notes s = elim (Bool-cases (fitting budget 0 (reverse s.rows)).1) [
  | inl e ↦ rw e refl
  | inr e ↦ rw e refl
]

-- The earlier messages that a reply is given are the newest of the ones that were read, in their
-- order, and together they have at most as many characters as the budget allows.
pub report_of-fits :
    (limit budget : ℕ) (facts : Result StoreError FactSet) (s : Scan ConversationMessage)
    → (older : List ConversationMessage) × (older ++ (report_of limit budget facts (ok s)).history
        ≡ s.rows)
      × (size (report_of limit budget facts (ok s)).history ≤ budget)
unfolding report_of
report_of-fits limit budget facts s =
    let kept = (fitting budget 0 (reverse s.rows)).0 in
    let h = fitting-IsFitting budget 0 (reverse s.rows) (omega arith) in
    let (status, notes, texts) = facts_part facts in
    let shown = history_of limit budget status notes s in
    (
      reverse h.left_out,
      ap (λ t. reverse h.left_out ++ t) shown ∙ turn kept h.left_out s.rows h.parts,
      omega (arith, h.fits, ap size shown, size-reverse kept),
    )

facts_complete :
    (facts : Result StoreError FactSet)
    → (facts_part facts).0 ≡ complete
    → (f : FactSet) × (facts ≡ ok f) × (f.complete ≡ true) × (f.skipped ≡ 0)
unfolding facts_part
facts_complete (err e) h = ground arith
facts_complete (ok f) h = (f, refl, ground arith, ground arith)

history_complete :
    (limit budget : ℕ) (status : Status) (notes : List Omission)
    (found : Result StoreError (Scan ConversationMessage))
    → (history_part limit budget status notes found).0 ≡ complete
    → (status ≡ complete)
      × (s : Scan ConversationMessage) × (found ≡ ok s)
      × (s.complete ≡ true)
      × ((fitting budget 0 (reverse s.rows)).1 ≡ false)
unfolding history_part
history_complete limit budget status notes (err e) h = ground arith
history_complete limit budget status notes (ok s) h =
    elim (Bool-cases (fitting budget 0 (reverse s.rows)).1) [
      | inl e ↦ absurd (limited_not (rw e at h))
      | inr e ↦ elim (Bool-cases s.complete) [
        | inl all ↦ (rw (e, all) at h, s, refl, all, e)
        | inr part ↦ absurd (limited_not (rw (e, part) at h))
      ]
    ]
  where
    limited_not : limited ≢ complete
    limited_not k = ground arith

-- If the status of a report is `complete`, the facts were read to the end and none was skipped, the
-- scan of the messages ended, and every message that it read is sent. Messages that could not be
-- read are no part of it: whatever number of them the scan skipped, the status is `complete`.
pub report_of-complete :
    (limit budget : ℕ) (facts : Result StoreError FactSet)
    (found : Result StoreError (Scan ConversationMessage))
    → (report_of limit budget facts found).status ≡ complete
    → (f : FactSet) × (s : Scan ConversationMessage) × (facts ≡ ok f)
      × (f.complete ≡ true)
      × (f.skipped ≡ 0)
      × (found ≡ ok s)
      × (s.complete ≡ true)
      × ((report_of limit budget facts found).history ≡ s.rows)
      × ((n : ℕ) → (report_of limit budget facts (ok (record s { skipped = n }))).status ≡ complete)
unfolding report_of history_part
report_of-complete limit budget facts found h =
    let (status, notes, texts) = facts_part facts in
    let (done, s, e, all, uncut) = history_complete limit budget status notes found h in
    let (f, e', all', none_skipped) = facts_complete facts done in
    (
      f,
      s,
      e',
      all',
      none_skipped,
      e,
      all,
      ap (λ r. (history_part limit budget status notes r).2) e
          ∙ history_of limit budget status notes s
          ∙ ap reverse (fitting-all budget 0 (reverse s.rows) uncut)
          ∙ reverse-reverse s.rows,
      λ n. subst (λ r. (history_part limit budget status notes r).0 ≡ complete) e h,
    )
