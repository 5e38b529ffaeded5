-- ===== src/Store/Page/Walk.antt =====
-- The pages of python/oneiro/store.py against the log that the graph holds: no row is lost between
-- a page and the one that its cursor opens, and none is shown twice.
use mathlib.Core.Path.{subst}
use mathlib.Core.Option.{none-ne-some, some-injective}
use Prim.Native.Nat.{min}
use oneiro_ostis.Prelude.{
  le→leb, leb, ℕ, zero, suc, ◌+◌, ◌-◌, ◌≤◌, String, ◌≡◌, refl, sym, ap, ◌∙◌, Bool, true, false,
  Option, none, some, List, [], ◌∷◌, ◌++◌, All, ok, ◌>>=◌, length, keep_if, if◌then◌else◌,
  Bool-cases, inl, inr, arith,
}
use oneiro_ostis.Store.Graph.{Content, Envelope, Graph}
use oneiro_ostis.Store.Writer.{get_envelope}
use oneiro_ostis.Store.Spec.{newest, head_of, IsChain, Holds}
use oneiro_ostis.Store.Chain.{IsEntry, All-entries}
use oneiro_ostis.Store.Refinement.Reads.{get_envelope-Holds, idle_head-Holds}
use oneiro_ostis.Store.Page.{
  Page, stop_at, with_item, without_item, walk, position, check_limit, page, Cursor, QueryPage,
  query_page, with_total,
}

module _ {R : Type 0} where
  abbrev pub cursor_of : List (Envelope R) → Option (String × ℕ)
  cursor_of [] = none
  cursor_of (e ∷ log) = some (e.operation, suc (length log))

-- Where a page starts: at the head, or at the cursor of an older part of the log.
abbrev pub Starts :
    {R : Type 0} → List (Envelope R) → Option (String × ℕ) → List (Envelope R) → Type 0
Starts log none older = older ≡ log
Starts {R} log (some place) older =
    (newer : List (Envelope R)) × (log ≡ newer ++ older) × (cursor_of older ≡ some place)

abbrev pub place_of : Option Cursor → Option (String × ℕ)
place_of none = none
place_of (some (place, total)) = some place

abbrev pub total_of : {R : Type 0} → List (Envelope R) → Option Cursor → ℕ
total_of log none = length log
total_of log (some (place, total)) = total

-- The total of a cursor lies between its place and the number of revisions.
abbrev pub Bounded : {R : Type 0} → List (Envelope R) → Option Cursor → Type 0
Bounded log none = Unit
Bounded log (some (place, total)) = (place.1 ≤ total) × (total ≤ length log)

abbrev pub Opens : {R : Type 0} → List (Envelope R) → Option Cursor → List (Envelope R) → Type 0
Opens log cursor older = Starts log (place_of cursor) older × Bounded log cursor

module _ {R : Type 0} (matches : R → Bool) where
  abbrev pub rows : List (Envelope R) → List (Envelope R)
  rows log = keep_if (λ (e : Envelope R). matches e.content) log

  -- The page as a function of the log, and the part of the log behind it.
  abbrev pub read_log : ℕ → ℕ → List (Envelope R) → Page R
  read_log want budget [] = stop_at none
  read_log want zero (e ∷ log) = stop_at (cursor_of (e ∷ log))
  read_log zero (suc budget) (e ∷ log) = stop_at (cursor_of (e ∷ log))
  read_log (suc want) (suc budget) (e ∷ log) =
      if matches e.content
      then with_item e (read_log want budget log)
      else without_item (read_log (suc want) budget log)

  abbrev pub behind : ℕ → ℕ → List (Envelope R) → List (Envelope R)
  behind want budget [] = []
  behind want zero (e ∷ log) = e ∷ log
  behind zero (suc budget) (e ∷ log) = e ∷ log
  behind (suc want) (suc budget) (e ∷ log) =
      if matches e.content then behind want budget log else behind (suc want) budget log

  pub record IsPage (want budget : ℕ) (log : List (Envelope R)) (p : Page R)
      (rest : List (Envelope R)) : Type 0 where
    pub whole : p.items ++ rows rest ≡ rows log
    pub resumes : p.resume ≡ cursor_of rest
    pub counted : p.scanned + length rest ≡ length log
    pub bounded : length p.items ≤ want
    pub budgeted : p.scanned ≤ budget
    pub moves : min want (min budget (length log)) ≤ p.scanned
    pub readable : p.skipped ≡ 0

  rows_kept :
      (e : Envelope R) (log : List (Envelope R))
      → matches e.content ≡ true
      → rows (e ∷ log) ≡ e ∷ rows log
  rows_kept e log h = rw h

  rows_dropped :
      (e : Envelope R) (log : List (Envelope R))
      → matches e.content ≡ false
      → rows (e ∷ log) ≡ rows log
  rows_dropped e log h = rw h

  read_log-IsPage :
      (want budget : ℕ) (log : List (Envelope R))
      → IsPage want budget log (read_log want budget log) (behind want budget log)
  read_log-IsPage want budget [] = record {
    whole = refl;
    resumes = refl;
    counted = refl;
    bounded = omega arith;
    budgeted = omega arith;
    moves = omega arith;
    readable = refl;
  }
  read_log-IsPage want zero (e ∷ log) = record {
    whole = refl;
    resumes = refl;
    counted = omega arith;
    bounded = omega arith;
    budgeted = omega arith;
    moves = omega arith;
    readable = refl;
  }
  read_log-IsPage zero (suc budget) (e ∷ log) = record {
    whole = refl;
    resumes = refl;
    counted = omega arith;
    bounded = omega arith;
    budgeted = omega arith;
    moves = omega arith;
    readable = refl;
  }
  read_log-IsPage (suc want) (suc budget) (e ∷ log) = elim (Bool-cases (matches e.content)) [
    | inl yes_ ↦
        let h = read_log-IsPage want budget log in
        rw yes_ (record {
          whole = ap (λ t. e ∷ t) h.whole ∙ sym (rows_kept e log yes_);
          resumes = h.resumes;
          counted = omega (arith, h.counted);
          bounded = omega (arith, h.bounded);
          budgeted = omega (arith, h.budgeted);
          moves = omega (arith, h.moves);
          readable = h.readable;
        })
    | inr no_ ↦
        let h = read_log-IsPage (suc want) budget log in
        rw no_ (record {
          whole = h.whole ∙ sym (rows_dropped e log no_);
          resumes = h.resumes;
          counted = omega (arith, h.counted);
          bounded = h.bounded;
          budgeted = omega (arith, h.budgeted);
          moves = omega (arith, h.moves);
          readable = h.readable;
        })
  ]

All-suffix {ℓ κ} : {A : Type ℓ} (P : A → Type κ) (xs ys : List A) → All P (xs ++ ys) → All P ys
All-suffix P [] ys h = h
All-suffix P (x ∷ xs) ys h = All-suffix P xs ys h.1

module _ {R : Type 0} ⦃c : Content R⦄ where
  IsChain-suffix : (newer older : List (Envelope R)) → IsChain (newer ++ older) → IsChain older
  IsChain-suffix [] older ch = ch
  IsChain-suffix (x ∷ newer) older ch = IsChain-suffix newer older ch.1

module _ {R : Type 0} ⦃c : Content R⦄ (matches : R → Bool) (g : Graph R) (log : List (Envelope R))
    (chain : IsChain log) (h : Holds g log) where
  walk_kept :
      (want budget : ℕ) (e : Envelope R) (sequence : ℕ)
      → get_envelope g e.operation sequence ≡ ok e
      → c.is_sound e.content ≡ true
      → matches e.content ≡ true
      → walk matches (suc want) (suc budget) (some e.operation) sequence g
        ≡ (walk matches want budget e.previous (sequence - 1) g >>= λ p. ok (with_item e p))
  unfolding walk
  walk_kept want budget e sequence found sound kept = rw (found, sound, kept)

  walk_dropped :
      (want budget : ℕ) (e : Envelope R) (sequence : ℕ)
      → get_envelope g e.operation sequence ≡ ok e
      → c.is_sound e.content ≡ true
      → matches e.content ≡ false
      → walk matches (suc want) (suc budget) (some e.operation) sequence g
        ≡ (walk matches (suc want) budget e.previous (sequence - 1) g >>= λ p. ok (without_item p))
  unfolding walk
  walk_dropped want budget e sequence found sound dropped = rw (found, sound, dropped)

  walk-Holds :
      (want budget : ℕ) (older : List (Envelope R))
      → IsChain older
      → All (λ (e : Envelope R). IsEntry e log) older
      → walk matches want budget (newest older) (length older) g
        ≡ ok (read_log matches want budget older)
  walk-Holds want budget [] ch there = unfold walk in refl
  walk-Holds want zero (e ∷ older) ch there = unfold walk in refl
  walk-Holds zero (suc budget) (e ∷ older) ch there = unfold walk in refl
  walk-Holds (suc want) (suc budget) (e ∷ older) (f, ch) (entry, there) =
      let place : e.sequence ≡ suc (length older) = omega (arith, f.numbered) in
      let found : get_envelope g e.operation (suc (length older)) ≡ ok e =
        subst (λ n. get_envelope g e.operation n ≡ ok e) place
          (get_envelope-Holds g log chain h e entry) in
      let before : suc (length older) - 1 ≡ length older = omega arith in
      elim (Bool-cases (matches e.content)) [
        | inl kept ↦
            walk_kept want budget e (suc (length older)) found entry.sound kept
            ∙ rw (f.linked, before, walk-Holds want budget older ch there, kept) refl
        | inr dropped ↦
            walk_dropped want budget e (suc (length older)) found entry.sound dropped
            ∙ rw (f.linked, before, walk-Holds (suc want) budget older ch there, dropped) refl
      ]

  start_of : Option (String × ℕ) → Option String × ℕ
  start_of none = (newest log, length log)
  start_of (some place) = (some place.0, place.1)

  walk-start :
      (want budget : ℕ) (place : Option (String × ℕ)) (older : List (Envelope R))
      → Starts log place older
      → walk matches want budget (start_of place).0 (start_of place).1 g
        ≡ ok (read_log matches want budget older)
  unfolding start_of
  walk-start want budget none older starts =
      walk-Holds want budget log chain (All-entries log chain)
      ∙ ap (λ l. ok (read_log matches want budget l)) (sym starts)
  walk-start want budget (some place) [] (newer, whole, at) = absurd (none-ne-some place at)
  walk-start want budget (some place) (e ∷ older) (newer, whole, at) =
      ap (λ (q : String × ℕ). walk matches want budget (some q.0) q.1 g)
        (sym (some-injective (e.operation, suc (length older)) place at))
      ∙ walk-Holds want budget (e ∷ older)
          (IsChain-suffix newer (e ∷ older) (subst IsChain whole chain))
          (All-suffix (λ (x : Envelope R). IsEntry x log) newer (e ∷ older)
            (subst (λ l. All (λ (x : Envelope R). IsEntry x log) l) whole (All-entries log chain)))

  position-Holds :
      (cursor : Option Cursor) (older : List (Envelope R))
      → Opens log cursor older
      → position cursor (head_of log) ≡ ok (start_of (place_of cursor), total_of log cursor)
  unfolding position start_of
  position-Holds none older opens = refl
  position-Holds (some (place, total)) [] ((newer, whole, at), bounds) =
      absurd (none-ne-some place at)
  position-Holds (some ((name, sequence), total)) (e ∷ older) ((newer, whole, at), (low, high)) =
      let same = some-injective (e.operation, suc (length older)) (name, sequence) at in
      let place_is : suc (length older) ≡ sequence = ap (λ (q : String × ℕ). q.1) same in
      let first : leb 1 sequence ≡ true = le→leb 1 sequence (omega (arith, place_is)) in
      rw (first, le→leb sequence total low, le→leb total (length log) high) refl

  rest-Bounded :
      (cursor : Option Cursor) (older rest : List (Envelope R))
      → Opens log cursor older
      → length rest ≤ length older
      → Bounded log (with_total (total_of log cursor) (cursor_of rest))
  rest-Bounded cursor older [] opens shorter = tt
  rest-Bounded none older (x ∷ rest) (starts, bounds) shorter =
      (omega (arith, ap length starts, shorter), omega arith)
  rest-Bounded (some (place, total)) [] (x ∷ rest) ((newer, whole, at), bounds) shorter =
      absurd (none-ne-some place at)
  rest-Bounded (some (place, total)) (e ∷ older) (x ∷ rest) ((newer, whole, at), (low, high))
        shorter =
      let same = some-injective (e.operation, suc (length older)) place at in
      let place_is : suc (length older) ≡ place.1 = ap (λ (q : String × ℕ). q.1) same in
      (omega (arith, place_is, low, shorter), high)

  pub page-Holds :
      (limit : Option ℕ) (want budget : ℕ) (cursor : Option Cursor) (older : List (Envelope R))
      → check_limit limit ≡ ok want
      → Opens log cursor older
      → (p : QueryPage R) × (rest : List (Envelope R)) × (page matches limit budget cursor g ≡ ok p)
        × IsPage matches want budget older p.found rest
        × (p.candidates ≡ total_of log cursor)
        × (p.cursor ≡ with_total p.candidates (cursor_of rest))
        × Bounded log p.cursor
  unfolding page query_page
  page-Holds limit want budget cursor older accepted opens =
      let found = read_log matches want budget older in
      let rest = behind matches want budget older in
      let good = read_log-IsPage matches want budget older in
      let total = total_of log cursor in
      let next : with_total total found.resume ≡ with_total total (cursor_of rest) =
        ap (with_total total) good.resumes in
      let shorter : length rest ≤ length older = omega (arith, good.counted) in
      (
        query_page want budget total found,
        rest,
        rw
            (
              accepted,
              idle_head-Holds g log chain h,
              position-Holds cursor older opens,
              walk-start want budget (place_of cursor) older opens.0,
            )
            refl,
        good,
        refl,
        next,
        subst (Bounded log) (sym next) (rest-Bounded cursor older rest opens shorter),
      )
