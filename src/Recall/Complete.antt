-- ===== src/Recall/Complete.antt =====
-- What `scan` and `latest` of python/oneiro/recall.py promise over a source that serves a stream.
use mathlib.Core.List.{head?, append-nil, append_assoc}
use mathlib.Core.Path.{subst}
use mathlib.Core.Option.{none-ne-some}
use oneiro_ostis.Prelude.{
  ℕ, zero, suc, ◌+◌, ◌≤◌, ◌<◌, ◌⊎◌, ◌≡◌, refl, sym, ap, ◌∙◌, Bool, true, false, Option, none, some,
  List, [], ◌∷◌, ◌++◌, ok, length, take, drop, take-append-drop, length-take, keep_if,
  keep_if-append, leb, Bool-cases, inl, inr, arith,
}
use oneiro_ostis.Recall.{
  Answer, Scan, counted, is_over, is_full, at_most, is_last, report, scan_from, scan, latest,
  newest_of, max_scanned,
}

-- A page of a source of pages, at a cursor from which the rows `older` are left: it shows the
-- first of them and opens the rest, which is shorter, and a page without a cursor is the last.
pub record Served {Row Cursor : Type 0} (page : Answer Row Cursor)
    (At : Option Cursor → List Row → Type 0) (older : List Row) : Type 0 where
  pub rest : List Row
  pub shows : page.items ++ rest ≡ older
  pub ends : is_last page.cursor ≡ true → rest ≡ []
  pub goes_on : is_last page.cursor ≡ false → At page.cursor rest × (length rest < length older)

-- A source that serves one stream of rows. `At c older` says that the rows from `c` on are `older`.
pub record PageSource (Row Cursor : Type 0) : Type 1 where
  pub memory_page : Option Cursor → Answer Row Cursor
  pub stream : List Row
  pub At : Option Cursor → List Row → Type 0
  pub starts : At none stream
  pub serve : (c : Option Cursor) (older : List Row) → At c older → Served (memory_page c) At older

abbrev pub Within : Option ℕ → ℕ → Type 0
Within none n = Unit
Within (some w) n = n ≤ w

-- What a scan says of a stream with the matching rows `all`.
pub record Reports {Row : Type 0} (all : List Row) (want : Option ℕ) (s : Scan Row) : Type 0 where
  pub hidden : List Row
  pub newest_first : s.rows ++ hidden ≡ all
  pub complete_is_all : (s.complete ≡ false) ⊎ (s.rows ≡ all)
  pub bounded : Within want (length s.rows)

Reports-whole :
    {Row : Type 0} {all all' : List Row} {want : Option ℕ} {s : Scan Row}
    → all ≡ all'
    → Reports all want s
    → Reports all' want s
Reports-whole {want} {s} e h = subst (λ t. Reports t want s) e h

not_leb : (a b : ℕ) → leb a b ≡ false → b < a
not_leb a b h = ground arith

module _ {Row Cursor : Type 0} (source : PageSource Row Cursor) where
  open source use {memory_page, At, serve, stream, starts}

  at_most-Reports :
      (want : Option ℕ) (rows older : List Row) (n m : ℕ)
      → Reports (rows ++ older) want (report (at_most want rows) n m false)
  at_most-Reports none rows older n m = record {
    hidden = older;
    newest_first = refl;
    complete_is_all = inl refl;
    bounded = tt;
  }
  at_most-Reports (some w) rows older n m = record {
    hidden = drop w rows ++ older;
    newest_first =
        sym (append_assoc (take w rows) (drop w rows) older)
        ∙ ap (λ t. t ++ older) (take-append-drop w rows);
    complete_is_all = inl refl;
    bounded = omega (arith, length-take w rows);
  }

  whole-Reports :
      (want : Option ℕ) (rows older : List Row) (n m : ℕ)
      → is_over want rows ≡ false
      → Reports (rows ++ older) want (report (rows) n m false)
  whole-Reports none rows older n m h = record {
    hidden = older;
    newest_first = refl;
    complete_is_all = inl refl;
    bounded = tt;
  }
  whole-Reports (some w) rows older n m h = record {
    hidden = older;
    newest_first = refl;
    complete_is_all = inl refl;
    bounded = ground arith;
  }

  last-Reports :
      (want : Option ℕ) (rows : List Row) (n m : ℕ)
      → is_over want rows ≡ false
      → Reports rows want (report (rows) n m true)
  last-Reports none rows n m h = record {
    hidden = [];
    newest_first = append-nil rows;
    complete_is_all = inr refl;
    bounded = tt;
  }
  last-Reports (some w) rows n m h = record {
    hidden = [];
    newest_first = append-nil rows;
    complete_is_all = inr refl;
    bounded = ground arith;
  }

  scan_from-Reports :
      (rounds : ℕ) (keep : Row → Bool) (want : Option ℕ) (bound : ℕ) (rows : List Row)
      (scanned skipped : ℕ) (cursor : Option Cursor) (older : List Row)
      → At cursor older
      → length older < rounds
      → (s : Scan Row) × (scan_from memory_page rounds keep want bound rows scanned skipped cursor
          ≡ some s)
        × Reports (rows ++ keep_if keep older) want s
  unfolding scan_from
  scan_from-Reports zero keep want bound rows scanned skipped cursor older at enough =
      absurd (omega arith)
  scan_from-Reports (suc rounds) keep want bound rows scanned skipped cursor older at enough =
      let page = memory_page cursor in
      let served = serve cursor older at in
      let scanned' = scanned + counted page in
      let skipped' = skipped + page.skipped in
      let left_rows = keep_if keep served.rest in
      let rows' = rows ++ keep_if keep page.items in
      let whole : rows' ++ keep_if keep served.rest ≡ rows ++ keep_if keep older =
        append_assoc rows (keep_if keep page.items) (keep_if keep served.rest)
        ∙ ap (λ t. rows ++ t)
            (sym (keep_if-append keep page.items served.rest) ∙ ap (keep_if keep) served.shows) in
      elim (Bool-cases (is_over want rows')) [
        | inl over ↦ (
          report (at_most want rows') scanned' skipped' false,
          rw over refl,
          Reports-whole whole (at_most-Reports want rows' left_rows scanned' skipped'),
        )
        | inr under ↦ elim (Bool-cases (is_last page.cursor)) [
          | inl last ↦ (
            report rows' scanned' skipped' true,
            rw (under, last) refl,
            Reports-whole
                (sym (append-nil rows')
                  ∙ ap (λ t. rows' ++ keep_if keep t) (sym (served.ends last))
                  ∙ whole)
                (last-Reports want rows' scanned' skipped' under),
          )
          | inr more ↦ elim (Bool-cases (is_full want rows')) [
            | inl full ↦ (
              report rows' scanned' skipped' false,
              rw (under, more, full) refl,
              Reports-whole whole (whole-Reports want rows' left_rows scanned' skipped' under),
            )
            | inr room ↦ elim (Bool-cases (leb bound (scanned + counted page))) [
              | inl spent ↦ (
                report rows' scanned' skipped' false,
                rw (under, more, room, spent) refl,
                Reports-whole whole (whole-Reports want rows' left_rows scanned' skipped' under),
              )
              | inr left ↦
                  let (there, shorter) = served.goes_on more in
                  let (s, ran, good) =
                    scan_from-Reports rounds keep want bound rows' scanned' skipped' page.cursor
                      served.rest there (omega arith) in
                  (s, rw (under, more, room, left) ran, Reports-whole whole good)
            ]
          ]
        ]
      ]

  -- With more rounds than the stream has rows `scan` ends. What it reports is the beginning of
  -- the matching rows, newest first, and no more of them than were wanted; and unless it says
  -- that it is not complete, those are all the matching rows of the stream.
  pub scan-Reports :
      (rounds : ℕ) (keep : Row → Bool) (want : Option ℕ) (bound : ℕ)
      → length stream < rounds
      → (s : Scan Row) × (scan memory_page rounds keep want bound ≡ some s)
        × Reports (keep_if keep stream) want s
  unfolding scan
  scan-Reports rounds keep want bound enough =
      scan_from-Reports rounds keep want bound [] 0 0 none stream starts enough

  head?-append : (xs ys : List Row) (x : Row) → head? xs ≡ some x → head? (xs ++ ys) ≡ some x
  head?-append [] ys x h = absurd (none-ne-some x h)
  head?-append (a ∷ xs) ys x h = h

  newest_of-some :
      (s : Scan Row) (row : Row)
      → newest_of memory_page (some s) ≡ ok (some row)
      → head? s.rows ≡ some row
  unfolding newest_of
  newest_of-some s row k = ground arith

  -- What `latest` finds is the newest row that fits, whatever the bound.
  pub latest-newest :
      (rounds : ℕ) (is_it : Row → Bool) (row : Row)
      → length stream < rounds
      → latest memory_page rounds is_it ≡ ok (some row)
      → head? (keep_if is_it stream) ≡ some row
  unfolding latest
  latest-newest rounds is_it row enough h =
      let (s, ran, good) = scan-Reports rounds is_it (some 1) max_scanned enough in
      let found : head? s.rows ≡ some row = newest_of-some s row (rw ran at h) in
      subst (λ all. head? all ≡ some row) good.newest_first
        (head?-append s.rows good.hidden row found)

  -- `rounds` pages from a cursor on that show no row that fits, are all readable, and go on.
  abbrev pub Dry : ℕ → (Row → Bool) → Option Cursor → Type 0
  Dry zero is_it c = Unit
  Dry (suc k) is_it c =
      (keep_if is_it (memory_page c).items ≡ [])
      × ((memory_page c).skipped ≡ 0)
      × (is_last (memory_page c).cursor ≡ false)
      × Dry k is_it (memory_page c).cursor

  abbrev pub total : ℕ → Option Cursor → ℕ
  total zero c = 0
  total (suc k) c = counted (memory_page c) + total k (memory_page c).cursor

  gives_up :
      (k rounds : ℕ) (is_it : Row → Bool) (bound scanned : ℕ) (c : Option Cursor)
      → Dry k is_it c
      → scanned < bound
      → bound ≤ scanned + total k c
      → k ≤ rounds
      → (n : ℕ) × (scan_from memory_page rounds is_it (some 1) bound [] scanned 0 c
          ≡ some (report [] n 0 false))
  unfolding scan_from
  gives_up zero rounds is_it bound scanned c dry low high enough = absurd (omega arith)
  gives_up (suc k) zero is_it bound scanned c dry low high enough = absurd (omega arith)
  gives_up (suc k) (suc rounds) is_it bound scanned c (nothing, readable, more, dry) low high
        enough =
      elim (Bool-cases (leb bound (scanned + counted (memory_page c)))) [
        | inl spent ↦ (scanned + counted (memory_page c), rw (nothing, readable, more, spent) refl)
        | inr left ↦
            let (n, ran) =
              gives_up k rounds is_it bound (scanned + counted (memory_page c))
                (memory_page c).cursor dry (not_leb bound (scanned + counted (memory_page c)) left)
                (omega arith) (omega arith) in
            (n, rw (nothing, readable, more, left) ran)
      ]

  -- `latest` answers that nothing was ever written also when it only stopped at its bound: if some
  -- number of pages show no row that fits, are readable and have a cursor each, and together read
  -- at least `max_scanned` revisions, the answer is that there is none - whatever the rest of the
  -- stream holds.
  pub latest-gives_up :
      (k rounds : ℕ) (is_it : Row → Bool)
      → Dry k is_it none
      → max_scanned ≤ total k none
      → k ≤ rounds
      → latest memory_page rounds is_it ≡ ok none
  unfolding latest
  latest-gives_up k rounds is_it dry spent enough =
      let (n, ran) =
        gives_up k rounds is_it max_scanned 0 none dry (omega arith) (omega arith) enough in
      unfold scan in rw ran
