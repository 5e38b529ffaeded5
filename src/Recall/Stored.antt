-- ===== src/Recall/Stored.antt =====
-- The pages of the store (python/oneiro/store.py), as the source that python/oneiro/recall.py reads.
use mathlib.Core.List.{append_assoc}
use mathlib.Core.Option.{some-ne-none}
use oneiro_ostis.Prelude.{
  ℕ, ◌≤◌, ◌<◌, ◌≡◌, refl, sym, ap, ◌∙◌, Bool, true, false, Option, none, some, List, [], ◌∷◌, ◌++◌,
  Result, ok, err, length, length-append, keep_if, arith,
}
use oneiro_ostis.Store.Graph.{Content, Envelope, Graph, StoreError}
use oneiro_ostis.Store.Spec.{IsChain, Holds}
use oneiro_ostis.Store.Page.{Cursor, QueryPage, with_total, page, check_limit}
use oneiro_ostis.Store.Page.Walk.{Opens, page-Holds, cursor_of, place_of, Bounded}
use oneiro_ostis.Recall.{Answer, Scan, is_last, page_size, scan}
use oneiro_ostis.Recall.Complete.{PageSource, Reports, scan-Reports}

keep_all {ℓ} : {A : Type ℓ} (xs : List A) → keep_if (λ _. true) xs ≡ xs
keep_all [] = refl
keep_all (x ∷ xs) = ap (λ t. x ∷ t) (keep_all xs)

-- A page as `memory_page` hands it on. A refusal of the store, which raises in the source, shows
-- nothing; over a graph that holds a log there is none.
abbrev pub served : {R : Type 0} → Result StoreError (QueryPage R) → Answer (Envelope R) Cursor
served (ok p) = record {
  items = p.found.items;
  skipped = p.found.skipped;
  scanned = p.found.scanned;
  cursor = p.cursor;
}
served (err x) = record { items = []; skipped = 0; scanned = 0; cursor = none }

abbrev pub everything : {R : Type 0} → R → Bool
everything r = true

no_rest :
    {R : Type 0} (total : ℕ) (rest : List (Envelope R))
    → is_last (with_total total (cursor_of rest)) ≡ true
    → rest ≡ []
no_rest total [] h = refl
no_rest total (x ∷ rest) h = cc

longer :
    {R : Type 0} (items rest older : List R)
    → items ++ rest ≡ older
    → 1 ≤ length rest
    → 1 ≤ length older
longer items rest older e h = omega (arith, length-append items rest, ap length e)

module _ {R : Type 0} ⦃c : Content R⦄ (scan_limit : ℕ) (g : Graph R) (log : List (Envelope R))
    (positive : 1 ≤ scan_limit) (chain : IsChain log) (h : Holds g log) where
  -- `memory_page` with the page size of `scan` and the scan limit of the store.
  abbrev memory_page : Option Cursor → Answer (Envelope R) Cursor
  memory_page cursor = served (page everything (some page_size) scan_limit cursor g)

  record IsServed (cursor : Option Cursor) (total : ℕ) (older : List (Envelope R))
      (rest : List (Envelope R)) : Type 0 where
    shown : (memory_page cursor).items ++ rest ≡ older
    resumes : (memory_page cursor).cursor ≡ with_total total (cursor_of rest)
    bounded : Bounded log (memory_page cursor).cursor
    on : 1 ≤ length older → length rest < length older

  serve :
      (cursor : Option Cursor) (older : List (Envelope R))
      → Opens log cursor older
      → (rest : List (Envelope R)) × (total : ℕ) × IsServed cursor total older rest
  serve cursor older starts =
      let (q, rest, answered, good, kept, next, bounds) =
        page-Holds everything g log chain h (some page_size) page_size scan_limit cursor older
          (unfold check_limit in refl) starts in
      let p = q.found in
      (
        rest,
        q.candidates,
        record {
          shown =
              rw answered
                (ap (λ t. p.items ++ t) (sym (keep_all rest)) ∙ good.whole ∙ keep_all older);
          resumes = rw answered next;
          bounded = rw answered bounds;
          on = λ some_left. omega (arith, good.counted, good.moves, positive, some_left);
        },
      )

  origin :
      (cursor : Option Cursor) (older : List (Envelope R))
      → Opens log cursor older
      → (newer : List (Envelope R)) × (log ≡ newer ++ older)
  origin none older starts = ([], sym starts.0)
  origin (some place) older starts = (starts.0.0, starts.0.1)

  -- A cursor is where the rest of the log starts.
  cursor-Opens :
      (at : Option Cursor) (total : ℕ) (newer rest : List (Envelope R))
      → log ≡ newer ++ rest
      → at ≡ with_total total (cursor_of rest)
      → Bounded log at
      → is_last at ≡ false
      → Opens log at rest × (1 ≤ length rest)
  cursor-Opens none total newer rest whole e bounds more = cc
  cursor-Opens (some place) total newer [] whole e bounds more = absurd (some-ne-none place e)
  cursor-Opens (some place) total newer (x ∷ rest) whole e bounds more =
      (((newer, whole, ap place_of (sym e)), bounds), omega arith)

  -- The pages of a graph that holds a log are a source that serves the log.
  pub store_source : PageSource (Envelope R) Cursor
  store_source = record {
    memory_page = memory_page;
    stream = log;
    At = Opens log;
    starts = (refl, tt);
    serve = λ cursor older starts.
        let (rest, total, s) = serve cursor older starts in
        let (newer, whole) = origin cursor older starts in
        record {
          rest = rest;
          shows = s.shown;
          ends = λ last. no_rest total rest (ap is_last (sym s.resumes) ∙ last);
          goes_on = λ more.
              let all =
                whole
                ∙ ap (λ t. newer ++ t) (sym s.shown)
                ∙ sym (append_assoc newer (memory_page cursor).items rest) in
              let (there, some_left) =
                cursor-Opens (memory_page cursor).cursor total (newer ++ (memory_page cursor).items)
                  rest all s.resumes s.bounded more in
              (there, s.on (longer (memory_page cursor).items rest older s.shown some_left));
        };
  }

  -- The reads of `recall.scan` over a store that holds a log: with more rounds than the log has
  -- revisions the scan ends, what it reports is the beginning of the matching revisions, newest
  -- first, no more than were wanted, and all of them unless it says that it is not complete.
  pub scan-Stored :
      (rounds : ℕ) (keep : Envelope R → Bool) (want : Option ℕ) (bound : ℕ)
      → length log < rounds
      → (s : Scan (Envelope R)) × (scan memory_page rounds keep want bound ≡ some s)
        × Reports (keep_if keep log) want s
  unfolding store_source
  scan-Stored rounds keep want bound enough =
      scan-Reports store_source rounds keep want bound enough
