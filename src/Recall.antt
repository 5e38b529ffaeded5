-- ===== src/Recall.antt =====
-- python/oneiro/recall.py: bounded reads over the stream of revisions. The source of pages is the
-- interface `PageSource`; `Recall.Complete` says what the reads promise over a source that serves
-- a stream, and `Recall.Stored` that the store's pages are such a source.
pub mod Complete
pub mod Stored
use mathlib.Core.List.{head?}
use oneiro_ostis.Prelude.{
  ℕ, zero, suc, ◌+◌, String, Bool, true, false, ◌&&◌, Option, none, some, List, [], ◌∷◌, ◌++◌, ◌==◌,
  string_comparable, Result, ok, err, length, take, keep_if, ltb, leb, nat_beq, if◌then◌else◌,
}

-- `PAGE` and `MAX_SCANNED`
abbrev pub page_size : ℕ
page_size = 500

abbrev pub max_scanned : ℕ
max_scanned = 2000

-- What `memory_page` answers.
pub record Answer (Row Cursor : Type 0) : Type 0 where
  pub items : List Row
  pub skipped : ℕ
  pub scanned : ℕ
  pub cursor : Option Cursor

pub record Scan (Row : Type 0) : Type 0 where
  pub rows : List Row
  pub scanned : ℕ
  pub skipped : ℕ
  pub complete : Bool

-- `int(page.get("scanned") or len(items))`
abbrev pub counted : {Row Cursor : Type 0} → Answer Row Cursor → ℕ
counted a = if nat_beq a.scanned 0 then length a.items else a.scanned

-- `want is not None and len(rows) > want`
abbrev pub is_over {ℓ} : {A : Type ℓ} → Option ℕ → List A → Bool
is_over none rows = false
is_over (some w) rows = ltb w (length rows)

-- `want is not None and len(rows) == want`
abbrev pub is_full {ℓ} : {A : Type ℓ} → Option ℕ → List A → Bool
is_full none rows = false
is_full (some w) rows = nat_beq (length rows) w

-- `rows[:want]`
abbrev pub at_most {ℓ} : {A : Type ℓ} → Option ℕ → List A → List A
at_most none rows = rows
at_most (some w) rows = take w rows

abbrev pub is_last {ℓ} : {A : Type ℓ} → Option A → Bool
is_last none = true
is_last (some c) = false

abbrev pub report : {Row : Type 0} → List Row → ℕ → ℕ → Bool → Scan Row
report rows scanned skipped complete = record {
  rows = rows;
  scanned = scanned;
  skipped = skipped;
  complete = complete;
}

-- Why `latest` has no answer: a newer revision could not be read, or the rounds ran out.
pub data LatestError : Type 0 where
  unreadable out_of_rounds : LatestError

module _ {Row Cursor : Type 0} (memory_page : Option Cursor → Answer Row Cursor) where
  -- The loop of `scan`, a round for each page. `none` says that the rounds ran out.
  unfoldable pub scan_from :
      ℕ → (Row → Bool) → Option ℕ → ℕ → List Row → ℕ → ℕ → Option Cursor → Option (Scan Row)
  scan_from zero keep want bound rows scanned skipped cursor = none
  scan_from (suc rounds) keep want bound rows scanned skipped cursor =
      let page = memory_page cursor in
      let rows' = rows ++ keep_if keep page.items in
      let scanned' = scanned + counted page in
      let skipped' = skipped + page.skipped in
      let on = scan_from rounds keep want bound rows' scanned' skipped' page.cursor in
      if is_over want rows'
      then some (report (at_most want rows') scanned' skipped' false)
      else if is_last page.cursor
      then some (report rows' scanned' skipped' true)
      else if is_full want rows'
      then some (report rows' scanned' skipped' false)
      else if leb bound scanned'
      then some (report rows' scanned' skipped' false)
      else on

  unfoldable pub scan : ℕ → (Row → Bool) → Option ℕ → ℕ → Option (Scan Row)
  scan rounds keep want bound = scan_from rounds keep want bound [] 0 0 none

  unfoldable pub newest_of : Option (Scan Row) → Result LatestError (Option Row)
  newest_of none = err out_of_rounds
  newest_of (some found) = if nat_beq found.skipped 0 then ok (head? found.rows) else err unreadable

  -- `latest`, whose caller asks for one kind and one identifier.
  unfoldable pub latest : ℕ → (Row → Bool) → Result LatestError (Option Row)
  unfolding scan newest_of
  latest rounds is_it = newest_of (scan rounds is_it (some 1) max_scanned)
