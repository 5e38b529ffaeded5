-- ===== src/Store/Page.antt =====
-- `page` of python/oneiro/store.py: newest first, at most `want` rows, at most `budget` revisions
-- read. A cursor is the entry to go on from and its place, with the number of revisions that the
-- first page found; its text is left out, with the version and the stream in it.
pub mod Walk
pub mod Newest
use oneiro_ostis.Prelude.{
  ℕ, zero, suc, ◌-◌, ◌≤◌, String, ◌≡◌, refl, sym, ap, ◌∙◌, Bool, true, false, Option, none, some,
  List, [], ◌∷◌, ◌++◌, Result, ok, err, ◌>>=◌, ◌>>◌, length, keep_if, if◌then◌else◌, Bool-cases,
  inl, inr, arith, leb, ltb, not, ◌&&◌,
}
use oneiro_ostis.Store.Graph.{Content, Envelope, Head, Graph, StoreError, bad_limit, bad_cursor}
use oneiro_ostis.Store.Writer.{get_envelope, idle_head, is_absent}
use oneiro_ostis.Store.Spec.{newest, head_of, IsChain, Holds, find_op}
use oneiro_ostis.Store.Chain.{IsEntry}
use oneiro_ostis.Store.Refinement.Reads.{get_envelope-Holds, idle_head-Holds}

pub record Page (R : Type 0) : Type 0 where
  pub items : List (Envelope R)
  pub skipped : ℕ
  pub scanned : ℕ
  pub resume : Option (String × ℕ)

abbrev pub Cursor : Type 0
Cursor = (String × ℕ) × ℕ

-- `QueryPage`, around what the loop found
pub record QueryPage (R : Type 0) : Type 0 where
  pub found : Page R
  pub cursor : Option Cursor
  pub candidates : ℕ
  pub truncated : Bool

module _ {R : Type 0} where
  -- One more revision read, as a row, as a row that was filtered out, or as one that cannot be read.
  abbrev pub with_item : Envelope R → Page R → Page R
  with_item e p = record p { items = e ∷ p.items; scanned = suc p.scanned }

  abbrev pub without_item : Page R → Page R
  without_item p = record p { scanned = suc p.scanned }

  abbrev pub with_skipped : Page R → Page R
  with_skipped p = record p { skipped = suc p.skipped; scanned = suc p.scanned }

  abbrev pub stop_at : Option (String × ℕ) → Page R
  stop_at where_to = record { items = []; skipped = 0; scanned = 0; resume = where_to }

-- `_check_limit` of python/oneiro/query.py: `MAX_LIMIT` and `DEFAULT_LIMIT` are 500 and 50.
unfoldable pub check_limit : Option ℕ → Result StoreError ℕ
check_limit none = ok 50
check_limit (some limit) = if leb 1 limit && leb limit 500 then ok limit else err bad_limit

-- `_position`: the entry to start at, its place, and the total.
unfoldable pub position :
    {R : Type 0} → Option Cursor → Head R → Result StoreError ((Option String × ℕ) × ℕ)
position none h = ok ((h.tail, h.count), h.count)
position (some ((name, sequence), total)) h =
    if leb 1 sequence && leb sequence total && leb total h.count
    then ok ((some name, sequence), total)
    else err bad_cursor

-- `_cursor`
abbrev pub with_total : ℕ → Option (String × ℕ) → Option Cursor
with_total total none = none
with_total total (some place) = some (place, total)

unfoldable pub query_page : {R : Type 0} → ℕ → ℕ → ℕ → Page R → QueryPage R
query_page want budget total p = record {
  found = p;
  cursor = with_total total p.resume;
  candidates = total;
  truncated = not (is_absent p.resume) && leb budget p.scanned && ltb (length p.items) want;
}

module _ {R : Type 0} ⦃c : Content R⦄ (matches : R → Bool) where
  -- The loop of `page`. A step reads one envelope and goes to the one before it.
  unfoldable pub walk : ℕ → ℕ → Option String → ℕ → Graph R → Result StoreError (Page R)
  walk want budget none sequence g = ok (stop_at none)
  walk want zero (some name) sequence g = ok (stop_at (some (name, sequence)))
  walk zero (suc budget) (some name) sequence g = ok (stop_at (some (name, sequence)))
  walk (suc want) (suc budget) (some name) sequence g = get_envelope g name sequence >>= λ e.
      let row = walk want budget e.previous (sequence - 1) g in
      let on = walk (suc want) budget e.previous (sequence - 1) g in
      if c.is_sound e.content
      then (if matches e.content
          then (row >>= λ p. ok (with_item e p))
          else (on >>= λ p. ok (without_item p)))
      else (on >>= λ p. ok (with_skipped p))

  -- `page`, from the head or from a cursor.
  unfoldable pub page : Option ℕ → ℕ → Option Cursor → Graph R → Result StoreError (QueryPage R)
  unfolding check_limit position query_page
  page limit budget cursor g = do
    want ← check_limit limit
    h ← idle_head g
    (start, total) ← position cursor h
    p ← walk want budget start.0 start.1 g
    ok (query_page want budget total p)
