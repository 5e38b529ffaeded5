-- ===== src/Tests/Recall.antt =====
-- The bounded reads: over the store of the tests, and over a source whose first page alone reads as
-- many revisions as the bound allows.
use oneiro_ostis.Prelude.{
  ℕ, ◌≡◌, refl, Bool, true, Option, none, some, List, [], ◌∷◌, ok, ◌<◌, arith, keep_if, length,
  nat_beq, leb, string_comparable,
}
use mathlib.Core.List.{head?}
use oneiro_ostis.Store.Graph.{Envelope}
use oneiro_ostis.Store.Page.{page}
use oneiro_ostis.Store.Spec.{publish}
use oneiro_ostis.Store.Graph.{is_name}
use oneiro_ostis.Store.Refinement.Append.{publish_all}
use oneiro_ostis.Recall.{Answer, Scan, scan, scan_from, newest_of, latest}
use oneiro_ostis.Recall.Complete.{PageSource, Served, Reports, latest-newest, latest-gives_up, Dry}
use oneiro_ostis.Recall.Stored.{served, scan-Stored}
use oneiro_ostis.Records.Stored.{
  is_named_record, AnyRecord, any_base, kind_name, same_record, is_sound_record,
}
use oneiro_ostis.Tests.Store.{content, graph, log, log-IsChain, graph-Holds}

abbrev keep : Envelope AnyRecord → Bool
keep e = true

two_rows : length log < 3
unfolding publish_all publish is_name is_sound_record is_named_record same_record any_base kind_name
two_rows = omega arith

scan-Stored_example :
    (s : Scan (Envelope AnyRecord)) × (scan
        (λ cursor. served (page (λ r. true) (some 500) 10 cursor graph))
        3
        keep
        (some 1)
        2000
      ≡ some s)
    × Reports (keep_if keep log) (some 1) s
scan-Stored_example =
    scan-Stored 10 graph log (omega arith) log-IsChain graph-Holds 3 keep (some 1) 2000 two_rows

-- Two rows, each on a page of its own; the first page has read 2000 revisions.
abbrev rows : List ℕ
rows = 0 ∷ 1 ∷ []

data Place : Option Bool → List ℕ → Type 0 where
  at_start : Place none rows
  at_end : Place (some true) (1 ∷ [])

abbrev page_at : Option Bool → Answer ℕ Bool
page_at none = record { items = 0 ∷ []; skipped = 0; scanned = 2000; cursor = some true }
page_at (some b) = record { items = 1 ∷ []; skipped = 0; scanned = 1; cursor = none }

serve_all : (c : Option Bool) (older : List ℕ) → Place c older → Served (page_at c) Place older
serve_all c older at_start = record {
  rest = 1 ∷ [];
  shows = refl;
  ends = λ last. ground arith;
  goes_on = λ more. (at_end, omega arith);
}
serve_all c older at_end = record {
  rest = [];
  shows = refl;
  ends = λ last. refl;
  goes_on = λ more. ground arith;
}

abbrev source : PageSource ℕ Bool
source = record {
  memory_page = page_at;
  stream = rows;
  At = Place;
  starts = at_start;
  serve = serve_all;
}

finds_first : latest page_at 3 (λ n. leb n 1) ≡ ok (some 0)
unfolding latest scan scan_from newest_of
finds_first = refl

latest-newest_example : head? (keep_if (λ n. leb n 1) rows) ≡ some 0
latest-newest_example = latest-newest source 3 (λ n. leb n 1) 0 (omega arith) finds_first

first_is_Dry : Dry source 1 (λ n. nat_beq n 1) none
first_is_Dry = (refl, refl, refl, tt)

-- The second row fits, and `latest` says that there is none.
latest-gives_up_example : latest page_at 3 (λ n. nat_beq n 1) ≡ ok none
latest-gives_up_example =
    latest-gives_up source 1 3 (λ n. nat_beq n 1) first_is_Dry (omega arith) (omega arith)
