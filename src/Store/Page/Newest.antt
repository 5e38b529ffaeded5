-- ===== src/Store/Page/Newest.antt =====
-- `latest` of python/oneiro/store.py: the newest record that matches, or an error where the bounded
-- walk cannot say.
use mathlib.Core.List.{head?}
use mathlib.Core.Option.{none-ne-some}
use oneiro_ostis.Prelude.{
  ℕ, String, ◌≡◌, refl, ap, ◌∙◌, Bool, not, Option, none, some, List, [], ◌∷◌, ◌++◌, Result, ok,
  err, ◌>>=◌, keep_if, nat_beq, if◌then◌else◌, arith,
}
use oneiro_ostis.Store.Graph.{
  Content, Envelope, Graph, StoreError, record_unreadable, scan_truncated,
}
use oneiro_ostis.Store.Spec.{IsChain, Holds, content_of}
use oneiro_ostis.Store.Page.{Page, page, check_limit}
use oneiro_ostis.Store.Page.Walk.{page-Holds, cursor_of}

module _ {R : Type 0} where
  unfoldable pub shown_in : List (Envelope R) → Option (String × ℕ) → Result StoreError (Option R)
  shown_in (e ∷ items) resume = ok (some e.content)
  shown_in [] none = ok none
  shown_in [] (some place) = err scan_truncated

  unfoldable pub newest_in : Page R → Result StoreError (Option R)
  unfolding shown_in
  newest_in p =
      if not (nat_beq p.skipped 0) then err record_unreadable else shown_in p.items p.resume

newest-shown :
    {R : Type 0} (q : Page R) {a : Option R} → newest_in q ≡ ok a → shown_in q.items q.resume ≡ ok a
unfolding newest_in
newest-shown q h = ground arith

module _ {R : Type 0} ⦃c : Content R⦄ (matches : R → Bool) where
  -- `latest`, of the scan limit of the store.
  unfoldable pub newest_match : ℕ → Graph R → Result StoreError (Option R)
  unfolding newest_in
  newest_match budget g = page matches (some 1) budget none g >>= λ p. newest_in p.found

  shown-newest :
      (items rest all : List (Envelope R)) (resume : Option (String × ℕ)) {answer : Option R}
      → items ++ keep_if (λ (e : Envelope R). matches e.content) rest ≡ all
      → resume ≡ cursor_of rest
      → shown_in items resume ≡ ok answer
      → answer ≡ content_of (head? all)
  unfolding shown_in
  shown-newest (e ∷ items) rest all resume {answer} whole at h =
      let same : answer ≡ some e.content = ground arith in
      same ∙ ap (λ (l : List (Envelope R)). content_of (head? l)) whole
  shown-newest [] [] all none {answer} whole at h =
      let same : answer ≡ none = ground arith in
      same ∙ ap (λ (l : List (Envelope R)). content_of (head? l)) whole
  shown-newest [] (e ∷ rest) all none whole at h = absurd (none-ne-some _ at)
  shown-newest [] rest all (some place) whole at h = ground arith

  -- Over a graph that holds a log, an answer of `latest` is the truth about the whole log: the newest
  -- record that matches, and none only if there is none in all of it.
  pub newest_match-Holds :
      (g : Graph R) (log : List (Envelope R)) (budget : ℕ) {answer : Option R}
      → IsChain log
      → Holds g log
      → newest_match budget g ≡ ok answer
      → answer ≡ content_of (head? (keep_if (λ (e : Envelope R). matches e.content) log))
  unfolding newest_match check_limit
  newest_match-Holds g log budget {answer} chain held h =
      let (q, rest, found, good, kept, next, bounds) =
        page-Holds matches g log chain held (some 1) 1 budget none log refl (refl, tt) in
      let p = q.found in
      let told : newest_in p ≡ ok answer = rw found at h in
      let shown : shown_in p.items p.resume ≡ ok answer = newest-shown p told in
      shown-newest p.items rest (keep_if (λ (e : Envelope R). matches e.content) log) p.resume
        good.whole good.resumes shown
