-- ===== src/Approvals/Pending.antt =====
-- python/oneiro/approvals.py: the proposals that wait for the owner.
use oneiro_ostis.Prelude.{
  ℕ, suc, String, true, false, not, ◌&&◌, List, [], ◌∷◌, contains, string_comparable, leb,
  if◌then◌else◌,
}
use oneiro_ostis.Records.Base.{waiting, is_state}
use oneiro_ostis.Records.Owner.{Approval}

-- The loop of `pending` over the rows, newest first: the identifiers seen, and how many were found.
unfoldable pub pending_from : ℕ → List String → ℕ → List Approval → List Approval
pending_from limit seen n [] = []
pending_from limit seen n (a ∷ rows) = elim (contains seen a.id) [
  | true ↦ pending_from limit seen n rows
  | false ↦ elim (is_state a.state waiting && not a.granted) [
    | false ↦ if leb limit n then [] else pending_from limit (a.id ∷ seen) n rows
    | true ↦ if leb limit (suc n) then a ∷ [] else a ∷ pending_from limit (a.id ∷ seen) (suc n) rows
  ]
]

-- `pending`, of the rows of proposals that one scan serves.
unfoldable pub pending : ℕ → List Approval → List Approval
unfolding pending_from
pending limit rows = pending_from limit [] 0 rows
