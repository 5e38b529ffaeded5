-- ===== src/Tests/Approvals.antt =====
-- Approvals at a log with one used proposal.
use oneiro_ostis.Tests.Store.{unbounded}
use oneiro_ostis.Prelude.{◌≡◌, ◌≢◌, refl, true, some, List, [], ◌∷◌, ok}
use oneiro_ostis.Prelude.Text.{clip, is_empty}
use oneiro_ostis.Records.Base.{completed, owner_instruction}
use oneiro_ostis.Records.Owner.{Approval}
use oneiro_ostis.Records.Stored.{approval, any_base}
use oneiro_ostis.Memory.{Row, Rows}
use oneiro_ostis.Approvals.{approval_id, granted_for}
use oneiro_ostis.Approvals.Used.{IsSpent}
use oneiro_ostis.Approvals.Spent.{
  Operation, ask, rule, use_up, run_all, run_all-IsSpent, granted_for-spent,
}

abbrev used_grant : Approval
used_grant = record {
  base = record {
    id = approval_id "send" "d1";
    schema_version = 1;
    created_at = "2026-01-01T00:00:00+00:00";
    updated_at = "2026-01-01T00:00:00+00:00";
    provenance = owner_instruction;
    state = completed;
    labels = [];
  };
  action_id = "act-1";
  tool = "send";
  arguments_digest = "d1";
  granted = true;
  reason = "";
  task_id = "";
  consumed_action_id = "act-1";
}

abbrev used_up : Row
used_up = record {
  operation = "used-act-1";
  sequence = 3;
  revision = 3;
  previous = some "decision-1";
  previous_revision = some "decision-1";
  content = approval used_grant;
}

abbrev spent_log : Rows
spent_log = used_up ∷ []

abbrev later_calls : List Operation
later_calls =
    rule "2026-01-02T00:00:00+00:00" (approval_id "send" "d1") true "owner" "again"
    ∷ ask "2026-01-02T00:00:00+00:00" "act-2" "send" "d1" "" ""
    ∷ use_up "2026-01-02T00:00:00+00:00" used_up "act-2"
    ∷ []

log-IsSpent : IsSpent (approval_id "send" "d1") spent_log
unfolding approval_id any_base is_empty clip
log-IsSpent = refl

run_all-IsSpent_example :
    IsSpent (approval_id "send" "d1") (run_all unbounded later_calls spent_log)
run_all-IsSpent_example =
    run_all-IsSpent unbounded (approval_id "send" "d1") later_calls spent_log log-IsSpent

granted_for-spent_example :
    granted_for "send" "d1" (run_all unbounded later_calls spent_log) ≢ ok (some used_up)
granted_for-spent_example =
    granted_for-spent unbounded "send" "d1" later_calls spent_log used_up log-IsSpent

same_start : clip 24 "0123456789abcdef01234567aaaa" ≡ clip 24 "0123456789abcdef01234567bbbb"
unfolding clip
same_start = refl
