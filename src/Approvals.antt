-- ===== src/Approvals.antt =====
-- python/oneiro/approvals.py: the owner's permission for one exact call. An operation takes the
-- log of the owner's memory and returns its answer beside the log that it leaves. The digest of a
-- call's arguments (a hash of their JSON text) is handed in, and so are the clock's readings.
pub mod Spent
pub mod Used
pub mod Pending
use Prim.Native.String
use oneiro_ostis.Prelude.{
  ℕ, String, Bool, true, false, not, ◌&&◌, ◌||◌, Option, none, some, List, [], ◌∷◌, Result, ok, err,
  ◌>>=◌, map_error, ◌==◌, string_comparable, if◌then◌else◌,
}
use oneiro_ostis.Prelude.Text.{strip, clip, is_empty}
use oneiro_ostis.Store.Graph.{Envelope, StoreError}
use oneiro_ostis.Store.Writer.{Publication}
use oneiro_ostis.Records.Base.{
  Base, RecordError, checked, with_state, schema_version, State, waiting, completed, cancelled,
  is_state, owner_instruction, system,
}
use oneiro_ostis.Records.Owner.{Approval, approval_class, approval_check, covers, consumed_by}
use oneiro_ostis.Records.Stored.{Texts, AnyRecord, approval}
use oneiro_ostis.Memory.{Row, Rows, publish_record, latest}

-- The reasons of `ApprovalError`, and the errors of the layers below.
pub data ApprovalError : Type 0 where
  not_the_owner unknown_proposal already_decided : ApprovalError
  record_error : RecordError → ApprovalError
  store_error : StoreError → ApprovalError

unfoldable pub as_approval : AnyRecord → Result ApprovalError Approval
as_approval (approval a) = ok a
as_approval _ = err unknown_proposal

-- `stored_approval`
unfoldable pub stored_approval : Row → Result ApprovalError Approval
unfolding as_approval
stored_approval row = as_approval row.content

-- `approval_id`, of the digest of the arguments.
unfoldable pub approval_id : String → String → String
approval_id tool digest =
    String.◌++◌ "approval-" (String.◌++◌ tool (String.◌++◌ "-" (clip 24 digest)))

-- `lookup`
unfoldable pub lookup : String → String → Rows → Option Row
lookup tool digest log = latest "approval" (approval_id tool digest) log

unfoldable pub if_covers : String → Option Row → Result ApprovalError (Option Row)
unfolding stored_approval
if_covers tool none = ok none
if_covers tool (some row) =
    stored_approval row >>= λ a. ok (if covers tool a.arguments_digest a then some row else none)

-- `granted_for`: the owner's unspent grant for exactly this call.
unfoldable pub granted_for : String → String → Rows → Result ApprovalError (Option Row)
unfolding if_covers
granted_for tool digest log = if_covers tool (lookup tool digest log)

module _ (texts : Texts) where
  unfoldable pub published :
      Rows → Result StoreError (Publication AnyRecord × Rows) → Result ApprovalError Row × Rows
  published log (ok (p, log')) = (ok p.envelope, log')
  published log (err e) = (err (store_error e), log)

  -- `(await owner.publish(...))["record"]`
  unfoldable pub publish_approval : Rows → Approval → String → ℕ → Result ApprovalError Row × Rows
  unfolding published
  publish_approval log a operation expected =
      published log (publish_record texts log (approval a) operation expected)

  unfoldable pub publish_checked :
      Rows → Result RecordError Approval → String → ℕ → Result ApprovalError Row × Rows
  publish_checked log (err e) operation expected = (err (record_error e), log)
  publish_checked log (ok a) operation expected = publish_approval log a operation expected

  -- The record that `request` builds.
  abbrev pub proposal : String → String → String → String → String → String → Approval
  proposal now action_id tool digest reason task_id = record {
    base = record {
      id = approval_id tool digest;
      schema_version = schema_version;
      created_at = now;
      updated_at = now;
      provenance = system;
      state = waiting;
      labels = [];
    };
    action_id = action_id;
    tool = tool;
    arguments_digest = digest;
    granted = false;
    reason = reason;
    task_id = task_id;
    consumed_action_id = "";
  }

  unfoldable pub request_on : Option Row → Approval → Rows → Result ApprovalError Row × Rows
  unfolding publish_approval
  request_on (some row) a log = (ok row, log)
  request_on none a log = publish_approval log a a.id 0

  unfoldable pub request_checked :
      Result RecordError Approval → Rows → Result ApprovalError Row × Rows
  unfolding request_on
  request_checked (err e) log = (err (record_error e), log)
  request_checked (ok a) log = request_on (latest "approval" a.id log) a log

  -- `request`
  unfoldable pub request :
      String → String → String → String → String → String → Rows → Result ApprovalError Row × Rows
  unfolding request_checked
  request now action_id tool digest reason task_id log =
      request_checked (checked (proposal now action_id tool digest reason task_id)) log

  -- The revision that a decision makes.
  abbrev pub decided : String → Bool → String → Approval → Result RecordError Approval
  decided now granted reason a =
      with_state now (if granted then completed else cancelled) none
        (λ x. record x {
          base = record x.base { provenance = owner_instruction };
          granted = granted;
          reason = strip reason;
        })
        a

  unfoldable pub decide_on :
      String
      → Bool
      → String
      → Row
      → Result ApprovalError Approval
      → Rows
      → Result ApprovalError Row × Rows
  unfolding publish_checked
  decide_on now granted reason row (err e) log = (err e, log)
  decide_on now granted reason row (ok a) log =
      if not (is_state a.state waiting) || not (is_empty a.consumed_action_id)
      then (err already_decided, log)
      else publish_checked log (decided now granted reason a) (String.◌++◌ "decision-" a.id)
          row.revision

  unfoldable pub decide_found :
      String → Bool → String → Option Row → Rows → Result ApprovalError Row × Rows
  unfolding decide_on stored_approval
  decide_found now granted reason none log = (err unknown_proposal, log)
  decide_found now granted reason (some row) log =
      decide_on now granted reason row (stored_approval row) log

  -- `decide`
  unfoldable pub decide :
      String → String → Bool → String → String → Rows → Result ApprovalError Row × Rows
  unfolding decide_found
  decide now id granted actor reason log =
      if not (actor == "owner")
      then (err not_the_owner, log)
      else decide_found now granted reason (latest "approval" id log) log

  unfoldable pub consume_on :
      String → Row → Result ApprovalError Approval → String → Rows → Result ApprovalError Row × Rows
  unfolding publish_checked
  consume_on now row (err e) action_id log = (err e, log)
  consume_on now row (ok a) action_id log =
      publish_checked log (consumed_by now action_id a) (String.◌++◌ "used-" action_id) row.revision

  -- `consume`
  unfoldable pub consume : String → Row → String → Rows → Result ApprovalError Row × Rows
  unfolding consume_on stored_approval
  consume now row action_id log = consume_on now row (stored_approval row) action_id log
