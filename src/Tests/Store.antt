-- ===== src/Tests/Store.antt =====
-- The store at concrete records, on a graph that holds two revisions of one note.
use oneiro_ostis.Prelude.{ℕ, String, ◌≡◌, refl, Bool, true, false, none, some, List, [], ◌∷◌, ok}
use oneiro_ostis.Store.Graph.{Content, Graph, Envelope, empty_graph, is_name}
use oneiro_ostis.Store.Writer.{append, entity, recover}
use oneiro_ostis.Store.Spec.{publish, envelope_for, find_id, find_op, content_of, IsChain, Holds}
use oneiro_ostis.Store.Refinement.Append.{
  Refines, append-Refines, append_all, publish_all, append_all-Holds, empty_graph-Holds, answer_of,
}
use oneiro_ostis.Store.Crash.{stopped, recover-stopped}
use oneiro_ostis.Store.Page.{page, query_page, position, check_limit}
use mathlib.Core.List.{head?}
use oneiro_ostis.Prelude.{keep_if}
use oneiro_ostis.Store.Graph.{perform, perform_all}
use oneiro_ostis.Store.Writer.{
  idle_head, get_head, get_envelope, get_pointer, is_linked, append_idle, publish_fresh, repeated,
  prepare, check_prior, same_identity, finish,
}
use oneiro_ostis.Store.Page.{walk}
use oneiro_ostis.Store.Page.Newest.{newest_match, newest_in, shown_in, newest_match-Holds}
use oneiro_ostis.Records.Base.{State, queued, completed, system}
use oneiro_ostis.Records.Stored.{
  is_named_record, Texts, AnyRecord, plain, record_content, any_base, kind_name, is_sound_record,
  same_record,
}

-- Any text is taken for an instant here, and none is too long.
abbrev pub unbounded : Texts
unbounded = record { is_instant = λ s. true; fits = λ r. true; head_fits = λ h. true }

instance abbrev pub content : Content AnyRecord
content = record_content unbounded

abbrev pub revision_in : State → String → AnyRecord
revision_in state at = plain record {
  id = "note-1";
  schema_version = 1;
  created_at = "2026-01-01T00:00:00+00:00";
  updated_at = at;
  provenance = system;
  state = state;
  labels = [];
}

abbrev pub first : AnyRecord
first = revision_in queued "2026-01-01T00:00:00+00:00"

abbrev pub second : AnyRecord
second = revision_in completed "2026-01-02T00:00:00+00:00"

abbrev pub calls : List (AnyRecord × String × ℕ)
calls = (first, "op-1", 0) ∷ (second, "op-2", 1) ∷ []

abbrev pub graph : Graph AnyRecord
graph = append_all calls empty_graph

abbrev pub log : List (Envelope AnyRecord)
log = publish_all calls []

append_all-Holds_example :
    ((r : AnyRecord) (op : String) (expected : ℕ)
      → (append r op expected empty_graph).0 ≡ answer_of (publish [] r op expected))
    × IsChain log
    × Holds graph log
append_all-Holds_example = append_all-Holds calls empty_graph [] tt empty_graph-Holds

pub log-IsChain : IsChain log
log-IsChain = (append_all-Holds calls empty_graph [] tt empty_graph-Holds).1

pub graph-Holds : Holds graph log
graph-Holds = (append_all-Holds calls empty_graph [] tt empty_graph-Holds).2

append-Refines_example :
    Refines log graph (append second "op-3" 1 graph) (publish log second "op-3" 1)
append-Refines_example = append-Refines graph log log-IsChain graph-Holds second "op-3" 1

-- The two revisions are stored.
stored_second : content_of (find_id "note-1" log) ≡ some second
unfolding publish_all publish is_name is_sound_record is_named_record same_record any_base kind_name
stored_second = refl

op_named : is_name "op-3" ≡ true
unfolding is_name
op_named = refl

second_sound : is_sound_record (λ s. true) second ≡ true
unfolding is_sound_record is_named_record is_name
second_sound = refl

op_fresh : find_op "op-3" log ≡ none
unfolding publish_all publish is_name is_sound_record is_named_record same_record any_base kind_name
op_fresh = refl

recover-stopped_example :
    (stopped 0 log (envelope_for log second "op-3") graph ≡ graph)
    × (again : Bool) × (g' : Graph AnyRecord) × (recover
          (stopped 3 log (envelope_for log second "op-3") graph)
        ≡ (ok again, g'))
    × Holds g' (envelope_for log second "op-3" ∷ log)
    × (recover g' ≡ (ok false, g'))
recover-stopped_example =
    recover-stopped graph log second "op-3" 2 log-IsChain graph-Holds op_named second_sound op_fresh

newest_found : newest_match (λ r. true) 10 graph ≡ ok (some second)
unfolding newest_match newest_in shown_in page query_page position check_limit walk idle_head
    get_head get_envelope get_pointer is_linked append_all append append_idle publish_fresh repeated
    prepare check_prior same_identity entity finish perform perform_all is_name is_sound_record
    is_named_record same_record any_base kind_name
newest_found = refl

newest_match-Holds_example :
    some second ≡ content_of (head? (keep_if (λ (e : Envelope AnyRecord). true) log))
newest_match-Holds_example =
    newest_match-Holds (λ r. true) graph log 10 log-IsChain graph-Holds newest_found
