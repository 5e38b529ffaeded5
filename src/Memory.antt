-- ===== src/Memory.antt =====
-- The owner's memory as the layers above the store use it: `publish` of python/oneiro/runtime.py,
-- which is the store's `append`, and `recall.latest`, over the log that the store holds.
pub mod Revisions
pub mod Published
use oneiro_ostis.Prelude.{
  ℕ, String, Bool, ◌&&◌, Option, none, some, List, Result, ok, err, map_error, ◌==◌,
  string_comparable, take, first_where,
}
use oneiro_ostis.Store.Graph.{Envelope, StoreError}
use oneiro_ostis.Store.Writer.{Publication}
use oneiro_ostis.Store.Spec.{publish}
use oneiro_ostis.Records.Stored.{Texts, AnyRecord, any_base, kind_name, record_content}
use oneiro_ostis.Recall.{max_scanned}

-- A stored revision, with its `__revision__` and its `__sequence__`.
abbrev pub Row : Type 0
Row = Envelope AnyRecord

-- The rows of the stream, newest first.
abbrev pub Rows : Type 0
Rows = List (Envelope AnyRecord)

module _ (texts : Texts) where
  unfoldable pub publish_record :
      Rows → AnyRecord → String → ℕ → Result StoreError (Publication AnyRecord × Rows)
  publish_record log r operation expected =
      publish ⦃c = record_content texts⦄ log r operation expected

-- `recall.latest`: the newest row of one kind and identifier among the newest `max_scanned`.
unfoldable pub latest : String → String → Rows → Option Row
unfolding any_base kind_name
latest kind id log =
    first_where (λ (e : Row). kind_name e.content == kind && (any_base e.content).id == id)
      (take max_scanned log)

content_of_row : Option Row → Option AnyRecord
content_of_row none = none
content_of_row (some e) = some e.content

-- `memory_entity`: the newest revision of a record, which is the store's `entity`.
unfoldable pub memory_entity : String → Rows → Option AnyRecord
unfolding content_of_row any_base
memory_entity id log = content_of_row (first_where (λ (e : Row). (any_base e.content).id == id) log)
