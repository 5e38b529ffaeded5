-- ===== src/Tasks/Create.antt =====
-- python/oneiro/tasks.py: `create`, one task to a request identifier.
use Prim.Native.String
use oneiro_ostis.Prelude.{
  String, ◌≡◌, refl, Bool, true, false, not, ◌||◌, Option, none, some, List, [], ◌∷◌, Result, ok,
  err, >>=-eq-ok, ◌==◌, string_comparable, ltb, All, arith, require, ◌>>◌, require-eq-ok,
}
use oneiro_ostis.Prelude.Text.{strip, split, join, clip, is_empty, chars}
use oneiro_ostis.Store.Graph.{StoreError}
use oneiro_ostis.Store.Writer.{Publication}
use oneiro_ostis.Records.Base.{RecordError, checked, schema_version, queued, owner_instruction}
use oneiro_ostis.Records.Kinds.{Task, task_class}
use oneiro_ostis.Records.Stored.{Texts, AnyRecord, task}
use oneiro_ostis.Memory.{Rows, publish_record, memory_entity}

pub data CreateError : Type 0 where
  no_title long_title unknown_role bad_request_id waits_for_itself : CreateError
  no_such_task : String → CreateError
  record_error : RecordError → CreateError
  store_error : StoreError → CreateError

-- The guards before the store is asked.
unfoldable pub request_error : String → String → String → Result CreateError (Unit {0})
request_error text role client_id = do
  require (not (is_empty text)) no_title
  require (not (ltb 200 (chars text))) long_title
  require (role == "researcher" || role == "executor") unknown_role
  require (not (is_empty client_id || ltb 96 (chars client_id))) bad_request_id

unfoldable pub is_stored : Option AnyRecord → Bool
is_stored none = false
is_stored (some r) = true

-- The loop over `blocked`.
unfoldable pub check_blocked : String → List String → Rows → Result CreateError (Unit {0})
unfolding is_stored
check_blocked id [] log = ok tt
check_blocked id (item ∷ items) log =
    require (not (item == id)) waits_for_itself
    >> (require (is_stored (memory_entity item log)) (no_such_task item)
        >> check_blocked id items log)

unfoldable pub new_task :
    String → String → String → String → String → List String → List String → Task
new_task now id text detail role blocked labels = record {
  base = record {
    id = id;
    schema_version = schema_version;
    created_at = now;
    updated_at = now;
    provenance = owner_instruction;
    state = queued;
    labels = labels;
  };
  title = text;
  detail = clip 4000 (strip detail);
  assigned_role = role;
  parent_id = "";
  blocked_by = blocked;
}

module _ (texts : Texts) where
  published :
      Rows
      → Result StoreError (Publication AnyRecord × Rows)
      → Result CreateError (AnyRecord × Bool) × Rows
  published log (ok (p, log')) = (ok (p.envelope.content, p.duplicate), log')
  published log (err e) = (err (store_error e), log)

  unfoldable pub create_new :
      Rows → Result CreateError Task → Result CreateError (AnyRecord × Bool) × Rows
  unfolding published
  create_new log (err e) = (err e, log)
  create_new log (ok t) = published log (publish_record texts log (task t) t.id 0)

  as_created : Result RecordError Task → Result CreateError Task
  as_created (ok t) = ok t
  as_created (err e) = err (record_error e)

  unfoldable pub create_unless :
      Option AnyRecord
      → Rows
      → Result CreateError Task
      → Result CreateError (AnyRecord × Bool) × Rows
  unfolding create_new
  create_unless (some stored) log t = (ok (stored, true), log)
  create_unless none log t = create_new log t

  create_checked :
      Result CreateError (Unit {0})
      → Option AnyRecord
      → Rows
      → Result CreateError Task
      → Result CreateError (AnyRecord × Bool) × Rows
  unfolding create_unless
  create_checked (err e) stored log t = (err e, log)
  create_checked (ok u) stored log t = create_unless stored log t

  -- `create`: the stored task and whether it was there already.
  unfoldable pub create :
      String
      → String
      → String
      → String
      → List String
      → List String
      → String
      → Rows
      → Result CreateError (AnyRecord × Bool) × Rows
  unfolding create_checked request_error check_blocked new_task as_created
  create now title detail role blocked labels client_id log =
      let text = join " " (split title) in
      let id = String.◌++◌ "task-" client_id in
      create_checked (request_error text role client_id) (memory_entity id log) log (
        check_blocked id blocked log
        >> as_created (checked (new_task now id text detail role blocked labels)))

  blocked-stored :
      (id : String) (items : List String) (log : Rows) {u : Unit {0}}
      → check_blocked id items log ≡ ok u
      → All (λ item. ((item == id) ≡ false) × (is_stored (memory_entity item log) ≡ true)) items
  unfolding check_blocked
  blocked-stored id [] log h = tt
  blocked-stored id (item ∷ items) log h =
      let (a, e, k) =
        >>=-eq-ok (require (not (item == id)) waits_for_itself)
          (λ _.
            require (is_stored (memory_entity item log)) (no_such_task item)
            >> check_blocked id items log)
          h in
      let (b, f, m) =
        >>=-eq-ok (require (is_stored (memory_entity item log)) (no_such_task item))
          (λ _. check_blocked id items log) k in
      let other : not (item == id) ≡ true = require-eq-ok (not (item == id)) waits_for_itself e in
      (
        (ground arith, require-eq-ok (is_stored (memory_entity item log)) (no_such_task item) f),
        blocked-stored id items log m,
      )

  -- A new task is created only when everything it waits for is stored and is not the task itself:
  -- if no record of its identifier is stored and `create` succeeds, each name it is blocked by has
  -- a stored record and differs from its own.
  pub create-blocked :
      (now title detail role client_id : String) (blocked labels : List String) (log : Rows)
      {made : AnyRecord × Bool}
      → memory_entity (String.◌++◌ "task-" client_id) log ≡ none
      → (create now title detail role blocked labels client_id log).0 ≡ ok made
      → All
          (λ item.
            ((item == String.◌++◌ "task-" client_id) ≡ false)
            × (is_stored (memory_entity item log) ≡ true))
          blocked
  unfolding create
  create-blocked now title detail role client_id blocked labels log fresh h =
      let text = join " " (split title) in
      let id = String.◌++◌ "task-" client_id in
      let new = checked (new_task now id text detail role blocked labels) in
      let opened =
        ready (request_error text role client_id) (check_blocked id blocked log >> as_created new)
          (rw fresh at h) in
      let (u, e, _) = >>=-eq-ok (check_blocked id blocked log) (λ _. as_created new) opened.1 in
      blocked-stored id blocked log e
    where
      ready :
          (r : Result CreateError (Unit {0})) (t : Result CreateError Task)
          {made : AnyRecord × Bool}
          → (create_checked r none log t).0 ≡ ok made
          → (x : Task) × (t ≡ ok x)
      ready (err e) t k = ground arith
      ready (ok u) (err e) k = ground arith
      ready (ok u) (ok x) k = (x, refl)
