-- ===== src/Lib.antt =====
-- The memory of Oneiro and what is built on it: the owner's records, the store that keeps every
-- revision of them, the reads over that store, and the parts that act by what the records say.
--
-- The parts and how they interact. A part that changes something builds a record
-- (python/oneiro/records.py) and hands it to the store (python/oneiro/store.py), which adds one
-- immutable revision to a stream in the graph or refuses. Reads walk that stream in bounded pages
-- (python/oneiro/recall.py). Approvals, questions, schedules and tasks keep no state of their own
-- beside the stream, but for the runs that the process holds. A turn of the agent asks a model,
-- lets the policy of the tools decide on each call that the model wants, takes the owner's grants
-- from the approvals, and keeps each call as an action in the stream. python/oneiro/dream reads a
-- turn back, rebuilds what a candidate would have shown, and its gate judges an experiment and
-- makes a release.
--
-- The files. `Prelude` holds the shared types and lemmas: Python's `==` as `Comparable`, its
-- exceptions as `Result`, the methods of `str`. `Records` is python/oneiro/records.py: a record
-- class is an instance of `RecordClass`, `with_state` is `dataclasses.replace` with the check run
-- again, and `AnyRecord` is a record of any kind. `Store` is python/oneiro/store.py: `Graph` has
-- the links and the calls that change them, `Writer` has `append`, `_finish` and `recover`, `Page`
-- has `page`; `Store.Spec` is the abstract store, a list of revisions with `publish`, which
-- `Store.Refinement` proves the writer to implement, and `Store.Crash` is the recovery. `Recall`
-- is `scan` and `latest` of python/oneiro/recall.py over an interface `PageSource`, which
-- `Recall.Stored` fills with the store's pages; `Context` is the facts and the reply's context of
-- the same file. `Memory` is the memory as the parts above the store use it, over the log that the
-- store holds. `Approvals`, `Questions`, `Schedule`, `Tasks` and `Dream` are the files of those
-- names under python/oneiro; an operation of theirs takes the log and returns its answer beside the
-- log that it leaves. `Tools` is python/oneiro/tools.py: the effect vocabulary, the check of
-- arguments, the policy and the rules for paths. `Agent` is python/oneiro/agent.py:
-- `Steps` is a call as it is shown and recorded, `StoredStep` is the step that a record is read
-- back as and `turn_steps`, `Run` is `_run_tool` over a world, which is the log beside what a handler can change
-- outside it, `Execute` is `_execute`, and `Turn` is `run_turn`. `Dream.Episode`,
-- `Dream.Replay` and `Dream.Measure` are dream/episode.py, dream/replay.py and dream/measure.py. `Tests`
-- applies the theorems at concrete inputs.
--
-- Bounds and fuel. The loop of `scan` runs on rounds; more rounds than the stream has rows are
-- enough, since every page but the last shortens what is left. `page` runs on the scan limit that
-- the source counts down itself. The search of `next_after` runs over the 366 days of its horizon
-- in minutes, as the source's loop does. A range of a schedule runs on the numbers from its start
-- to its end, which are enough as a step is at least one. The
-- loop of a turn runs on the step limit that the source counts too. The rest is structural
-- recursion.
--
-- What is a parameter. The calendar that names the fields of a minute, the Unicode tables, the
-- test that a text is an instant with a zone, whether the JSON of a record and of a pending head
-- is within the bound of a link, the readings of the clock, fresh identifiers, the digests of
-- texts and the comparison of floats are arguments of the definitions. So are the file system, the
-- handlers of the tools, the model that a turn asks, the messages of the reply context that it is
-- given, a turn behind the prelude of a measurement, and `json.dumps` and `json.loads` of a call's
-- arguments.
--
-- What is not modelled. JSON texts and the dictionaries of records: a record is a typed value and
-- a link holds the object that its text encodes. The names of links are the identifiers that they
-- hash. The text of a page's cursor. Processes, leases and locks: one writer at a time, as the
-- runtime's lease has it. The record of an experience, which carries a float. The fetch of an
-- address and the files that the tools read and write. The surfaces, the providers of models, the
-- harness, the benchmark and the native solver.
pub mod Prelude
pub mod Records
pub mod Dream
pub mod Store
pub mod Recall
pub mod Memory
pub mod Approvals
pub mod Schedule
pub mod Tasks
pub mod Tests
pub mod Context
pub mod Questions
pub mod Tools
pub mod Agent
