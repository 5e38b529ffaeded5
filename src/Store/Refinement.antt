-- ===== src/Store/Refinement.antt =====
-- The reads and the writes of python/oneiro/store.py against the log that the graph holds.
pub mod Reads
pub mod Finish
pub mod Append
