-- ===== src/Records.antt =====
-- python/oneiro/records.py: the records that every other layer agrees on.
pub mod Base
pub mod Kinds
pub mod Owner
pub mod Stored
pub mod Lifecycle
pub mod Grants
