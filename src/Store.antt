-- ===== src/Store.antt =====
-- python/oneiro/store.py: the typed revision stream over named graph links.
pub mod Graph
pub mod Writer
pub mod Spec
pub mod Chain
pub mod Refinement
pub mod Crash
pub mod Page
