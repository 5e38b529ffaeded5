-- ===== src/Dream.antt =====
-- python/oneiro/dream: candidates, their judge, and the gate that promotes them.
pub mod Gate
pub mod Policy
pub mod Episode
pub mod Replay
pub mod Measure
