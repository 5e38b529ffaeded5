-- ===== src/Tests.antt =====
-- The theorems at concrete inputs: one child to a part of the program.
pub mod Store
pub mod Recall
pub mod Approvals
pub mod Records
pub mod Dream
pub mod Schedule
pub mod Tasks
pub mod Context
pub mod Tools
pub mod Agent
pub mod Measure
pub mod Replay
