-- ===== src/Agent.antt =====
-- python/oneiro/agent.py: one chat turn with tools. `Steps` has a tool call as it is shown and
-- recorded, `StoredStep` how it is read back, `Run` the run of a handler, `Execute` the decision on
-- a call, `Turn` the loop of a turn.
pub mod Steps
pub mod StoredStep
pub mod Run
pub mod Execute
pub mod ReadBack
pub mod Permission
pub mod Safe
pub mod Told
pub mod Turn
pub mod Course
pub mod Again
pub mod Ending
pub mod Outside
