-- ===== src/Tasks.antt =====
-- python/oneiro/tasks.py: tasks and their attempts. The runs that this process holds are the list
-- of their identifiers.
pub mod States
pub mod Attempts
pub mod Ready
pub mod Newest
pub mod Quiet
pub mod Create
pub mod Notice
