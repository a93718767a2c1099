-- ===== src/Core.antt =====
-- The library `core`: tasks, the iteration over pattern combinations and the execution of tasks.
pub mod MapPermutator
pub mod Task
pub mod Shell
pub mod Executor
pub mod PermutationIterator
