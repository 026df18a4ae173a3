-- ===== src/Async.antt =====
-- crates/sparreal-kernel/src/os/async: the executor of asynchronous tasks on one processor.
pub mod Task
pub mod Executor
mod Tests
