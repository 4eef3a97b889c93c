-- ===== src/Process.antt =====
-- src/process: the execution of a task.
pub mod Capture
pub mod Platform
pub mod Run
pub mod Worker
