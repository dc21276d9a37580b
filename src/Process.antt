-- ===== src/Process.antt =====
-- kernel/src/process: pipes between processes.
pub mod Pipe
