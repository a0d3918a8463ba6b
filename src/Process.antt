-- ===== src/Process.antt =====
-- private/process: how a child process is described to the operating system.
pub mod CommandLine
