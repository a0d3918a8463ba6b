-- ===== src/Threading.antt =====
-- private/threading: jobs.
pub mod JobGroup
pub mod SerialJobQueue
pub mod EventLoop
