-- ===== src/Jobs.antt =====
-- The AWS IoT Jobs feature: source/jobs.
pub mod LimitedStreamBuffer
pub mod JobDocument
pub mod JobEngine
pub mod Recovery
pub mod StatusUpdates
pub mod Execution
pub mod Startup
