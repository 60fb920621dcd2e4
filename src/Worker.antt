-- ===== src/Worker.antt =====
-- app/worker: the background worker.
pub mod Executor
pub mod Failure
pub mod Reclaim
pub mod Claim
pub mod Process
pub mod Tick
pub mod Gather
pub mod Schedule
pub mod Runner
pub mod Main
pub mod Retries
pub mod Attempts
