-- ===== src/Jobs.antt =====
-- The durable job queue: `class DurableJob` of inbox/models.py, `enqueue_job` and `run_due_jobs` of
-- inbox/services/jobs.py. Keys, kinds and payloads are numbers that are only compared or passed on.
mod Row
pub use Row.*
pub mod Runner
pub mod Held
pub mod Leases
pub mod Fencing
pub mod Backoff
pub mod Keys
mod Tests
