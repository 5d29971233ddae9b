-- ===== src/Jobs.antt =====
-- jobs: the queue of background jobs, its worker, scheduler and recovery.
pub mod State
pub mod Queue
pub mod Worker
pub mod Commands
pub mod Changes
pub mod Order
pub mod Lawful
pub mod Performed
pub mod Histories
pub mod Claims
pub mod Settled
mod Tests
