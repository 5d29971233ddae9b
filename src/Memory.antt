-- ===== src/Memory.antt =====
-- memory/models.py, memory/repository.py and memory/service.py: what an organization remembers.
pub mod Records
pub mod Repository
pub mod Readings
pub mod Retrieval
pub mod Histories
pub mod Withdrawal
mod Tests
