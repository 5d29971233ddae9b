-- ===== src/Runs.antt =====
-- agents/lifecycle/runs.py: the authority over the runs of agents.
pub mod State
pub mod Payloads
pub mod Requirements
pub mod Authority
pub mod Usable
pub mod Checked
pub mod Granted
pub mod Calls
pub mod Trails
pub mod Histories
pub mod Authorized
mod Tests
