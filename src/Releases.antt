-- ===== src/Releases.antt =====
-- releases/service.py: the authoritative release lifecycle.
pub mod State
pub mod Authority
pub mod Gates
pub mod Commands
pub mod Steps
pub mod Outcomes
pub mod Indexed
pub mod Moves
pub mod Switches
pub mod Reads
pub mod Refinement
pub mod IndexKept
pub mod Trail
pub mod HumanGates
pub mod Governed
pub mod Sole
pub mod SoleKept
pub mod Changes
pub mod ChangesKept
pub mod Histories
pub mod Activation
mod Tests
