-- ===== src/Skills.antt =====
-- skills/assignment.py: skills are assigned to agents by drafts of agent versions.
pub mod State
pub mod Texts
pub mod Minor
pub mod Decimals
pub mod Bumped
pub mod Parts
pub mod Proposed
pub mod Payloads
pub mod Assignment
pub mod Authorizing
pub mod Assigned
pub mod Outcomes
pub mod Drafts
mod Tests
