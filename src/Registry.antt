-- ===== src/Registry.antt =====
-- registry.py, registry_contracts.py, agents/registry and skills/registry: the registries of
-- versioned definitions.
pub mod Version
pub mod Precedence
pub mod State
pub mod Versions
pub mod Authority
pub mod Listing
pub mod Calls
pub mod Lifecycle
pub mod Consistency
pub mod Moves
pub mod Histories
pub mod Restart
pub mod Progress
pub mod Authorized
pub mod Keyed
pub mod Latest
mod Tests
