-- ===== src/Tools.antt =====
-- tools: the registry of tools, and the boundary through which they are executed.
pub mod State
pub mod Registry
pub mod Calls
pub mod Proper
pub mod Makers
pub mod Requests
pub mod Admission
pub mod Executor
pub mod Guards
pub mod Executions
pub mod Replays
mod Tests
