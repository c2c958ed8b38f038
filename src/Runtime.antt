-- ===== src/Runtime.antt =====
-- packages/runtime: the store of the control plane, one module for each group of its methods.
pub mod State
pub mod Samples
pub mod Jobs
pub mod Memories
pub mod Personas
pub mod Migrations
pub mod Conversations
pub mod Turns
pub mod Agents
pub mod Tasks
pub mod Invocations
pub mod Delegation
pub mod Finish
pub mod Approvals
pub mod Artifacts
pub mod Calls
pub mod Audit
