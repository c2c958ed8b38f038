-- ===== src/Agent/Coordinator.antt =====
-- ConversationOrchestrator of apps/astra-agent-api/src/astra_agent/conversations.py: it runs a
-- conversation turn over the store, the model provider and the tools.
pub mod Session
pub mod Messages
pub mod History
pub mod Calls
pub mod Delegated
pub mod Host
pub mod Planning
pub mod Loop
pub mod Stream
pub mod Effects
pub mod Quiet
pub mod Requests
pub mod Requesting
pub mod Approvals
pub mod HostCommands
pub mod HostTasks
pub mod Resumption
pub mod Samples
mod Tests
