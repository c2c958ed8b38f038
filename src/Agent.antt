-- ===== src/Agent.antt =====
-- The controller, apps/astra-agent-api/src/astra_agent: its local tools, its memory tools and its
-- conversation coordinator.
pub mod Tools
pub mod Recollection
pub mod Coordinator
