-- ===== src/Agent/Tools.antt =====
-- apps/astra-agent-api/src/astra_agent/tools.py: the tools that the controller runs on a tenant's
-- workspace. The files are a parameter.
pub mod Paths
pub mod Files
mod Streams
pub mod Search
pub mod Registry
mod Tests
