-- ===== src/Agent/Coordinator/Requests.antt =====
-- A run of a turn: its requests to the model, and the audit log.
use astra_agent.Agent.Coordinator.Session.{Session}
