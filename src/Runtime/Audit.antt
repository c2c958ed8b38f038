-- ===== src/Runtime/Audit.antt =====
-- The audit log of the store: no method of memory.py takes an event back or changes one.
pub mod Rules
pub mod Methods
pub mod Tasks
mod Histories
mod Tests
