-- ===== src/Ara.antt =====
-- The remote agents of apps/ara.
pub mod Settings
pub mod HostCommands
mod Tests
