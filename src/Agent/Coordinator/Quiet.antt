-- ===== src/Agent/Coordinator/Quiet.antt =====
-- The parts of a run of a turn other than the model loop: their effect on the log and on the count
-- of requests.
pub mod Reads
pub mod Calls
pub mod Delegation
pub mod Plans
