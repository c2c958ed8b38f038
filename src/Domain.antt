-- ===== src/Domain.antt =====
-- packages/domain: the kinds and states of the records, and the records themselves.
pub mod Kinds
pub mod Models
pub mod Capabilities
