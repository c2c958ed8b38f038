-- ===== src/Memory.antt =====
-- packages/memory: what the main model is told before a turn.
pub mod Compiler
pub mod Recall
pub mod Extraction
