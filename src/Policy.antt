-- ===== src/Policy.antt =====
-- packages/policy/src/astra_policy/engine.py: which capability use is allowed, and which plans of
-- the main model are.
pub mod Capability
pub mod Planner
