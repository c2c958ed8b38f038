-- ===== src/Policy/Capability/Tests.antt =====
-- A command with a granted approval, and the theorem at it.
use mathlib.Core.List.{Memᴰ}
use astra_agent.Base.{◌≡◌, ◌≢◌, ◌⊎◌, ◌↔◌, true, Option, some, [], ◌∷◌}
use astra_agent.Domain.Kinds.{ApprovalState, CapabilityKind}
use astra_agent.Domain.Models.{Capability}
use astra_agent.Policy.Capability.{evaluate_capability}
use astra_agent.Policy.Capability.Decisions.{evaluate_capability-decides}

abbrev run_tests : Capability
run_tests = record { kind = CapabilityKind.command_execute; scope = "sandbox" }

abbrev state : Option ApprovalState
state = some ApprovalState.granted

evaluate_capability-decides_example :
    (((evaluate_capability run_tests (run_tests ∷ []) state).allowed ≡ true) ↔ (
      Memᴰ run_tests (run_tests ∷ [])
      × ((CapabilityKind.command_execute ≡ CapabilityKind.file_read)
          ⊎ (state ≡ some ApprovalState.granted))))
    × (((evaluate_capability run_tests (run_tests ∷ []) state).requires_approval ≡ true) ↔ (
        Memᴰ run_tests (run_tests ∷ [])
        × (CapabilityKind.command_execute ≢ CapabilityKind.file_read)
        × (state ≢ some ApprovalState.granted)))
evaluate_capability-decides_example = evaluate_capability-decides run_tests (run_tests ∷ []) state
