-- ===== src/Policy/Capability/Decisions.antt =====
-- Which uses of a capability `evaluate_capability` allows, and which it wants a user's approval
-- for.
use mathlib.Core.List.{Memᴰ}
use astra_agent.Base.{◌≡◌, ◌≢◌, ◌⊎◌, ◌↔◌, true, Option, some, List, arith}
use astra_agent.Domain.Kinds.{ApprovalState, CapabilityKind}
use astra_agent.Domain.Models.{Capability}
use astra_agent.Domain.Capabilities.{is_in-mem, mem-is_in}
use astra_agent.Policy.Capability.{evaluate_capability}

module _ (requested : Capability) (granted : List Capability) (state : Option ApprovalState) where
  -- A use is allowed exactly when the capability is among the granted ones and is a file read or
  -- has a granted approval, and an approval is asked for exactly when it is among the granted ones,
  -- no file read, and has no granted approval.
  pub evaluate_capability-decides :
      (((evaluate_capability requested granted state).allowed ≡ true) ↔ (
        Memᴰ requested granted
        × ((requested.kind ≡ CapabilityKind.file_read) ⊎ (state ≡ some ApprovalState.granted))))
      × (((evaluate_capability requested granted state).requires_approval ≡ true) ↔ (
          Memᴰ requested granted
          × (requested.kind ≢ CapabilityKind.file_read)
          × (state ≢ some ApprovalState.granted)))
  unfolding evaluate_capability
  evaluate_capability-decides =
      let to_mem = is_in-mem requested granted in
      let from_mem = mem-is_in requested granted in
      (
        (
          λ h. (to_mem (ground (arith, h)), ground (arith, h)),
          λ p. ground (arith, p.1, from_mem p.0),
        ),
        (
          λ h. (
            to_mem (ground (arith, h)),
            (λ e. ground (arith, h, e)),
            (λ e. ground (arith, h, e)),
          ),
          λ p. ground (arith, p.1, from_mem p.0),
        ),
      )
