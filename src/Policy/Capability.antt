-- ===== src/Policy/Capability.antt =====
-- evaluate_capability of packages/policy/src/astra_policy/engine.py.
pub mod Decisions
mod Tests
use astra_agent.Base.{String, Bool, true, false, Option, some, List, if◌then◌else◌}
use astra_agent.Domain.Kinds.{ApprovalState, is_file_read}
use astra_agent.Domain.Models.{Capability}
use astra_agent.Domain.Capabilities.{is_in}

pub record PolicyDecision : Type 0 where
  pub allowed : Bool
  pub requires_approval : Bool
  pub reason : String

-- `approval_state is ApprovalState.GRANTED`
abbrev pub is_granted : Option ApprovalState → Bool
is_granted (some ApprovalState.granted) = true
is_granted _ = false

unfoldable pub evaluate_capability :
    Capability → List Capability → Option ApprovalState → PolicyDecision
evaluate_capability requested granted approval_state =
    if is_in requested granted
    then if is_file_read requested.kind
      then record {
        allowed = true;
        requires_approval = false;
        reason = "explicitly scoped read access";
      }
      else if is_granted approval_state
      then record {
        allowed = true;
        requires_approval = false;
        reason = "impactful capability approved";
      }
      else record {
        allowed = false;
        requires_approval = true;
        reason = "impactful capability requires approval";
      }
    else record {
      allowed = false;
      requires_approval = false;
      reason = "capability is not explicitly granted";
    }
