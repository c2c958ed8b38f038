-- ===== src/Agent/Coordinator/Requesting.antt =====
-- A request of an approval for a new tool invocation, step by step: what the store holds after
-- each.
use astra_agent.Base.{◌≡◌, refl, String, ==_refl, none, some, [], ◌∷◌, ◌++◌, find}
use astra_agent.Base.Dict.{get, put, values, get-put_self}
use astra_agent.Base.Exec.{ok, ◌>>=◌}
use astra_agent.Domain.Kinds.{
  ActorType, EventType, ApprovalState, ConversationTurnState, ToolInvocationState,
  ToolInvocationTarget,
}
use astra_agent.Domain.Models.{uuid, Capability, ConversationTurn, ToolInvocation, Approval}
use astra_agent.Runtime.State.{Store, Env, event, entry}
use astra_agent.Runtime.Approvals.{create_coordinator_approval}
use astra_agent.Runtime.Invocations.{
  create_tool_invocation, create_new, same_call, invocation_event,
}
use astra_agent.Runtime.Turns.{get_turn}
use astra_agent.Agent.Coordinator.Messages.{ToolCall}
use astra_agent.Agent.Coordinator.Session.{World}
use astra_agent.Agent.Coordinator.Calls.{built_invocation}

-- What is requested, by which readings, on which store.
pub record Request : Type 0 where
  pub world : World
  pub turn : ConversationTurn
  pub tool_call : ToolCall
  pub target : ToolInvocationTarget
  pub capability : Capability
  pub reason : String
  pub built_env : Env
  pub create_env : Env
  pub asked_env : Env
  pub approval_env : Env
  pub store : Store

module _ (r : Request) where
  abbrev pub requested : ToolInvocation
  requested = built_invocation r.world r.built_env r.turn r.tool_call r.target none

  abbrev pub asked_approval : Approval
  asked_approval = record {
    id = r.asked_env.fresh 0;
    tenant_id = r.turn.tenant_id;
    task_id = none;
    tool_invocation_id = some requested.id;
    capability = r.capability;
    requested_by = none;
    requestor_type = ActorType.coordinator;
    state = ApprovalState.pending;
    reason = r.reason;
    created_at = r.asked_env.created 0;
    decided_at = none;
    decided_by = none;
  }

  -- The store once the invocation is requested, and once the approval is.
  abbrev pub after_request : Store
  after_request = record r.store {
    tool_invocations = put r.store.tool_invocations requested.id requested;
    events =
        r.store.events
        ++ invocation_event r.create_env 0 r.turn.tenant_id EventType.tool_invocation_requested
            ActorType.coordinator none requested.id
          ∷ [];
  }

  abbrev pub waiting_invocation : ToolInvocation
  waiting_invocation = record requested {
    state = ToolInvocationState.awaiting_approval;
    updated_at = r.approval_env.now 0;
  }

  abbrev pub waiting_turn : ConversationTurn
  waiting_turn = record r.turn {
    state = ConversationTurnState.paused;
    run_lease_id = none;
    run_lease_expires_at = none;
    updated_at = r.approval_env.now 1;
  }

  abbrev pub after_approval : Store
  after_approval = record after_request {
    approvals = put after_request.approvals asked_approval.id asked_approval;
    tool_invocations = put after_request.tool_invocations requested.id waiting_invocation;
    turns = put after_request.turns r.turn.id waiting_turn;
    events =
        after_request.events
        ++ event r.approval_env 0 r.turn.tenant_id EventType.approval_requested
            ActorType.coordinator none none (entry "approval_id" (uuid asked_approval.id))
          ∷ [];
  }

  -- Nothing is on record of the call, and the turn is stored as it is.
  pub record IsFirst : Type 0 where
    pub unknown : find (same_call requested) (values r.store.tool_invocations) ≡ none
    pub stored : get r.store.turns r.turn.id ≡ some r.turn

  pub request-runs :
      IsFirst
      → create_tool_invocation r.create_env requested r.store ≡ (ok requested, after_request)
  unfolding create_tool_invocation create_new ◌>>=◌
  request-runs first = rw (first.unknown, first.stored, ==_refl r.turn.tenant_id) refl

  pub approval-runs :
      IsFirst
      → create_coordinator_approval r.approval_env asked_approval after_request
        ≡ (ok asked_approval, after_approval)
  unfolding create_coordinator_approval ◌>>=◌
  approval-runs first =
      rw
        (
          get-put_self r.store.tool_invocations requested.id requested,
          ==_refl r.turn.tenant_id,
          first.stored,
        )
        refl

  pub turn-waits :
      get_turn r.turn.tenant_id r.turn.id after_approval ≡ (ok (some waiting_turn), after_approval)
  unfolding get_turn ◌>>=◌
  turn-waits = rw (get-put_self r.store.turns r.turn.id waiting_turn, ==_refl r.turn.tenant_id) refl
