-- ===== src/Runtime/Approvals.antt =====
-- The approvals of memory.py: asked for by the coordinator or by an agent, decided once by a user.
mod Decisions
mod Tests
use astra_agent.Base.{
  ℕ, Bool, true, false, ◌&&◌, not, Option, none, some, List, ◌==◌, holds, if◌then◌else◌, filter,
}
use astra_agent.Base.Dict.{get, put, values}
use astra_agent.Base.Exec.{
  require_owned, not_found, conflict, lookup_error, pure, gets, modify, require, guard, ◌>>=◌, ◌>>◌,
}
use astra_agent.Domain.Kinds.{
  ActorType, ApprovalState, ToolInvocationState, ConversationTurnState, EventType,
}
use astra_agent.Domain.Models.{Uuid, Instant, uuid, text, field, end, obj, Approval}
use astra_agent.Domain.Capabilities.{is_in}
use astra_agent.Runtime.State.{Env, Method, event, entry, log}
use astra_agent.Runtime.Tasks.{active_lease}
use astra_agent.Runtime.Turns.{put_turn}
use astra_agent.Runtime.Invocations.{
  is_pending, put_invocation, finished_invocation, invocation_event,
}

abbrev pub is_coordinator : ActorType → Bool
is_coordinator ActorType.coordinator = true
is_coordinator _ = false

abbrev pub is_ara : ActorType → Bool
is_ara ActorType.ara = true
is_ara _ = false

abbrev pub state_index : ApprovalState → ℕ
state_index ApprovalState.pending = 0
state_index ApprovalState.granted = 1
state_index ApprovalState.denied = 2

abbrev pub is_undecided : ApprovalState → Bool
is_undecided ApprovalState.pending = true
is_undecided _ = false

abbrev pub put_approval : Uuid → Approval → Method (Unit {0})
put_approval approval_id approval =
    modify λ s. record s { approvals = put s.approvals approval_id approval }

-- The turn is written back with no lease and no test of its state.
unfoldable pub create_coordinator_approval : Env → Approval → Method Approval
create_coordinator_approval env approval = do
  guard (is_coordinator approval.requestor_type)
      (conflict "coordinator approval must reference a tool invocation")
  tool_invocation_id ←
      require approval.tool_invocation_id
        (conflict "coordinator approval must reference a tool invocation")
  found ← gets (λ s. get s.tool_invocations tool_invocation_id)
  invocation ←
      require_owned (λ i. i.tenant_id) found approval.tenant_id
        (not_found "tool invocation not found")
  guard (is_pending invocation.state) (conflict "tool invocation cannot await approval")
  found_turn ← gets (λ s. get s.turns invocation.turn_id)
  turn ← require found_turn lookup_error
  put_approval approval.id approval
  put_invocation invocation.id
      (record invocation { state = ToolInvocationState.awaiting_approval; updated_at = env.now 0 })
  put_turn turn.id (record turn {
    state = ConversationTurnState.paused;
    run_lease_id = none;
    run_lease_expires_at = none;
    updated_at = env.now 1;
  })
  log (
      event env 0 approval.tenant_id EventType.approval_requested ActorType.coordinator none none
        (entry "approval_id" (uuid approval.id)))
  pure approval

abbrev pub is_request_of : Uuid → Uuid → Uuid → Approval → Bool
is_request_of tenant_id ara_id task_id approval =
    approval.tenant_id == tenant_id
    && holds approval.task_id task_id
    && holds approval.requested_by ara_id
    && is_ara approval.requestor_type

unfoldable pub request_approval : Env → Uuid → Uuid → Uuid → Uuid → Approval → Method Approval
request_approval env tenant_id ara_id task_id lease_id approval = do
  (task, lease) ← active_lease env tenant_id ara_id task_id lease_id
  guard (is_request_of tenant_id ara_id task.id approval) (conflict "approval ownership mismatch")
  guard (is_in approval.capability task.required_capabilities)
      (conflict "capability is not part of the task")
  put_approval approval.id approval
  log (
      event env 0 tenant_id EventType.approval_requested ActorType.ara (some ara_id) (some task_id)
        (obj (field "approval_id" (uuid approval.id) (field "reason" (text approval.reason) end))))
  pure approval

abbrev pub invocation_result : ApprovalState → ToolInvocationState
invocation_result ApprovalState.granted = ToolInvocationState.pending
invocation_result _ = ToolInvocationState.denied

abbrev pub denied_at : ApprovalState → Instant → Option Instant
denied_at ApprovalState.granted now = none
denied_at _ now = some now

-- The invocation that waited for the approval goes on or is denied, and its turn goes on.
unfoldable pub resume : Env → Uuid → Uuid → ApprovalState → Option Uuid → Method ℕ
resume env tenant_id actor_id state none = pure 0
resume env tenant_id actor_id state (some tool_invocation_id) = do
  found ← gets (λ s. get s.tool_invocations tool_invocation_id)
  invocation ← require found lookup_error
  put_invocation invocation.id (
      finished_invocation (invocation_result state) (env.now 1) (denied_at state (env.now 2))
        invocation)
  found_turn ← gets (λ s. get s.turns invocation.turn_id)
  turn ← require found_turn lookup_error
  put_turn turn.id (record turn { state = ConversationTurnState.pending; updated_at = env.now 3 })
  if state_index state == state_index ApprovalState.denied
      then (do
        log (
            invocation_event env 0 tenant_id EventType.tool_invocation_denied ActorType.user
              (some actor_id) invocation.id)
        pure 1)
      else pure 0

abbrev pub decision_event_type : ApprovalState → EventType
decision_event_type ApprovalState.granted = EventType.approval_granted
decision_event_type _ = EventType.approval_denied

abbrev pub decided_approval : Instant → ApprovalState → Uuid → Approval → Approval
decided_approval now state actor_id approval = record approval {
  state = state;
  decided_at = some now;
  decided_by = some actor_id;
}

-- The branch for an approval that is still pending.
unfoldable pub decide : Env → Uuid → Uuid → ApprovalState → Uuid → Approval → Method Approval
decide env tenant_id approval_id state actor_id approval = do
  guard (is_undecided approval.state) (conflict "approval is already decided")
  let decided = decided_approval (env.now 0) state actor_id approval
  put_approval approval_id decided
  n ← resume env tenant_id actor_id state approval.tool_invocation_id
  log (
      event env n tenant_id (decision_event_type state) ActorType.user (some actor_id)
        approval.task_id (entry "approval_id" (uuid approval_id)))
  pure decided

unfoldable pub decide_approval : Env → Uuid → Uuid → ApprovalState → Uuid → Method Approval
decide_approval env tenant_id approval_id state actor_id = do
  guard (not (is_undecided state)) (conflict "invalid approval decision")
  found ← gets (λ s. get s.approvals approval_id)
  approval ← require_owned (λ a. a.tenant_id) found tenant_id (not_found "approval not found")
  if state_index approval.state == state_index state
      then pure approval
      else decide env tenant_id approval_id state actor_id approval

unfoldable pub list_approvals : Uuid → Method (List Approval)
list_approvals tenant_id = gets (λ s. filter (λ a. a.tenant_id == tenant_id) (values s.approvals))
