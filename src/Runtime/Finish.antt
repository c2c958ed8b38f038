-- ===== src/Runtime/Finish.antt =====
-- `finish_task` of memory.py: the agent's result, checked against the approvals, ends the task and
-- its tool invocation, and the turn goes on when all its invocations by agents have ended.
mod Approved
mod After
mod Tests
use astra_agent.Base.{
  ℕ, ◌+◌, String, Bool, true, false, ◌&&◌, ◌||◌, not, Option, none, some, List, [], ◌∷◌, ◌++◌, map,
  ◌==◌, holds, if◌then◌else◌, find, filter, all, is_empty,
}
use astra_agent.Base.Dict.{Dict, get, put, values}
use astra_agent.Base.Exec.{conflict, lookup_error, pure, gets, modify, require, guard, ◌>>=◌, ◌>>◌}
use astra_agent.Domain.Kinds.{
  TaskState, ApprovalState, ToolInvocationState, ToolInvocationTarget, ConversationTurnState,
  EventType, ActorType,
}
use astra_agent.Domain.Models.{
  Uuid, Instant, text, uuid, field, end, obj, Capability, Task, Approval, Artifact, ToolInvocation,
  ConversationTurn, AuditEvent,
}
use astra_agent.Domain.Capabilities.{same_capability}
use astra_agent.Policy.Capability.{evaluate_capability}
use astra_agent.Runtime.State.{Store, Env, Method, event, entry, log}
use astra_agent.Runtime.Tasks.{active_lease, put_task}
use astra_agent.Runtime.Turns.{put_turn}
use astra_agent.Runtime.Invocations.{is_finished, put_invocation, finished_invocation}

-- `state in {COMPLETED, FAILED, CANCELLED}`
abbrev pub is_terminal : TaskState → Bool
is_terminal TaskState.completed = true
is_terminal TaskState.failed = true
is_terminal TaskState.cancelled = true
is_terminal _ = false

abbrev pub is_completed : TaskState → Bool
is_completed TaskState.completed = true
is_completed _ = false

abbrev pub is_granted : ApprovalState → Bool
is_granted ApprovalState.granted = true
is_granted _ = false

abbrev pub is_ara : ToolInvocationTarget → Bool
is_ara ToolInvocationTarget.ara = true
is_ara ToolInvocationTarget.local = false

-- A granted approval of the task itself.
abbrev pub grants_task : Uuid → Approval → Bool
grants_task task_id approval = holds approval.task_id task_id && is_granted approval.state

-- A granted approval of a tool invocation.
abbrev pub grants_invocation : Uuid → Approval → Bool
grants_invocation invocation_id approval =
    holds approval.tool_invocation_id invocation_id && is_granted approval.state

-- The approvals that the coordinator got for the invocations of the task.
unfoldable pub coordinator_approvals :
    Uuid → Uuid → List Approval → List ToolInvocation → List Approval
coordinator_approvals tenant_id task_id approvals [] = []
coordinator_approvals tenant_id task_id approvals (i ∷ is) =
    (if i.tenant_id == tenant_id && holds i.task_id task_id
      then filter (grants_invocation i.id) approvals
      else [])
    ++ coordinator_approvals tenant_id task_id approvals is

unfoldable pub task_approvals : Uuid → Uuid → Store → List Approval
task_approvals tenant_id task_id s =
    filter (grants_task task_id) (values s.approvals)
    ++ coordinator_approvals tenant_id task_id (values s.approvals) (values s.tool_invocations)

abbrev pub state_of : Option Approval → Option ApprovalState
state_of none = none
state_of (some approval) = some approval.state

-- The loop over the required capabilities; the first that is not allowed raises its reason.
unfoldable pub check_capabilities :
    List Capability → List Approval → List Capability → Method (Unit {0})
check_capabilities granted approvals [] = pure tt
check_capabilities granted approvals (capability ∷ rest) = do
  let found = find (λ (a : Approval). same_capability a.capability capability) approvals
  let decision = evaluate_capability capability granted (state_of found)
  guard decision.allowed (conflict decision.reason)
  check_capabilities granted approvals rest

abbrev pub belongs_to : Uuid → Uuid → Artifact → Bool
belongs_to tenant_id task_id artifact =
    artifact.tenant_id == tenant_id && artifact.task_id == task_id

abbrev pub finished_task : Env → TaskState → String → Uuid → Task → Task
finished_task env state detail ara_id task = record task {
  state = state;
  result = some detail;
  completed_at = some (env.now 1);
  completed_by_ara_id = some ara_id;
}

abbrev pub invocation_result : TaskState → ToolInvocationState
invocation_result TaskState.completed = ToolInvocationState.completed
invocation_result _ = ToolInvocationState.failed

-- The invocations of the turn that agents carry out.
abbrev pub siblings : Uuid → Store → List ToolInvocation
siblings turn_id s =
    filter (λ i. i.turn_id == turn_id && is_ara i.target) (values s.tool_invocations)

abbrev pub all_finished : List ToolInvocation → Bool
all_finished items = not (is_empty items) && all (λ (i : ToolInvocation). is_finished i.state) items

unfoldable pub finish_invocation : Env → TaskState → Option ToolInvocation → Method (Unit {0})
finish_invocation env state none = pure tt
finish_invocation env state (some invocation) = do
  put_invocation invocation.id
      (finished_invocation (invocation_result state) (env.now 2) (some (env.now 3)) invocation)
  found ← gets (λ s. get s.turns invocation.turn_id)
  turn ← require found lookup_error
  done ← gets (λ s. all_finished (siblings turn.id s))
  if done
      then put_turn turn.id
          (record turn { state = ConversationTurnState.pending; updated_at = env.now 4 })
      else pure tt

abbrev pub finish_event_type : TaskState → EventType
finish_event_type TaskState.completed = EventType.task_completed
finish_event_type TaskState.failed = EventType.task_failed
finish_event_type _ = EventType.task_cancelled

unfoldable pub store_artifacts : Env → Uuid → Uuid → Uuid → ℕ → List Artifact → Method (Unit {0})
store_artifacts env tenant_id ara_id task_id n [] = pure tt
store_artifacts env tenant_id ara_id task_id n (artifact ∷ rest) = do
  modify (λ s. record s { artifacts = put s.artifacts artifact.id artifact })
  log (
      event env n tenant_id EventType.artifact_produced ActorType.ara (some ara_id) (some task_id) (
        obj (
          field "artifact_id" (uuid artifact.id)
            (field "object_key" (text artifact.object_key) end))))
  store_artifacts env tenant_id ara_id task_id (n + 1) rest

-- The approvals count for a completed task alone.
unfoldable pub check_approvals : Uuid → Uuid → TaskState → Task → Method (Unit {0})
check_approvals tenant_id task_id state task = do
  approvals ← gets (task_approvals tenant_id task_id)
  if is_completed state
      then check_capabilities task.required_capabilities approvals task.required_capabilities
      else pure tt

unfoldable pub finish_task :
    Env → Uuid → Uuid → Uuid → Uuid → TaskState → String → List Artifact → Method Task
finish_task env tenant_id ara_id task_id lease_id state detail artifacts = do
  guard (is_terminal state) (conflict "invalid terminal task state")
  (task, lease) ← active_lease env tenant_id ara_id task_id lease_id
  check_approvals tenant_id task_id state task
  guard (all (belongs_to tenant_id task_id) artifacts) (conflict "artifact ownership mismatch")
  let finished = finished_task env state detail ara_id task
  put_task task_id finished
  invocation ← gets (λ s. find (λ i. holds i.task_id task_id) (values s.tool_invocations))
  finish_invocation env state invocation
  log (
      event env 0 tenant_id (finish_event_type state) ActorType.ara (some ara_id) (some task_id)
        (entry "detail" (text detail)))
  store_artifacts env tenant_id ara_id task_id 1 artifacts
  pure finished
