-- ===== src/Agent/Coordinator/Planning.antt =====
-- The planning part of run_turn of conversations.py: what delegated tasks answered, or a plan of
-- the model provider for tasks that are delegated before the model is asked.
use Prim.Native.String.{◌++◌ as text_append}
use astra_agent.Base.{
  ℕ, suc, String, Bool, false, ◌&&◌, ◌||◌, not, Option, none, some, List, [], ◌∷◌, ◌++◌, map,
  is_empty, is_some, if◌then◌else◌,
}
use astra_agent.Base.Exec.{
  conflict, validation, value_error, pure, raise, require, guard, ◌>>=◌, ◌>>◌,
}
use astra_agent.Base.Text.{decimal}
use astra_agent.Domain.Kinds.{
  EventType, ActorType, TaskState, ToolInvocationState, ToolInvocationTarget,
}
use astra_agent.Domain.Models.{
  Uuid, Json, null, flag, num, text, uuid, arr, obj, Items, nil, cons, Fields, field, end,
  ConversationTurn, Task, ToolInvocation,
}
use astra_agent.Runtime.State.{Env, event}
use astra_agent.Runtime.Artifacts.{append_event}
use astra_agent.Runtime.Delegation.{create_delegated_tasks}
use astra_agent.Runtime.Tasks.{get_task}
use astra_agent.Runtime.Finish.{is_completed}
use astra_agent.Runtime.Turns.{get_turn}
use astra_agent.Policy.Planner.{
  PlannerTask, PlannerDecision, validate_planner_decision, validate_all,
}
use astra_agent.Agent.Tools.Paths.{lookup, or_default}
use astra_agent.Agent.Coordinator.Messages.{ModelMessage, dump_all, dump_message, entries}
use astra_agent.Agent.Coordinator.Session.{World, Coord, call, ask, readings, in_length}
use astra_agent.Agent.Coordinator.History.{has_available_ara, uuid_items}
use astra_agent.Agent.Coordinator.Calls.{Outcome}

-- `task.state.value`
abbrev pub state_text : TaskState → String
state_text TaskState.pending = "pending"
state_text TaskState.leased = "leased"
state_text TaskState.completed = "completed"
state_text TaskState.failed = "failed"
state_text TaskState.cancelled = "cancelled"
state_text TaskState.cancelling = "cancelling"

abbrev pub text_or_null : Option String → Json
text_or_null none = null
text_or_null (some value) = text value

abbrev pub uuid_or_null : Option Uuid → Json
uuid_or_null none = null
uuid_or_null (some id) = uuid id

-- `UUID(str(raw_id))`, of an id that was printed
abbrev pub as_uuid : Json → Option Uuid
as_uuid (uuid id) = some id
as_uuid _ = none

abbrev pub task_entry : Task → Json
task_entry task = obj (
    field "task_id" (uuid task.id) (
      field "objective" (text task.objective) (
        field "state" (text (state_text task.state)) (
          field "result" (text_or_null task.result) (
            field "target_ara_id" (uuid_or_null task.target_ara_id)
              (field "completed_by_ara_id" (uuid_or_null task.completed_by_ara_id) end))))))

-- `failures > 0`
unfoldable pub any_failure : List Task → Bool
any_failure [] = false
any_failure (task ∷ tasks) = not (is_completed task.state) || any_failure tasks

module _ (world : World) where
  unfoldable pub planned_tasks : Uuid → Items → Coord (List Task)
  planned_tasks tenant_id nil = pure []
  planned_tasks tenant_id (cons raw_id raw_ids) = do
    id ← require (as_uuid raw_id) value_error
    found ← call world (λ _. get_task tenant_id id)
    task ← require found (conflict "planned task is unavailable")
    tasks ← planned_tasks tenant_id raw_ids
    pure (task ∷ tasks)

  abbrev pub provenance_of : Uuid → Json → Coord ModelMessage
  provenance_of tenant_id (arr raw_ids) = do
    tasks ← planned_tasks tenant_id raw_ids
    pure (record {
      role = "system";
      content = text_append "ARA sibling provenance (synthesize transparently; " (
          text_append "partial failures must be explicit):\n" (
            world.dumps (
              obj (
                field "partial_failure" (flag (any_failure tasks))
                  (field "results" (arr (dump_all task_entry tasks)) end)))));
    })
  provenance_of tenant_id _ = raise (conflict "turn checkpoint has invalid planned task ids")

  unfoldable pub sibling_provenance : ConversationTurn → Coord ModelMessage
  sibling_provenance turn =
      provenance_of turn.tenant_id
        (or_default (lookup "planned_task_ids" (entries turn.checkpoint)) (arr nil))

  unfoldable pub deny_plan : ConversationTurn → String → Coord (Unit {0})
  deny_plan turn reason = do
    env ← readings world
    call world (λ _. append_event (
        event env 0 turn.tenant_id EventType.planner_denied ActorType.coordinator none none
          (obj (field "turn_id" (uuid turn.id) (field "reason" (text reason) end)))))

  abbrev pub plan_of : ConversationTurn → Option PlannerDecision → Coord PlannerDecision
  plan_of turn (some decision) = pure decision
  plan_of turn none = do deny_plan turn "planner provider failed"; pure (record { tasks = [] })

  abbrev pub decision_with :
      ConversationTurn
      → List ModelMessage
      → Option (ℕ → List ModelMessage → ℕ → Option PlannerDecision)
      → Coord PlannerDecision
  decision_with turn messages none = pure (record { tasks = [] })
  decision_with turn messages (some planner) = do
    answer ← ask world (λ n. planner n messages world.max_delegation_siblings)
    plan_of turn answer

  -- The tasks of a plan, with the lengths that the model checks.
  unfoldable pub new_tasks : Env → ConversationTurn → ℕ → List PlannerTask → Coord (List Task)
  new_tasks env turn index [] = pure []
  new_tasks env turn index (item ∷ items) = do
    capabilities ←
        require (validate_all world.validate_capability item.required_capabilities) validation
    guard
        (in_length 1 10000 item.objective
          && in_length 0 50000 item.context
          && in_length 1 5000 item.deliverable_contract)
        validation
    tasks ← new_tasks env turn (suc index) items
    pure (
        record {
          id = env.fresh index;
          tenant_id = turn.tenant_id;
          objective = item.objective;
          context = item.context;
          required_capabilities = capabilities;
          deliverable_contract = item.deliverable_contract;
          state = TaskState.pending;
          created_at = env.created index;
          deadline = none;
          result = none;
          completed_at = none;
          target_ara_id = none;
          completed_by_ara_id = none;
        }
        ∷ tasks)

  abbrev pub task_arguments : Task → Fields
  task_arguments task =
      field "objective" (text task.objective) (field "context" (text task.context) end)

  -- The invocations of the tasks, each under the index of its task.
  unfoldable pub plan_invocations : Env → ConversationTurn → ℕ → List Task → List ToolInvocation
  plan_invocations env turn index [] = []
  plan_invocations env turn index (task ∷ tasks) =
      record {
        id = env.fresh index;
        tenant_id = turn.tenant_id;
        turn_id = turn.id;
        task_id = some task.id;
        tool_call_id = text_append "planner-" (decimal index);
        tool_name = "delegate_ara";
        target = ToolInvocationTarget.ara;
        state = ToolInvocationState.pending;
        arguments = obj (task_arguments task);
        arguments_sha256 = world.sha256 (task_arguments task);
        created_at = env.created index;
        updated_at = env.created index;
        completed_at = none;
      }
      ∷ plan_invocations env turn (suc index) tasks

  abbrev pub plan_checkpoint : List ModelMessage → ℕ → List Task → Json
  plan_checkpoint messages iterations tasks = obj (
      field "messages" (arr (dump_all dump_message messages)) (
        field "iterations" (num iterations) (
          field "pending_calls" (arr nil)
            (field "planned_task_ids" (arr (uuid_items (map (λ t. t.id) tasks))) end))))

  abbrev pub or_turn : Option ConversationTurn → ConversationTurn → ConversationTurn
  or_turn none turn = turn
  or_turn (some found) turn = found

  unfoldable pub delegate_plan :
      ConversationTurn → Uuid → List ModelMessage → ℕ → List PlannerTask → Coord Outcome
  delegate_plan turn run_lease_id messages iterations items = do
    task_env ← readings world
    tasks ← new_tasks task_env turn 0 items
    invocation_env ← readings world
    assigned ← call world (λ env.
        create_delegated_tasks env turn.tenant_id turn.id run_lease_id tasks
          (plan_invocations invocation_env turn 0 tasks)
          (plan_checkpoint messages iterations tasks))
    if is_empty assigned then pure (some turn, messages) else (do
      found ← call world (λ _. get_turn turn.tenant_id turn.id)
      pure (some (or_turn found turn), messages))

  unfoldable pub make_plan : ConversationTurn → Uuid → List ModelMessage → ℕ → Coord Outcome
  make_plan turn run_lease_id messages iterations = do
    decision ← decision_with turn messages world.plan
    let policy =
        validate_planner_decision world.validate_capability decision world.max_delegation_siblings
    if not policy.allowed
        then (do deny_plan turn policy.reason; pure (none, messages))
        else if is_empty decision.tasks
        then pure (none, messages)
        else delegate_plan turn run_lease_id messages iterations decision.tasks

  -- A turn that the plan pauses comes back, else the messages to go on with.
  unfoldable pub planning : ConversationTurn → Uuid → List ModelMessage → ℕ → Coord Outcome
  planning turn run_lease_id messages iterations =
      if is_some (lookup "planned_task_ids" (entries turn.checkpoint))
      then (do provenance ← sibling_provenance turn; pure (none, messages ++ provenance ∷ []))
      else if world.delegation_enabled
      then (do
        available ← has_available_ara world turn.tenant_id
        if available
            then make_plan turn run_lease_id messages iterations
            else pure (none, messages))
      else pure (none, messages)
