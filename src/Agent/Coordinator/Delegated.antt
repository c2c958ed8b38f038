-- ===== src/Agent/Coordinator/Delegated.antt =====
-- _delegate_ara, _delegate_host_command and _execute_call of conversations.py: the tool calls that
-- become tasks of remote agents, and the choice among the kinds of call.
use Prim.Native.String.{◌++◌ as text_append}
use astra_agent.Base.{
  String, Bool, true, false, ◌&&◌, not, Option, none, some, List, [], ◌∷◌, if◌then◌else◌,
}
use astra_agent.Base.Exec.{conflict, validation, pure, require, guard, ◌>>=◌, ◌>>◌}
use astra_agent.Base.Text.{take_chars}
use astra_agent.Domain.Kinds.{CapabilityKind, EventType, ActorType, TaskState, ToolInvocationTarget}
use astra_agent.Domain.Models.{
  Uuid, Json, null, text, uuid, arr, obj, Fields, field, end, Capability, ConversationTurn, Task,
  ToolInvocation,
}
use astra_agent.Runtime.State.{Env, event}
use astra_agent.Runtime.Finish.{is_terminal}
use astra_agent.Runtime.Invocations.{create_tool_invocation, get_tool_invocation}
use astra_agent.Runtime.Tasks.{add_task, get_task}
use astra_agent.Runtime.Turns.{pause_turn}
use astra_agent.Agent.Tools.Paths.{lookup, or_default}
use astra_agent.Agent.Tools.Registry.{arguments}
use astra_agent.Agent.Coordinator.Messages.{ModelMessage, ToolCall}
use astra_agent.Agent.Coordinator.Session.{World, Coord, call, readings, in_length}
use astra_agent.Agent.Coordinator.History.{ara_file_read_capability, has_available_ara}
use astra_agent.Agent.Coordinator.Calls.{
  Outcome, max_tool_result_chars, or_text, answered, as_text, new_invocation,
}

abbrev pub host_command_capability : Capability
host_command_capability = record { kind = CapabilityKind.command_execute_host; scope = "host" }

-- `_bounded_task_result`
abbrev pub bounded_task_result : Task → String
bounded_task_result task =
    take_chars max_tool_result_chars (or_text task.result "ARA completed without findings.")

-- A text, which may be empty.
abbrev pub any_text : Json → Option String
any_text (text value) = some value
any_text _ = none

-- `cwd`: a text or None
abbrev pub is_directory : Option Json → Bool
is_directory none = true
is_directory (some null) = true
is_directory (some (text value)) = true
is_directory _ = false

abbrev pub has_texts : Option (List String) → Bool
has_texts (some (value ∷ values)) = true
has_texts _ = false

-- `argv`: a list of texts that are not empty, and not empty itself
abbrev pub is_argv : Option Json → Bool
is_argv (some (arr items)) = has_texts (arguments items)
is_argv _ = false

abbrev pub or_null : Option Json → Json
or_null none = null
or_null (some json) = json

-- `{"argv": argv, "cwd": cwd}`, with what stands before it
abbrev pub command_fields : Fields → Fields
command_fields params =
    field "argv" (or_null (lookup "argv" params)) (field "cwd" (or_null (lookup "cwd" params)) end)

module _ (world : World) where
  abbrev pub built_task : Env → ConversationTurn → String → String → Capability → String → Task
  built_task env turn objective context capability deliverable_contract = record {
    id = env.fresh 0;
    tenant_id = turn.tenant_id;
    objective = objective;
    context = context;
    required_capabilities = capability ∷ [];
    deliverable_contract = deliverable_contract;
    state = TaskState.pending;
    created_at = env.created 0;
    deadline = none;
    result = none;
    completed_at = none;
    target_ara_id = none;
    completed_by_ara_id = none;
  }

  -- `Task(…)`, with the lengths that the model checks
  unfoldable pub new_task : ConversationTurn → String → String → Capability → String → Coord Task
  new_task turn objective context capability deliverable_contract = do
    env ← readings world
    guard
        (in_length 1 10000 objective
          && in_length 0 50000 context
          && in_length 1 5000 deliverable_contract)
        validation
    pure (built_task env turn objective context capability deliverable_contract)

  -- `return await self._store.pause_turn(…)`
  unfoldable pub pause : ConversationTurn → Uuid → List ModelMessage → Coord Outcome
  pause turn run_lease_id messages = do
    paused ← call world (λ env. pause_turn env turn.tenant_id turn.id run_lease_id turn.checkpoint)
    pure (some paused, messages)

  -- The task of a call is either done, and answers it, or still awaited.
  unfoldable pub follow_task :
      ConversationTurn → Uuid → ToolCall → List ModelMessage → Task → Coord Outcome
  follow_task turn run_lease_id tool_call messages task =
      if is_terminal task.state
      then answered messages tool_call.name (bounded_task_result task)
      else pause turn run_lease_id messages

  -- `self._store.add_task(task, AuditEvent(…))`
  unfoldable pub store_task : ConversationTurn → Task → Json → Coord Task
  store_task turn task payload = do
    env ← readings world
    call world (λ _. add_task task (
        event env 0 turn.tenant_id EventType.task_created ActorType.coordinator none (some task.id)
          payload))

  unfoldable pub resume_ara :
      ConversationTurn → Uuid → ToolCall → List ModelMessage → ToolInvocation → Coord Outcome
  resume_ara turn run_lease_id tool_call messages invocation = do
    task_id ← require invocation.task_id (conflict "delegation invocation has no task")
    found ← call world (λ _. get_task turn.tenant_id task_id)
    task ← require found (conflict "delegated task is unavailable")
    follow_task turn run_lease_id tool_call messages task

  unfoldable pub start_ara :
      ConversationTurn → Uuid → ToolCall → List ModelMessage → String → String → Coord Outcome
  start_ara turn run_lease_id tool_call messages objective context = do
    task ←
        new_task turn (take_chars 10000 objective) (take_chars 12000 context)
          ara_file_read_capability "Return bounded repository findings with file and line evidence."
    available ← has_available_ara world turn.tenant_id
    if not available
        then answered messages tool_call.name (
            text_append
              "No eligible connected ARA is available for read-only repository inspection. "
              (text_append
                "Explain that delegation cannot run until a trusted ARA with repository access "
                "connects; do not claim the inspection was started."))
        else (do
          store_task turn task (obj (field "turn_id" (uuid turn.id) end))
          built ← new_invocation world turn tool_call ToolInvocationTarget.ara (some task.id)
          call world (λ env. create_tool_invocation env built)
          pause turn run_lease_id messages)

  abbrev pub continue_ara :
      ConversationTurn
      → Uuid
      → ToolCall
      → List ModelMessage
      → String
      → String
      → Option ToolInvocation
      → Coord Outcome
  continue_ara turn run_lease_id tool_call messages objective context (some invocation) =
      resume_ara turn run_lease_id tool_call messages invocation
  continue_ara turn run_lease_id tool_call messages objective context none =
      start_ara turn run_lease_id tool_call messages objective context

  abbrev pub ara_with :
      ConversationTurn
      → Uuid
      → ToolCall
      → List ModelMessage
      → Option String
      → Option String
      → Coord Outcome
  ara_with turn run_lease_id tool_call messages (some objective) (some context) = do
    existing ← call world (λ _. get_tool_invocation turn.tenant_id turn.id tool_call.id)
    continue_ara turn run_lease_id tool_call messages objective context existing
  ara_with turn run_lease_id tool_call messages _ _ =
      answered messages tool_call.name "Invalid delegation arguments."

  unfoldable pub delegate_ara :
      ConversationTurn → Uuid → ToolCall → List ModelMessage → Coord Outcome
  delegate_ara turn run_lease_id tool_call messages =
      ara_with turn run_lease_id tool_call messages
        (as_text (lookup "objective" tool_call.arguments))
        (any_text (or_default (lookup "context" tool_call.arguments) (text "")))
