-- ===== src/Agent/Coordinator/Host.antt =====
-- _delegate_host_command and _execute_call of conversations.py: a command for a host agent, which
-- waits for an approval before it becomes a task, and the choice among the kinds of tool call.
use Prim.Native.String.{◌++◌ as text_append}
use astra_agent.Base.{
  String, Bool, true, ◌&&◌, ◌||◌, not, Option, none, some, List, str_eq, if◌then◌else◌,
}
use astra_agent.Base.Exec.{pure, ◌>>=◌, ◌>>◌}
use astra_agent.Base.Text.{take_chars}
use astra_agent.Domain.Kinds.{ToolInvocationState, ToolInvocationTarget}
use astra_agent.Domain.Models.{Uuid, flag, uuid, obj, field, ConversationTurn, Task, ToolInvocation}
use astra_agent.Runtime.Approvals.{create_coordinator_approval}
use astra_agent.Runtime.Invocations.{
  create_tool_invocation, complete_tool_invocation, get_tool_invocation,
}
use astra_agent.Runtime.Tasks.{get_task}
use astra_agent.Policy.Planner.{contains}
use astra_agent.Agent.Tools.Paths.{lookup}
use astra_agent.Agent.Coordinator.Messages.{ModelMessage, ToolCall}
use astra_agent.Agent.Coordinator.Session.{World, Coord, call}
use astra_agent.Agent.Coordinator.History.{has_available_host_ara}
use astra_agent.Agent.Coordinator.Calls.{
  Outcome, answered, as_text, new_invocation, new_approval, execute_local, execute_memory_tool,
}
use astra_agent.Agent.Coordinator.Delegated.{
  host_command_capability, is_argv, is_directory, command_fields, new_task, store_task, pause,
  follow_task, delegate_ara,
}

module _ (world : World) where
  -- An approved command that has no task yet gets one.
  unfoldable pub start_host :
      ConversationTurn
      → Uuid
      → ToolCall
      → List ModelMessage
      → String
      → ToolInvocation
      → Coord Outcome
  start_host turn run_lease_id tool_call messages reason existing = do
    available ← has_available_host_ara world turn.tenant_id
    if not available then answered messages tool_call.name "No active Host ARA available." else (do
      task ←
          new_task world turn (take_chars 10000 reason)
            (world.dumps (obj (command_fields tool_call.arguments))) host_command_capability
            "Return bounded host command exit status and output."
      store_task world turn task (
          obj (
            field "turn_id" (uuid turn.id)
              (field "host_command" (flag true) (command_fields tool_call.arguments))))
      call world (λ env. complete_tool_invocation env turn.tenant_id existing.id)
      built ← new_invocation world turn tool_call ToolInvocationTarget.ara (some task.id)
      call world (λ env. create_tool_invocation env built)
      pause world turn run_lease_id messages)

  abbrev pub follow_host :
      ConversationTurn
      → Uuid
      → ToolCall
      → List ModelMessage
      → String
      → ToolInvocation
      → Option Task
      → Coord Outcome
  follow_host turn run_lease_id tool_call messages reason existing (some task) =
      follow_task world turn run_lease_id tool_call messages task
  follow_host turn run_lease_id tool_call messages reason existing none =
      start_host turn run_lease_id tool_call messages reason existing

  abbrev pub approved_host :
      ConversationTurn
      → Uuid
      → ToolCall
      → List ModelMessage
      → String
      → ToolInvocation
      → Option Uuid
      → Coord Outcome
  approved_host turn run_lease_id tool_call messages reason existing (some task_id) = do
    task ← call world (λ _. get_task turn.tenant_id task_id)
    follow_host turn run_lease_id tool_call messages reason existing task
  approved_host turn run_lease_id tool_call messages reason existing none =
      start_host turn run_lease_id tool_call messages reason existing

  abbrev pub resume_host :
      ConversationTurn
      → Uuid
      → ToolCall
      → List ModelMessage
      → String
      → ToolInvocation
      → ToolInvocationState
      → Coord Outcome
  resume_host turn run_lease_id tool_call messages reason existing
        ToolInvocationState.awaiting_approval =
      pause world turn run_lease_id messages
  resume_host turn run_lease_id tool_call messages reason existing ToolInvocationState.denied =
      answered messages tool_call.name "Host command denied by operator."
  resume_host turn run_lease_id tool_call messages reason existing ToolInvocationState.pending =
      approved_host turn run_lease_id tool_call messages reason existing existing.task_id
  resume_host turn run_lease_id tool_call messages reason existing ToolInvocationState.completed =
      approved_host turn run_lease_id tool_call messages reason existing existing.task_id
  resume_host turn run_lease_id tool_call messages reason existing _ = pure (none, messages)

  -- The first call: an invocation and an approval, no task.
  unfoldable pub request_host :
      ConversationTurn → Uuid → ToolCall → List ModelMessage → String → Coord Outcome
  request_host turn run_lease_id tool_call messages reason = do
    available ← has_available_host_ara world turn.tenant_id
    if not available
        then answered messages tool_call.name "No active privileged Host ARA is available."
        else (do
          invocation ← new_invocation world turn tool_call ToolInvocationTarget.ara none
          call world (λ env. create_tool_invocation env invocation)
          approval ←
              new_approval world turn invocation.id host_command_capability
                (text_append "Host command: " (take_chars 200 reason))
          call world (λ env. create_coordinator_approval env approval)
          pause world turn run_lease_id messages)

  abbrev pub continue_host :
      ConversationTurn
      → Uuid
      → ToolCall
      → List ModelMessage
      → String
      → Option ToolInvocation
      → Coord Outcome
  continue_host turn run_lease_id tool_call messages reason (some existing) =
      resume_host turn run_lease_id tool_call messages reason existing existing.state
  continue_host turn run_lease_id tool_call messages reason none =
      request_host turn run_lease_id tool_call messages reason

  abbrev pub host_with :
      ConversationTurn → Uuid → ToolCall → List ModelMessage → Bool → Option String → Coord Outcome
  host_with turn run_lease_id tool_call messages true (some reason) = do
    existing ← call world (λ _. get_tool_invocation turn.tenant_id turn.id tool_call.id)
    continue_host turn run_lease_id tool_call messages reason existing
  host_with turn run_lease_id tool_call messages _ _ =
      answered messages tool_call.name "Invalid host command arguments."

  unfoldable pub delegate_host_command :
      ConversationTurn → Uuid → ToolCall → List ModelMessage → Coord Outcome
  delegate_host_command turn run_lease_id tool_call messages =
      host_with turn run_lease_id tool_call messages
        (is_argv (lookup "argv" tool_call.arguments)
          && is_directory (lookup "cwd" tool_call.arguments))
        (as_text (lookup "reason" tool_call.arguments))

  abbrev pub is_memory_tool : String → Bool
  is_memory_tool name =
      str_eq name "get_fact" || str_eq name "set_fact" || str_eq name "search_session"

  unfoldable pub execute_call :
      ConversationTurn → Uuid → ToolCall → List String → List ModelMessage → Coord Outcome
  execute_call turn run_lease_id tool_call known_tools messages =
      if str_eq tool_call.name "delegate_ara" && contains tool_call.name known_tools
      then delegate_ara world turn run_lease_id tool_call messages
      else if str_eq tool_call.name "delegate_host_command" && contains tool_call.name known_tools
      then delegate_host_command turn run_lease_id tool_call messages
      else if is_memory_tool tool_call.name
      then execute_memory_tool world turn tool_call messages
      else execute_local world turn tool_call known_tools messages
