-- ===== src/Agent/Coordinator/Quiet/Delegation.antt =====
-- The tool calls that become tasks, and any tool call: their effect on the log and on the count of
-- requests.
use astra_agent.Base.{◌≡◌, String, Bool, true, false, Option, none, some, List}
use astra_agent.Domain.Kinds.{ToolInvocationState}
use astra_agent.Domain.Models.{Uuid, Json, Capability, ConversationTurn, ToolInvocation, Task}
use astra_agent.Agent.Coordinator.Effects.{Asks, ask_rules}
use astra_agent.Agent.Coordinator.Messages.{ModelMessage, ToolCall}
use astra_agent.Agent.Coordinator.Session.{World, MemoryTools}
use astra_agent.Agent.Coordinator.Delegated.{
  new_task, pause, follow_task, store_task, resume_ara, start_ara, continue_ara, ara_with,
  delegate_ara,
}
use astra_agent.Agent.Coordinator.Host.{
  start_host, follow_host, approved_host, resume_host, request_host, continue_host, host_with,
  delegate_host_command, execute_call,
}
use astra_agent.Agent.Coordinator.Quiet.Reads.{IsLogging, store_rules}
use astra_agent.Agent.Coordinator.Quiet.Calls.{
  has_available_ara-Asks, has_available_host_ara-Asks, new_invocation-Asks, new_approval-Asks,
  execute_local-Asks, execute_memory_tool-Asks,
}

module _ (world : World)
    (tools_log : (tools : MemoryTools) → world.memory_tools ≡ some tools → IsLogging tools) where
  new_task-Asks :
      (turn : ConversationTurn) (o c : String) (k : Capability) (d : String)
      → Asks 0 (new_task world turn o c k d)
  unfolding new_task
  new_task-Asks turn o c k d = search ask_rules depth 20

  pause-Asks :
      (turn : ConversationTurn) (l : Uuid) (ms : List ModelMessage) → Asks 0 (pause world turn l ms)
  unfolding pause
  pause-Asks turn l ms = search (ask_rules, store_rules) depth 20

  follow_task-Asks :
      (turn : ConversationTurn) (l : Uuid) (c : ToolCall) (ms : List ModelMessage) (t : Task)
      → Asks 0 (follow_task world turn l c ms t)
  unfolding follow_task
  follow_task-Asks turn l c ms t = search (ask_rules, pause-Asks) depth 20

  store_task-Asks :
      (turn : ConversationTurn) (t : Task) (payload : Json)
      → Asks 0 (store_task world turn t payload)
  unfolding store_task
  store_task-Asks turn t payload = search (ask_rules, store_rules) depth 20

  resume_ara-Asks :
      (turn : ConversationTurn) (l : Uuid) (c : ToolCall) (ms : List ModelMessage)
      (i : ToolInvocation)
      → Asks 0 (resume_ara world turn l c ms i)
  unfolding resume_ara
  resume_ara-Asks turn l c ms i = search (ask_rules, store_rules, follow_task-Asks) depth 30

  start_ara-Asks :
      (turn : ConversationTurn) (l : Uuid) (c : ToolCall) (ms : List ModelMessage) (o t : String)
      → Asks 0 (start_ara world turn l c ms o t)
  unfolding start_ara
  start_ara-Asks turn l c ms o t =
      search
        (
          ask_rules,
          store_rules,
          new_task-Asks,
          has_available_ara-Asks world tools_log,
          store_task-Asks,
          new_invocation-Asks world tools_log,
          pause-Asks,
        )
        depth 40

  continue_ara-Asks :
      (turn : ConversationTurn) (l : Uuid) (c : ToolCall) (ms : List ModelMessage) (o t : String)
      (e : Option ToolInvocation)
      → Asks 0 (continue_ara world turn l c ms o t e)
  continue_ara-Asks turn l c ms o t none = search start_ara-Asks
  continue_ara-Asks turn l c ms o t (some i) = search resume_ara-Asks

  ara_with-Asks :
      (turn : ConversationTurn) (l : Uuid) (c : ToolCall) (ms : List ModelMessage)
      (o t : Option String)
      → Asks 0 (ara_with world turn l c ms o t)
  ara_with-Asks turn l c ms (some o) (some t) =
      search (ask_rules, store_rules, continue_ara-Asks) depth 30
  ara_with-Asks turn l c ms (some o) none = search ask_rules
  ara_with-Asks turn l c ms none t = search ask_rules

  delegate_ara-Asks :
      (turn : ConversationTurn) (l : Uuid) (c : ToolCall) (ms : List ModelMessage)
      → Asks 0 (delegate_ara world turn l c ms)
  unfolding delegate_ara
  delegate_ara-Asks turn l c ms = search ara_with-Asks

  start_host-Asks :
      (turn : ConversationTurn) (l : Uuid) (c : ToolCall) (ms : List ModelMessage) (r : String)
      (i : ToolInvocation)
      → Asks 0 (start_host world turn l c ms r i)
  unfolding start_host
  start_host-Asks turn l c ms r i =
      search
        (
          ask_rules,
          store_rules,
          new_task-Asks,
          has_available_host_ara-Asks world tools_log,
          store_task-Asks,
          new_invocation-Asks world tools_log,
          pause-Asks,
        )
        depth 40

  follow_host-Asks :
      (turn : ConversationTurn) (l : Uuid) (c : ToolCall) (ms : List ModelMessage) (r : String)
      (i : ToolInvocation) (t : Option Task)
      → Asks 0 (follow_host world turn l c ms r i t)
  follow_host-Asks turn l c ms r i none = search start_host-Asks
  follow_host-Asks turn l c ms r i (some t) = search follow_task-Asks

  approved_host-Asks :
      (turn : ConversationTurn) (l : Uuid) (c : ToolCall) (ms : List ModelMessage) (r : String)
      (i : ToolInvocation) (k : Option Uuid)
      → Asks 0 (approved_host world turn l c ms r i k)
  approved_host-Asks turn l c ms r i none = search start_host-Asks
  approved_host-Asks turn l c ms r i (some k) =
      search (ask_rules, store_rules, follow_host-Asks) depth 30

  resume_host-Asks :
      (turn : ConversationTurn) (l : Uuid) (c : ToolCall) (ms : List ModelMessage) (r : String)
      (i : ToolInvocation) (st : ToolInvocationState)
      → Asks 0 (resume_host world turn l c ms r i st)
  resume_host-Asks turn l c ms r i ToolInvocationState.awaiting_approval = search pause-Asks
  resume_host-Asks turn l c ms r i ToolInvocationState.denied = search ask_rules
  resume_host-Asks turn l c ms r i ToolInvocationState.pending = search approved_host-Asks
  resume_host-Asks turn l c ms r i ToolInvocationState.completed = search approved_host-Asks
  resume_host-Asks turn l c ms r i _ = search ask_rules

  request_host-Asks :
      (turn : ConversationTurn) (l : Uuid) (c : ToolCall) (ms : List ModelMessage) (r : String)
      → Asks 0 (request_host world turn l c ms r)
  unfolding request_host
  request_host-Asks turn l c ms r =
      search
        (
          ask_rules,
          store_rules,
          has_available_host_ara-Asks world tools_log,
          new_invocation-Asks world tools_log,
          new_approval-Asks world tools_log,
          pause-Asks,
        )
        depth 40

  continue_host-Asks :
      (turn : ConversationTurn) (l : Uuid) (c : ToolCall) (ms : List ModelMessage) (r : String)
      (e : Option ToolInvocation)
      → Asks 0 (continue_host world turn l c ms r e)
  continue_host-Asks turn l c ms r none = search request_host-Asks
  continue_host-Asks turn l c ms r (some i) = search resume_host-Asks

  host_with-Asks :
      (turn : ConversationTurn) (l : Uuid) (c : ToolCall) (ms : List ModelMessage) (b : Bool)
      (r : Option String)
      → Asks 0 (host_with world turn l c ms b r)
  host_with-Asks turn l c ms true (some r) =
      search (ask_rules, store_rules, continue_host-Asks) depth 30
  host_with-Asks turn l c ms true none = search ask_rules
  host_with-Asks turn l c ms false r = search ask_rules

  delegate_host_command-Asks :
      (turn : ConversationTurn) (l : Uuid) (c : ToolCall) (ms : List ModelMessage)
      → Asks 0 (delegate_host_command world turn l c ms)
  unfolding delegate_host_command
  delegate_host_command-Asks turn l c ms = search host_with-Asks

  pub execute_call-Asks :
      (turn : ConversationTurn) (l : Uuid) (c : ToolCall) (known : List String)
      (ms : List ModelMessage)
      → Asks 0 (execute_call world turn l c known ms)
  unfolding execute_call
  execute_call-Asks turn l c known ms =
      search
        (
          ask_rules,
          delegate_ara-Asks,
          delegate_host_command-Asks,
          execute_memory_tool-Asks world tools_log,
          execute_local-Asks world tools_log,
        )
        depth 30
