-- ===== src/Agent/Coordinator/Quiet/Calls.antt =====
-- The start of a turn and its local tool calls: their effect on the log and on the count of
-- requests.
use astra_agent.Base.{ℕ, ◌≡◌, refl, String, Option, none, some, List}
use astra_agent.Base.Exec.{Result, ok, err}
use astra_agent.Domain.Kinds.{ToolInvocationTarget}
use astra_agent.Domain.Models.{
  Uuid, Json, Items, arr, Fields, Capability, ConversationTurn, ToolInvocation,
}
use astra_agent.Agent.Coordinator.Effects.{Asks, ask_rules}
use astra_agent.Agent.Tools.Files.{ToolResult}
use astra_agent.Agent.Coordinator.Messages.{ModelMessage, ToolCall}
use astra_agent.Agent.Coordinator.Session.{World, MemoryTools, Coord}
use astra_agent.Agent.Coordinator.History.{
  has_available_ara, has_available_host_ara, pending_from, restored, guidance, compiled, start_from,
  messages_for_turn, checkpoint,
}
use astra_agent.Agent.Coordinator.Calls.{
  new_invocation, new_approval, await_approval, record_result, dispatch_call, execute_local,
  search_session, run_memory_tool, memory_result, attempt, with_memory_tools, execute_memory_tool,
}
use astra_agent.Agent.Coordinator.Quiet.Reads.{IsLogging, store_rules}

module _ (world : World)
    (tools_log : (tools : MemoryTools) → world.memory_tools ≡ some tools → IsLogging tools) where
  pub has_available_ara-Asks : (t : Uuid) → Asks 0 (has_available_ara world t)
  unfolding has_available_ara
  has_available_ara-Asks t = search (ask_rules, store_rules) depth 20

  pub has_available_host_ara-Asks : (t : Uuid) → Asks 0 (has_available_host_ara world t)
  unfolding has_available_host_ara
  has_available_host_ara-Asks t = search ask_rules

  pub pending_from-Asks :
      (ms : List ModelMessage) (n : ℕ) (j : Json) → Asks 0 (pending_from world ms n j)
  unfolding pending_from
  pending_from-Asks ms n (arr items) = search ask_rules depth 20
  pending_from-Asks ms n _ = search ask_rules depth 20

  pub restored-Asks : (fs : Fields) (items : Items) → Asks 0 (restored world fs items)
  unfolding restored
  restored-Asks fs items = search (ask_rules, pending_from-Asks) depth 20

  pub guidance-Asks : (t : Uuid) → Asks 0 (guidance world t)
  unfolding guidance
  guidance-Asks t = search (ask_rules, has_available_ara-Asks, has_available_host_ara-Asks) depth 20

  pub compiled-Asks : (turn : ConversationTurn) → Asks 0 (compiled world turn)
  unfolding compiled
  compiled-Asks turn = search (ask_rules, store_rules, guidance-Asks) depth 30

  pub start_from-Asks :
      (turn : ConversationTurn) (o : Option Json) → Asks 0 (start_from world turn o)
  start_from-Asks turn (some (arr items)) = search restored-Asks
  start_from-Asks turn (some _) = search compiled-Asks
  start_from-Asks turn none = search compiled-Asks

  pub messages_for_turn-Asks : (turn : ConversationTurn) → Asks 0 (messages_for_turn world turn)
  unfolding messages_for_turn
  messages_for_turn-Asks turn = search start_from-Asks

  pub checkpoint-Asks :
      (turn : ConversationTurn) (l : Uuid) (ms : List ModelMessage) (n : ℕ) (cs : List ToolCall)
      → Asks 0 (checkpoint world turn l ms n cs)
  unfolding checkpoint
  checkpoint-Asks turn l ms n cs = search (ask_rules, store_rules) depth 20

  pub new_invocation-Asks :
      (turn : ConversationTurn) (c : ToolCall) (target : ToolInvocationTarget) (k : Option Uuid)
      → Asks 0 (new_invocation world turn c target k)
  unfolding new_invocation
  new_invocation-Asks turn c target k = search ask_rules depth 20

  pub new_approval-Asks :
      (turn : ConversationTurn) (i : Uuid) (c : Capability) (reason : String)
      → Asks 0 (new_approval world turn i c reason)
  unfolding new_approval
  new_approval-Asks turn i c reason = search ask_rules depth 20

  pub await_approval-Asks :
      (turn : ConversationTurn) (c : ToolCall) (ms : List ModelMessage) (i : Uuid) (r : ToolResult)
      → Asks 0 (await_approval world turn c ms i r)
  unfolding await_approval
  await_approval-Asks turn c ms i r = search (ask_rules, store_rules, new_approval-Asks) depth 30

  pub record_result-Asks :
      (turn : ConversationTurn) (c : ToolCall) (ms : List ModelMessage) (i : Uuid) (r : ToolResult)
      → Asks 0 (record_result world turn c ms i r)
  unfolding record_result
  record_result-Asks turn c ms i r = search (ask_rules, store_rules) depth 30

  pub dispatch_call-Asks :
      (turn : ConversationTurn) (c : ToolCall) (ms : List ModelMessage) (k : Uuid)
      (i : ToolInvocation)
      → Asks 0 (dispatch_call world turn c ms k i)
  unfolding dispatch_call
  dispatch_call-Asks turn c ms k i =
      search (ask_rules, await_approval-Asks, record_result-Asks) depth 30

  pub execute_local-Asks :
      (turn : ConversationTurn) (c : ToolCall) (known : List String) (ms : List ModelMessage)
      → Asks 0 (execute_local world turn c known ms)
  unfolding execute_local
  execute_local-Asks turn c known ms =
      search (ask_rules, store_rules, new_invocation-Asks, dispatch_call-Asks) depth 30

  module _ (tools : MemoryTools) (logging : IsLogging tools) where
    pub search_session-Asks :
        (turn : ConversationTurn) (fs : Fields) → Asks 0 (search_session world tools turn fs)
    unfolding search_session
    search_session-Asks turn fs = search (ask_rules, store_rules, logging.search_session) depth 30

    pub run_memory_tool-Asks :
        (turn : ConversationTurn) (c : ToolCall) → Asks 0 (run_memory_tool world tools turn c)
    unfolding run_memory_tool
    run_memory_tool-Asks turn c =
        search (ask_rules, logging.get_fact, logging.set_fact, search_session-Asks) depth 30

  pub attempt-Asks : {A : Type 0} (m : Coord A) → Asks 0 m → Asks 0 (attempt world m)
  attempt-Asks m k = record { asks = k.asks; logs = k.logs }

  pub memory_result-Asks :
      (turn : ConversationTurn) (c : ToolCall) (ms : List ModelMessage) (i : Uuid)
      (r : Result String)
      → Asks 0 (memory_result world turn c ms i r)
  unfolding memory_result
  memory_result-Asks turn c ms i (ok r) = search (ask_rules, store_rules) depth 30
  memory_result-Asks turn c ms i (err e) = search (ask_rules, store_rules) depth 30

  pub with_memory_tools-Asks :
      (o : Option MemoryTools)
      → world.memory_tools ≡ o
      → (turn : ConversationTurn) (c : ToolCall) (ms : List ModelMessage)
      → Asks 0 (with_memory_tools world o turn c ms)
  with_memory_tools-Asks none e turn c ms = search ask_rules
  with_memory_tools-Asks (some tools) e turn c ms =
      search
        (
          ask_rules,
          store_rules,
          new_invocation-Asks,
          attempt-Asks,
          memory_result-Asks,
          run_memory_tool-Asks tools (tools_log tools e),
        )
        depth 30

  pub execute_memory_tool-Asks :
      (turn : ConversationTurn) (c : ToolCall) (ms : List ModelMessage)
      → Asks 0 (execute_memory_tool world turn c ms)
  unfolding execute_memory_tool
  execute_memory_tool-Asks turn c ms = with_memory_tools-Asks world.memory_tools refl turn c ms
