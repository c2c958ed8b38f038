-- ===== src/Agent/Coordinator/Calls.antt =====
-- _execute_call and _execute_memory_tool of conversations.py: one tool call of the model, run
-- through the registry of local tools or the memory tools. What is appended to the messages comes
-- back with the turn, if the call pauses it.
use Prim.Native.String.{count, ◌++◌ as text_append}
use astra_agent.Base.{
  ℕ, String, Bool, true, false, ◌&&◌, not, Option, none, some, List, [], ◌∷◌, ◌++◌, map, ◌==◌, leb,
  str_eq, if◌then◌else◌,
}
use astra_agent.Base.Exec.{
  Failure, conflict, validation, value_error, Result, ok, err, pure, raise, require, guard, ◌>>=◌,
  ◌>>◌,
}
use astra_agent.Base.Text.{take_chars, join}
use astra_agent.Domain.Kinds.{ActorType, ApprovalState, ToolInvocationState, ToolInvocationTarget}
use astra_agent.Domain.Models.{
  Uuid, Json, flag, num, text, obj, Fields, Capability, ConversationTurn, ToolInvocation, Approval,
}
use astra_agent.Runtime.State.{Env}
use astra_agent.Runtime.Approvals.{create_coordinator_approval}
use astra_agent.Runtime.Conversations.{get_conversation}
use astra_agent.Runtime.Invocations.{
  create_tool_invocation, complete_tool_invocation, fail_tool_invocation,
}
use astra_agent.Runtime.Turns.{get_turn}
use astra_agent.Policy.Planner.{contains}
use astra_agent.Agent.Tools.Paths.{lookup, or_default}
use astra_agent.Agent.Tools.Files.{ToolResult}
use astra_agent.Agent.Tools.Registry.{command_execute_capability, file_read_capability, dispatch}
use astra_agent.Agent.Coordinator.Messages.{ModelMessage, ToolCall}
use astra_agent.Agent.Coordinator.Session.{
  World, MemoryTools, Coord, call, ask, readings, in_length,
}

-- A paused turn, if the call paused it, and the messages after the call.
abbrev pub Outcome : Type 0
Outcome = Option ConversationTurn × List ModelMessage

abbrev pub max_tool_result_chars : ℕ
max_tool_result_chars = 12000

-- `value or default`, of a text that may be missing
abbrev pub or_text : Option String → String → String
or_text none default = default
or_text (some value) default = if count value == 0 then default else value

abbrev pub tool_call_summary : List ToolCall → Option String → String
tool_call_summary calls content =
    text_append (or_text content "The model requested local tools.")
      (text_append "\nTool calls: " (join ", " (map (λ c. c.name) calls)))

abbrev pub tool_message : String → String → ModelMessage
tool_message name content = record {
  role = "system";
  content = text_append "Tool result for " (text_append name (text_append ":\n" content));
}

-- A call that goes on, with one more message.
abbrev pub answered : List ModelMessage → String → String → Coord Outcome
answered messages name content = pure (none, messages ++ tool_message name content ∷ [])

abbrev pub capability_for : String → Capability
capability_for name =
    if str_eq name "run_command" then command_execute_capability else file_read_capability

-- `result.data.get("requires_approval") is True`
abbrev pub is_true : Option Json → Bool
is_true (some (flag b)) = b
is_true _ = false

abbrev pub is_denied : ToolInvocationState → Bool
is_denied ToolInvocationState.denied = true
is_denied _ = false

-- A text that is not empty, where one is wanted.
abbrev pub as_text : Option Json → Option String
as_text (some (text value)) = if count value == 0 then none else some value
as_text _ = none

-- `min(max(limit, 1), 20)`, of an int; a Python `bool` is one.
abbrev pub as_limit : Json → Option ℕ
as_limit (num n) = some (if leb n 1 then 1 else if leb 20 n then 20 else n)
as_limit (flag b) = some 1
as_limit _ = none

-- `except (ValueError, LifecycleConflictError)`; pydantic's ValidationError is a ValueError.
abbrev pub is_caught : Failure → Bool
is_caught (conflict reason) = true
is_caught validation = true
is_caught value_error = true
is_caught _ = false

module _ (world : World) where
  abbrev pub built_invocation :
      Env → ConversationTurn → ToolCall → ToolInvocationTarget → Option Uuid → ToolInvocation
  built_invocation env turn tool_call target task_id = record {
    id = env.fresh 0;
    tenant_id = turn.tenant_id;
    turn_id = turn.id;
    task_id = task_id;
    tool_call_id = tool_call.id;
    tool_name = tool_call.name;
    target = target;
    state = ToolInvocationState.pending;
    arguments = obj tool_call.arguments;
    arguments_sha256 = world.sha256 tool_call.arguments;
    created_at = env.created 0;
    updated_at = env.created 1;
    completed_at = none;
  }

  -- `ToolInvocation(…)`, with the lengths that the model checks
  unfoldable pub new_invocation :
      ConversationTurn → ToolCall → ToolInvocationTarget → Option Uuid → Coord ToolInvocation
  new_invocation turn tool_call target task_id = do
    env ← readings world
    guard (in_length 1 200 tool_call.id && in_length 1 200 tool_call.name) validation
    pure (built_invocation env turn tool_call target task_id)

  -- `Approval(…)` of the coordinator, with the length that the model checks
  unfoldable pub new_approval : ConversationTurn → Uuid → Capability → String → Coord Approval
  new_approval turn invocation_id capability reason = do
    env ← readings world
    guard (in_length 1 2000 reason) validation
    pure (record {
      id = env.fresh 0;
      tenant_id = turn.tenant_id;
      task_id = none;
      tool_invocation_id = some invocation_id;
      capability = capability;
      requested_by = none;
      requestor_type = ActorType.coordinator;
      state = ApprovalState.pending;
      reason = reason;
      created_at = env.created 0;
      decided_at = none;
      decided_by = none;
    })

  -- A tool that needs an approval: the turn waits for one.
  unfoldable pub await_approval :
      ConversationTurn → ToolCall → List ModelMessage → Uuid → ToolResult → Coord Outcome
  await_approval turn tool_call messages invocation_id result = do
    approval ←
        new_approval turn invocation_id (capability_for tool_call.name)
          (or_text result.error (text_append "Approval required to use " tool_call.name))
    call world (λ env. create_coordinator_approval env approval)
    found ← call world (λ _. get_turn turn.tenant_id turn.id)
    paused ← require found (conflict "paused turn is unavailable")
    pure (some paused, messages)

  unfoldable pub record_result :
      ConversationTurn → ToolCall → List ModelMessage → Uuid → ToolResult → Coord Outcome
  record_result turn tool_call messages invocation_id result =
      if result.success
      then (do
        call world (λ env. complete_tool_invocation env turn.tenant_id invocation_id)
        answered messages tool_call.name
            (take_chars max_tool_result_chars (world.dump_result result)))
      else (do
        call world (λ env. fail_tool_invocation env turn.tenant_id invocation_id)
        answered messages tool_call.name "The tool request was denied or could not be completed.")

  -- The dispatch. An invocation that was on record before this call counts as approved.
  unfoldable pub dispatch_call :
      ConversationTurn → ToolCall → List ModelMessage → Uuid → ToolInvocation → Coord Outcome
  dispatch_call turn tool_call messages invocation_id invocation = do
    result ← ask world (λ n.
        dispatch (world.registry n) turn.tenant_id tool_call.name tool_call.arguments
          (if invocation.id == invocation_id then none else some ApprovalState.granted))
    if is_true (lookup "requires_approval" result.data_)
        then await_approval turn tool_call messages invocation.id result
        else record_result turn tool_call messages invocation.id result

  unfoldable pub execute_local :
      ConversationTurn → ToolCall → List String → List ModelMessage → Coord Outcome
  execute_local turn tool_call known_tools messages = do
    built ← new_invocation turn tool_call ToolInvocationTarget.local none
    invocation ← call world (λ env. create_tool_invocation env built)
    if is_denied invocation.state
        then answered messages tool_call.name "Tool use was denied by policy."
        else if not (contains tool_call.name known_tools)
        then (do
          call world (λ env. fail_tool_invocation env turn.tenant_id invocation.id)
          answered messages tool_call.name "Unknown or unavailable local tool.")
        else dispatch_call turn tool_call messages built.id invocation

  unfoldable pub search_session : MemoryTools → ConversationTurn → Fields → Coord String
  search_session tools turn arguments = do
    query ← require (as_text (lookup "query" arguments)) value_error
    limit ← require (as_limit (or_default (lookup "limit" arguments) (num 8))) value_error
    found ← call world (λ _. get_conversation turn.tenant_id turn.conversation_id)
    conversation ← require found (conflict "conversation is unavailable")
    call world (λ env. tools.search_session env turn.tenant_id conversation.user_id query limit)

  -- The body of the `try`.
  unfoldable pub run_memory_tool : MemoryTools → ConversationTurn → ToolCall → Coord String
  run_memory_tool tools turn tool_call =
      if str_eq tool_call.name "get_fact"
      then (do
        topic ← require (as_text (lookup "topic" tool_call.arguments)) value_error
        call world (λ env. tools.get_fact env turn.tenant_id topic))
      else if str_eq tool_call.name "set_fact"
      then (do
        content ← require (as_text (lookup "content" tool_call.arguments)) value_error
        call world (λ env. tools.set_fact env turn.tenant_id turn.user_message_id content))
      else search_session tools turn tool_call.arguments

  -- What follows the `try`, on its result.
  unfoldable pub memory_result :
      ConversationTurn → ToolCall → List ModelMessage → Uuid → Result String → Coord Outcome
  memory_result turn tool_call messages invocation_id (ok result) = do
    call world (λ env. complete_tool_invocation env turn.tenant_id invocation_id)
    answered messages tool_call.name (take_chars max_tool_result_chars result)
  memory_result turn tool_call messages invocation_id (err failure) =
      if is_caught failure
      then (do
        call world (λ env. fail_tool_invocation env turn.tenant_id invocation_id)
        answered messages tool_call.name "Memory tool request could not be completed.")
      else raise failure

  -- `try: …`, whose changes stay when it raises
  abbrev pub attempt : {A : Type 0} → Coord A → Coord (Result A)
  attempt body s = let (result, after) = body s in (ok result, after)

  abbrev pub with_memory_tools :
      Option MemoryTools → ConversationTurn → ToolCall → List ModelMessage → Coord Outcome
  with_memory_tools none turn tool_call messages =
      answered messages tool_call.name "Memory tools are unavailable."
  with_memory_tools (some tools) turn tool_call messages = do
    built ← new_invocation turn tool_call ToolInvocationTarget.local none
    invocation ← call world (λ env. create_tool_invocation env built)
    result ← attempt (run_memory_tool tools turn tool_call)
    memory_result turn tool_call messages invocation.id result

  unfoldable pub execute_memory_tool :
      ConversationTurn → ToolCall → List ModelMessage → Coord Outcome
  execute_memory_tool turn tool_call messages =
      with_memory_tools world.memory_tools turn tool_call messages
