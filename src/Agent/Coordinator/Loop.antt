-- ===== src/Agent/Coordinator/Loop.antt =====
-- run_turn and advance_one of conversations.py: the tool calls that wait, then the loop of model
-- requests and tool calls, up to the limit on requests. The loop counts down what is left of the
-- limit.
use astra_agent.Base.{
  ℕ, zero, suc, ◌+◌, ◌-◌, String, false, Option, none, some, List, [], ◌∷◌, ◌++◌, map, length,
  is_some, if◌then◌else◌,
}
use astra_agent.Base.Exec.{validation, provider_error, pure, raise, guard, ◌>>=◌, ◌>>◌}
use astra_agent.Domain.Kinds.{EventType, ActorType, MessageRole}
use astra_agent.Domain.Models.{Uuid, Instant, Json, num, uuid, obj, field, end, ConversationTurn}
use astra_agent.Runtime.State.{event}
use astra_agent.Runtime.Artifacts.{append_event}
use astra_agent.Runtime.Turns.{complete_turn, claim_pending_turn}
use astra_agent.Agent.Tools.Registry.{definitions}
use astra_agent.Agent.Coordinator.Messages.{ModelMessage, ToolCall, ModelCompletion}
use astra_agent.Agent.Coordinator.Session.{World, Coord, call, ask, readings, complete, in_length}
use astra_agent.Agent.Coordinator.History.{
  messages_for_turn, checkpoint, has_available_ara, has_available_host_ara,
}
use astra_agent.Agent.Coordinator.Calls.{or_text, tool_call_summary}
use astra_agent.Agent.Coordinator.Host.{execute_call}
use astra_agent.Agent.Coordinator.Planning.{planning}

-- The turn is paused, or goes on with these messages.
pub data Advance : Type 0 where
  stopped : ConversationTurn → Advance
  ongoing : ConversationTurn → List ModelMessage → Advance

abbrev pub summary : ModelCompletion → ModelMessage
summary completion = record {
  role = "system";
  content = tool_call_summary completion.tool_calls completion.content;
}

-- A turn that is paused is returned, else the rest is done.
abbrev pub unless_paused :
    {A : Type 0} → (ConversationTurn → A) → Option ConversationTurn → Coord A → Coord A
unless_paused stop (some paused) rest = pure (stop paused)
unless_paused stop none rest = rest

abbrev pub unless_stopped :
    Advance
    → (ConversationTurn → List ModelMessage → Coord ConversationTurn)
    → Coord ConversationTurn
unless_stopped (stopped paused) rest = pure paused
unless_stopped (ongoing turn messages) rest = rest turn messages

-- `if not completion.tool_calls: return …`
abbrev pub if_no_calls :
    List ToolCall → Coord ConversationTurn → Coord ConversationTurn → Coord ConversationTurn
if_no_calls [] finished rest = finished
if_no_calls (tool_call ∷ tool_calls) finished rest = rest

module _ (world : World) where
  -- The names of the tools that the model is offered.
  unfoldable pub offered_tools : Uuid → Coord (List String)
  offered_tools tenant_id = do
    local_tools ← ask world (λ n. map (λ t. t.name) (definitions (world.registry n) tenant_id))
    available ← if world.delegation_enabled then has_available_ara world tenant_id else pure false
    has_host_ara ← has_available_host_ara world tenant_id
    pure (
        local_tools
        ++ (if is_some world.memory_tools
            then "get_fact" ∷ "set_fact" ∷ "search_session" ∷ []
            else [])
        ++ (if available then "delegate_ara" ∷ [] else [])
        ++ (if has_host_ara then "delegate_host_command" ∷ [] else []))

  -- `while pending_calls: …`
  unfoldable pub run_calls :
      Uuid → List String → ℕ → List ToolCall → ConversationTurn → List ModelMessage → Coord Advance
  run_calls run_lease_id known_tools iterations [] turn messages = pure (ongoing turn messages)
  run_calls run_lease_id known_tools iterations (tool_call ∷ remaining_calls) turn messages = do
    outcome ← execute_call world turn run_lease_id tool_call known_tools messages
    unless_paused stopped outcome.0 (do
      updated ← checkpoint world turn run_lease_id outcome.1 iterations remaining_calls
      run_calls run_lease_id known_tools iterations remaining_calls updated outcome.1)

  -- `self._store.append_event(AuditEvent(…))` of a turn
  unfoldable pub log_turn : ConversationTurn → EventType → Json → Coord (Unit {0})
  log_turn turn event_type payload = do
    env ← readings world
    call world (λ _.
        append_event
          (event env 0 turn.tenant_id event_type ActorType.coordinator none none payload))

  -- `complete_turn` with the message of the assistant, whose length the model checks
  unfoldable pub finish : ConversationTurn → Uuid → String → Coord ConversationTurn
  finish turn run_lease_id content = do
    env ← readings world
    guard (in_length 1 50000 content) validation
    call world (λ e. complete_turn e turn.tenant_id turn.id run_lease_id (record {
      id = env.fresh 0;
      tenant_id = turn.tenant_id;
      conversation_id = turn.conversation_id;
      role = MessageRole.assistant;
      content = content;
      created_at = env.created 0;
    }))

  abbrev pub completion_of : ConversationTurn → Option ModelCompletion → Coord ModelCompletion
  completion_of turn (some completion) = pure completion
  completion_of turn none = do
    log_turn turn EventType.model_failed (obj (field "turn_id" (uuid turn.id) end))
    raise provider_error

  -- One request to the model, with its events.
  unfoldable pub request_model :
      ConversationTurn → List ModelMessage → List String → Coord ModelCompletion
  request_model turn messages known_tools = do
    log_turn turn EventType.model_request
        (obj (field "turn_id" (uuid turn.id) (field "message_count" (num (length messages)) end)))
    answer ← complete world messages known_tools
    completion ← completion_of turn answer
    log_turn turn EventType.model_response (
        obj (
          field "turn_id" (uuid turn.id)
            (field "tool_call_count" (num (length completion.tool_calls)) end)))
    pure completion

  unfoldable pub model_loop :
      ℕ → Uuid → List String → ℕ → ConversationTurn → List ModelMessage → Coord ConversationTurn
  model_loop zero run_lease_id known_tools iterations turn messages =
      finish turn run_lease_id "I stopped after reaching the tool-call limit."
  model_loop (suc remaining) run_lease_id known_tools iterations turn messages = do
    completion ← request_model turn messages known_tools
    if_no_calls completion.tool_calls
        (finish turn run_lease_id (or_text completion.content "I could not produce a response."))
        (do
          let asked = messages ++ summary completion ∷ []
          updated ← checkpoint world turn run_lease_id asked (suc iterations) completion.tool_calls
          advance ←
              run_calls run_lease_id known_tools (suc iterations) completion.tool_calls updated
                asked
          unless_stopped advance (λ current appended.
              model_loop remaining run_lease_id known_tools (suc iterations) current appended))

  unfoldable pub run_turn : ConversationTurn → Uuid → Coord ConversationTurn
  run_turn turn run_lease_id = do
    start ← messages_for_turn world turn
    planned ← planning world turn run_lease_id start.0 start.1
    unless_paused (λ paused. paused) planned.0
        (do
          known_tools ← offered_tools turn.tenant_id
          advance ← run_calls run_lease_id known_tools start.1 start.2 turn planned.1
          unless_stopped advance (λ current appended.
              model_loop (world.max_tool_iterations - start.1) run_lease_id known_tools start.1
                current appended))

  -- `now + _RUN_LEASE_DURATION`, five minutes
  abbrev pub lease_end : Instant → Instant
  lease_end now = now + 300000000

  abbrev pub run_claimed : Uuid → Option ConversationTurn → Coord (Option ConversationTurn)
  run_claimed run_lease_id none = pure none
  run_claimed run_lease_id (some turn) = do result ← run_turn turn run_lease_id; pure (some result)

  unfoldable pub advance_one : Uuid → Coord (Option ConversationTurn)
  advance_one tenant_id = do
    env ← readings world
    claimed ← call world (λ e. claim_pending_turn e tenant_id (env.fresh 0) (lease_end (env.now 0)))
    run_claimed (env.fresh 0) claimed
