-- ===== src/Agent/Coordinator/History.antt =====
-- _messages_for_turn and _checkpoint of conversations.py: the messages that a turn starts from,
-- from its checkpoint or compiled anew, and their way into the checkpoint.
use Prim.Native.String.{◌++◌ as text_append}
use astra_agent.Base.{
  ℕ, String, Bool, true, false, ◌&&◌, Option, none, some, List, [], ◌∷◌, map, any, find, ◌==◌, ltb,
  if◌then◌else◌,
}
use astra_agent.Base.Exec.{conflict, validation, pure, raise, gets, require, ◌>>=◌, ◌>>◌}
use astra_agent.Domain.Kinds.{CapabilityKind, EventType, ActorType, MessageRole}
use astra_agent.Domain.Models.{
  Uuid, Json, num, uuid, arr, Items, nil, cons, Fields, obj, field, end, Capability, RemoteAgent,
  ConversationTurn, ConversationMessage,
}
use astra_agent.Domain.Capabilities.{is_in}
use astra_agent.Runtime.State.{event}
use astra_agent.Runtime.Tasks.{is_active}
use astra_agent.Runtime.Agents.{list_remote_agents}
use astra_agent.Runtime.Artifacts.{append_event}
use astra_agent.Runtime.Conversations.{list_messages}
use astra_agent.Runtime.Turns.{checkpoint_turn}
use astra_agent.Agent.Tools.Paths.{lookup, or_default}
use astra_agent.Agent.Coordinator.Messages.{
  ModelMessage, ToolCall, validate_all, checkpoint_fields, entries, as_count,
}
use astra_agent.Agent.Coordinator.Session.{World, Coord, call, readings}

abbrev pub ara_file_read_capability : Capability
ara_file_read_capability = record { kind = CapabilityKind.file_read; scope = "repository" }

abbrev pub has_repository : RemoteAgent → Bool
has_repository ara =
    is_active ara.status && ltb 0 ara.trust_level && is_in ara_file_read_capability ara.capabilities

abbrev pub ara_system_guidance : String
ara_system_guidance =
    text_append
      "Remote repository capability: You can delegate bounded read-only repository inspection to "
      (text_append
        "a connected Astra Remote Agent (ARA) with delegate_ara. Use it for remote repository "
        (text_append
          "inspection, search, and analysis when useful. State this capability accurately: an ARA is "
          (text_append
            "not a general remote-call mechanism. It cannot execute commands, make arbitrary network "
            "calls, modify files, or access resources outside its configured repository.")))

abbrev pub availability : Bool → String
availability true =
    text_append "Current availability: A trusted ARA with repository access is connected. "
      "You may delegate an eligible repository inspection."
availability false = "No repository ARA is connected."

abbrev pub host_availability : Bool → String
host_availability true = " A host command ARA is available for executing approved host commands."
host_availability false = ""

abbrev pub role_text : MessageRole → String
role_text MessageRole.user = "user"
role_text MessageRole.assistant = "assistant"

abbrev pub as_model_message : ConversationMessage → ModelMessage
as_model_message item = record { role = role_text item.role; content = item.content }

-- `[str(item) for item in ids]`
unfoldable pub uuid_items : List Uuid → Items
uuid_items [] = nil
uuid_items (id ∷ ids) = cons (uuid id) (uuid_items ids)

-- The messages, the number of model requests so far, the tool calls that wait.
abbrev pub Start : Type 0
Start = List ModelMessage × ℕ × List ToolCall

module _ (world : World) where
  unfoldable pub has_available_ara : Uuid → Coord Bool
  has_available_ara tenant_id = do
    agents ← call world (λ env. list_remote_agents env tenant_id)
    pure (any has_repository agents)

  -- The check of the host agents answers yes in every case.
  unfoldable pub has_available_host_ara : Uuid → Coord Bool
  has_available_host_ara tenant_id = pure true

  unfoldable pub pending_from : List ModelMessage → ℕ → Json → Coord Start
  pending_from messages iterations (arr items) = do
    pending_calls ← require (validate_all world.validate_call items) validation
    pure (messages, iterations, pending_calls)
  pending_from messages iterations _ = raise (conflict "turn checkpoint has invalid pending calls")

  -- The messages of a checkpoint that holds a list of them.
  unfoldable pub restored : Fields → Items → Coord Start
  restored fields items = do
    messages ← require (validate_all world.validate_message items) validation
    iterations ←
        require (as_count (or_default (lookup "iterations" fields) (num 0)))
          (conflict "turn checkpoint has invalid iteration count")
    pending_from messages iterations (or_default (lookup "pending_calls" fields) (arr nil))

  unfoldable pub guidance : Uuid → Coord String
  guidance tenant_id =
      if world.delegation_enabled
      then (do
        has_repository_ara ← has_available_ara tenant_id
        has_host_ara ← has_available_host_ara tenant_id
        pure (
            text_append "\n\n" (
              text_append ara_system_guidance (
                text_append "\n\n" (
                  text_append (availability has_repository_ara)
                    (host_availability has_host_ara))))))
      else pure ""

  unfoldable pub compiled : ConversationTurn → Coord Start
  compiled turn = do
    history ←
        call world (λ env. list_messages turn.tenant_id turn.conversation_id world.history_limit)
    user_message ←
        require (find (λ item. item.id == turn.user_message_id) history)
          (conflict "turn user message is unavailable")
    briefing ← gets (λ s. world.compile s.store turn.tenant_id user_message.content)
    ara_guidance ← guidance turn.tenant_id
    env ← readings world
    call world (λ _. append_event (
        event env 0 turn.tenant_id EventType.context_compiled ActorType.coordinator none none (
          obj (
            field "turn_id" (uuid turn.id) (
              field "estimated_tokens" (num briefing.estimated_tokens)
                (field "source_memory_ids" (arr (uuid_items briefing.source_memory_ids)) end))))))
    pure (
      record { role = "system"; content = text_append briefing.content ara_guidance }
          ∷ map as_model_message history,
      0,
      [],
    )

  abbrev pub start_from : ConversationTurn → Option Json → Coord Start
  start_from turn (some (arr items)) = restored (entries turn.checkpoint) items
  start_from turn _ = compiled turn

  unfoldable pub messages_for_turn : ConversationTurn → Coord Start
  messages_for_turn turn = start_from turn (lookup "messages" (entries turn.checkpoint))

  unfoldable pub checkpoint :
      ConversationTurn → Uuid → List ModelMessage → ℕ → List ToolCall → Coord ConversationTurn
  checkpoint turn run_lease_id messages iterations pending_calls = call world λ env.
      checkpoint_turn env turn.tenant_id turn.id run_lease_id
        (checkpoint_fields messages iterations pending_calls)
