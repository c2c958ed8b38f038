-- ===== src/Agent/Coordinator/Stream.antt =====
-- stream_turn and start_turn of conversations.py: a run of a turn whose model answers in pieces,
-- and the start of a turn. The pieces are passed on to the caller as they come; that is left out.
use astra_agent.Base.{
  ℕ, zero, suc, ◌-◌, String, Bool, not, Option, none, some, List, [], ◌∷◌, ◌++◌, find, ◌==◌, str_eq,
  if◌then◌else◌,
}
use astra_agent.Base.Exec.{
  conflict, validation, provider_error, Result, ok, err, pure, raise, require, guard, ◌>>=◌, ◌>>◌,
}
use astra_agent.Base.Text.{join}
use astra_agent.Domain.Kinds.{
  EventType, ActorType, MessageRole, ConversationTurnState, BackgroundJobKind, BackgroundJobState,
}
use astra_agent.Domain.Models.{
  Uuid, text, uuid, obj, field, end, ConversationTurn, ConversationMessage, BackgroundJob,
}
use astra_agent.Runtime.State.{Env, event}
use astra_agent.Runtime.Conversations.{list_messages}
use astra_agent.Runtime.Turns.{create_turn}
use astra_agent.Agent.Coordinator.Messages.{ModelMessage, ToolCall, ModelCompletion}
use astra_agent.Agent.Coordinator.Session.{World, Coord, call, readings, in_length}
use astra_agent.Agent.Coordinator.History.{messages_for_turn}
use astra_agent.Agent.Coordinator.Calls.{Outcome, or_text}
use astra_agent.Agent.Coordinator.Host.{execute_call}
use astra_agent.Agent.Coordinator.Loop.{summary, unless_paused, offered_tools, log_turn, finish}

pub record ModelStreamEvent : Type 0 where
  pub kind : String
  pub content : String
  pub tool_call : Option ToolCall

-- The events of one answer, and whether ModelProviderError is raised after them.
abbrev pub Streamer : Type 0
Streamer = ℕ → List ModelMessage → List String → List ModelStreamEvent × Bool

unfoldable pub contents_of : List ModelStreamEvent → List String
contents_of [] = []
contents_of (event ∷ events) =
    let rest = contents_of events in
    if str_eq event.kind "content" then event.content ∷ rest else rest

abbrev pub call_of : ModelStreamEvent → List ToolCall
call_of event = elim event.tool_call [
  | none ↦ []
  | some tool_call ↦ if str_eq event.kind "tool_call" then tool_call ∷ [] else []
]

unfoldable pub calls_of : List ModelStreamEvent → List ToolCall
calls_of [] = []
calls_of (event ∷ events) = call_of event ++ calls_of events

-- What the events of an answer amount to; no content is none.
abbrev pub completion_from : List ModelStreamEvent → ModelCompletion
completion_from events = record {
  content = some (join "" (contents_of events));
  tool_calls = calls_of events;
}

-- `if not calls: …`
abbrev pub if_streamed : {A : Type 0} → List ToolCall → Coord A → Coord A → Coord A
if_streamed [] finished rest = finished
if_streamed (tool_call ∷ calls) finished rest = rest

module _ (world : World) where
  -- `streamer(messages, definitions)`
  unfoldable pub stream :
      Streamer → List ModelMessage → List String → Coord (List ModelStreamEvent × Bool)
  stream streamer messages definitions s = (
    ok (streamer s.steps messages definitions),
    record s { steps = suc s.steps; requests = suc s.requests },
  )

  -- The calls of one answer, up to one that pauses the turn.
  unfoldable pub stream_calls :
      ConversationTurn → Uuid → List String → List ToolCall → List ModelMessage → Coord Outcome
  stream_calls turn run_lease_id known_tools [] messages = pure (none, messages)
  stream_calls turn run_lease_id known_tools (tool_call ∷ calls) messages = do
    outcome ← execute_call world turn run_lease_id tool_call known_tools messages
    unless_paused (λ paused. (some paused, outcome.1)) outcome.0
        (stream_calls turn run_lease_id known_tools calls outcome.1)

  -- The loop of model requests, with what is left of the limit. It ends when the turn is paused.
  unfoldable pub stream_loop :
      Streamer
      → ℕ
      → ConversationTurn
      → Uuid
      → List String
      → List ModelMessage
      → Coord (Option ConversationTurn)
  stream_loop streamer zero turn run_lease_id known_tools messages = do
    completed ← finish world turn run_lease_id "I stopped after reaching the tool-call limit."
    pure (some completed)
  stream_loop streamer (suc remaining) turn run_lease_id known_tools messages = do
    answer ← stream streamer messages known_tools
    guard (not answer.1) provider_error
    let completion = completion_from answer.0
    if_streamed completion.tool_calls
        (do
          completed ←
              finish world turn run_lease_id
                (or_text completion.content "I could not produce a response.")
          pure (some completed))
        (do
          outcome ←
              stream_calls turn run_lease_id known_tools completion.tool_calls
                (messages ++ summary completion ∷ [])
          unless_paused (λ paused. some paused) outcome.0
              (stream_loop streamer remaining turn run_lease_id known_tools outcome.1))

  -- `except ModelProviderError: …; raise`
  abbrev pub after_stream :
      ConversationTurn → Result (Option ConversationTurn) → Coord (Option ConversationTurn)
  after_stream turn (ok result) = pure result
  after_stream turn (err provider_error) = do
    log_turn world turn EventType.model_failed (obj (field "turn_id" (uuid turn.id) end))
    raise provider_error
  after_stream turn (err failure) = raise failure

  unfoldable pub stream_with :
      Streamer
      → ConversationTurn
      → Uuid
      → List ModelMessage
      → ℕ
      → List String
      → Coord (Option ConversationTurn)
  stream_with streamer turn run_lease_id messages iterations known_tools s =
      let (result, after) =
        stream_loop streamer (world.max_tool_iterations - iterations) turn run_lease_id known_tools
          messages s in
      after_stream turn result after

  -- The provider may have no method for streams. Calls that a checkpoint keeps are not looked at.
  abbrev pub stream_through :
      Option Streamer
      → ConversationTurn
      → Uuid
      → List ModelMessage
      → ℕ
      → List String
      → Coord (Option ConversationTurn)
  stream_through none turn run_lease_id messages iterations known_tools = raise provider_error
  stream_through (some streamer) turn run_lease_id messages iterations known_tools =
      stream_with streamer turn run_lease_id messages iterations known_tools

  unfoldable pub stream_turn :
      Option Streamer → ConversationTurn → Uuid → Coord (Option ConversationTurn)
  stream_turn streamer turn run_lease_id = do
    start ← messages_for_turn world turn
    known_tools ← offered_tools world turn.tenant_id
    stream_through streamer turn run_lease_id start.0 start.1 known_tools

  abbrev pub turn_of : Env → Uuid → Uuid → Uuid → ConversationMessage → ConversationTurn
  turn_of env tenant_id conversation_id client_request_id user_message = record {
    id = env.fresh 1;
    tenant_id = tenant_id;
    conversation_id = conversation_id;
    user_message_id = user_message.id;
    client_request_id = client_request_id;
    state = ConversationTurnState.pending;
    checkpoint = obj end;
    run_lease_id = none;
    run_lease_expires_at = none;
    created_at = env.created 1;
    updated_at = env.created 2;
    completed_at = none;
  }

  abbrev pub extraction_job : Env → Uuid → Uuid → String → BackgroundJob
  extraction_job env tenant_id message_id content = record {
    id = env.fresh 2;
    tenant_id = tenant_id;
    kind = BackgroundJobKind.memory_extraction;
    source_id = message_id;
    payload =
        obj (field "source_event_id" (uuid (env.event_id 0)) (field "content" (text content) end));
    state = BackgroundJobState.pending;
    attempt_count = 0;
    max_attempts = 8;
    available_at = env.created 3;
    lease_id = none;
    lease_expires_at = none;
    last_error = none;
    created_at = env.created 4;
    updated_at = env.created 5;
    completed_at = none;
  }

  -- The message of a turn that was there before.
  unfoldable pub existing_start :
      Uuid → Uuid → ConversationTurn → Coord (ConversationMessage × ConversationTurn)
  existing_start tenant_id conversation_id created = do
    messages ← call world (λ env. list_messages tenant_id conversation_id world.history_limit)
    existing ←
        require (find (λ item. item.id == created.user_message_id) messages)
          (conflict "turn user message is unavailable")
    pure (existing, created)

  unfoldable pub start_turn :
      Uuid → Uuid → Uuid → Uuid → String → Coord (ConversationMessage × ConversationTurn)
  start_turn tenant_id user_id conversation_id client_request_id content = do
    env ← readings world
    guard (in_length 1 50000 content) validation
    let user_message : ConversationMessage = record {
      id = env.fresh 0;
      tenant_id = tenant_id;
      conversation_id = conversation_id;
      role = MessageRole.user;
      content = content;
      created_at = env.created 0;
    }
    let turn = turn_of env tenant_id conversation_id client_request_id user_message
    created ← call world (λ e.
        create_turn user_message turn
          (event env 0 tenant_id EventType.conversation_received ActorType.user (some user_id) none
              (obj (
                field "conversation_id" (uuid conversation_id)
                  (field "message_id" (uuid user_message.id) end)))
            ∷ event env 1 tenant_id EventType.conversation_turn_created ActorType.coordinator none
                none (obj (field "turn_id" (uuid turn.id) end))
            ∷ [])
          (extraction_job env tenant_id user_message.id content))
    if created.id == turn.id
        then pure (user_message, created)
        else existing_start tenant_id conversation_id created
