-- ===== src/Runtime/Invocations.antt =====
-- The tool invocations of memory.py: requested once for a tool call, finished once.
mod Finishing
mod Tests
use astra_agent.Base.{
  ℕ, Bool, true, false, ◌&&◌, Option, none, some, ◌==◌, str_eq, String, if◌then◌else◌, find,
}
use astra_agent.Base.Dict.{get, put, values}
use astra_agent.Base.Exec.{
  require_owned, not_found, conflict, pure, gets, modify, guard, ◌>>=◌, ◌>>◌,
}
use astra_agent.Domain.Kinds.{ToolInvocationState, EventType, ActorType}
use astra_agent.Domain.Models.{Uuid, Instant, uuid, ConversationTurn, ToolInvocation, AuditEvent}
use astra_agent.Runtime.State.{Env, Method, event, entry, log}

-- The place of a state in the declaration, by which two states are compared.
abbrev pub state_index : ToolInvocationState → ℕ
state_index ToolInvocationState.pending = 0
state_index ToolInvocationState.awaiting_approval = 1
state_index ToolInvocationState.running = 2
state_index ToolInvocationState.completed = 3
state_index ToolInvocationState.failed = 4
state_index ToolInvocationState.denied = 5

abbrev pub is_pending : ToolInvocationState → Bool
is_pending ToolInvocationState.pending = true
is_pending _ = false

-- `state in {COMPLETED, FAILED, DENIED}`
abbrev pub is_finished : ToolInvocationState → Bool
is_finished ToolInvocationState.completed = true
is_finished ToolInvocationState.failed = true
is_finished ToolInvocationState.denied = true
is_finished _ = false

abbrev pub put_invocation : Uuid → ToolInvocation → Method (Unit {0})
put_invocation invocation_id invocation =
    modify λ s. record s { tool_invocations = put s.tool_invocations invocation_id invocation }

abbrev pub invocation_event :
    Env → ℕ → Uuid → EventType → ActorType → Option Uuid → Uuid → AuditEvent
invocation_event env n tenant_id event_type actor_type actor_id invocation_id =
    event env n tenant_id event_type actor_type actor_id none
      (entry "invocation_id" (uuid invocation_id))

abbrev pub same_call : ToolInvocation → ToolInvocation → Bool
same_call invocation item =
    item.turn_id == invocation.turn_id && str_eq item.tool_call_id invocation.tool_call_id

unfoldable pub create_new : Env → ToolInvocation → Option ToolInvocation → Method ToolInvocation
create_new env invocation (some existing) = pure existing
create_new env invocation none = do
  found ← gets (λ s. get s.turns invocation.turn_id)
  require_owned (λ (t : ConversationTurn). t.tenant_id) found invocation.tenant_id
      (not_found "turn not found")
  put_invocation invocation.id invocation
  log (
      invocation_event env 0 invocation.tenant_id EventType.tool_invocation_requested
        ActorType.coordinator none invocation.id)
  pure invocation

unfoldable pub create_tool_invocation : Env → ToolInvocation → Method ToolInvocation
create_tool_invocation env invocation = do
  existing ← gets (λ s. find (same_call invocation) (values s.tool_invocations))
  create_new env invocation existing

unfoldable pub get_tool_invocation : Uuid → Uuid → String → Method (Option ToolInvocation)
get_tool_invocation tenant_id turn_id tool_call_id = gets λ s.
    find
      (λ i. i.tenant_id == tenant_id && i.turn_id == turn_id && str_eq i.tool_call_id tool_call_id)
      (values s.tool_invocations)

abbrev pub finished_invocation :
    ToolInvocationState → Instant → Option Instant → ToolInvocation → ToolInvocation
finished_invocation state updated_at completed_at invocation = record invocation {
  state = state;
  updated_at = updated_at;
  completed_at = completed_at;
}

abbrev pub finish_event_type : ToolInvocationState → EventType
finish_event_type ToolInvocationState.completed = EventType.tool_invocation_completed
finish_event_type _ = EventType.tool_invocation_failed

-- The branch for an invocation that is not finished yet.
unfoldable pub write_finish :
    Env → Uuid → Uuid → ToolInvocationState → ToolInvocation → Method ToolInvocation
write_finish env tenant_id invocation_id state invocation = do
  let completed = finished_invocation state (env.now 0) (some (env.now 1)) invocation
  put_invocation invocation_id completed
  log (
      invocation_event env 0 tenant_id (finish_event_type state) ActorType.coordinator none
        invocation_id)
  pure completed

unfoldable pub finish_tool_invocation :
    Env → Uuid → Uuid → ToolInvocationState → Method ToolInvocation
finish_tool_invocation env tenant_id invocation_id state = do
  found ← gets (λ s. get s.tool_invocations invocation_id)
  invocation ←
      require_owned (λ i. i.tenant_id) found tenant_id (not_found "tool invocation not found")
  if is_finished invocation.state
      then (do
        guard (state_index invocation.state == state_index state)
            (conflict "tool invocation is already finished")
        pure invocation)
      else write_finish env tenant_id invocation_id state invocation

unfoldable pub complete_tool_invocation : Env → Uuid → Uuid → Method ToolInvocation
complete_tool_invocation env tenant_id invocation_id =
    finish_tool_invocation env tenant_id invocation_id ToolInvocationState.completed

unfoldable pub fail_tool_invocation : Env → Uuid → Uuid → Method ToolInvocation
fail_tool_invocation env tenant_id invocation_id =
    finish_tool_invocation env tenant_id invocation_id ToolInvocationState.failed
