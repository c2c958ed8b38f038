-- ===== src/Runtime/Turns.antt =====
-- The conversation turns of memory.py: created once for a client request, run under a lease of at
-- most fifteen minutes, checkpointed, paused, completed.
mod Claims
pub mod Leases
mod Requests
mod Tests
use astra_agent.Base.{
  ℕ, ◌+◌, ◌-◌, ◌%◌, Bool, true, false, ◌&&◌, ◌||◌, not, Option, none, some, List, ◌==◌, ltb, leb,
  holds, at_most, is_none, if◌then◌else◌, find, filter, sort, ascending,
}
use astra_agent.Base.Dict.{get, put, values}
use astra_agent.Base.Exec.{
  require_owned, not_found, conflict, lookup_error, pure, gets, modify, require, guard, ◌>>=◌, ◌>>◌,
}
use astra_agent.Domain.Kinds.{ConversationTurnState, MessageRole, EventType, ActorType}
use astra_agent.Domain.Models.{
  Uuid, Instant, Json, uuid, ConversationMessage, ConversationTurn, AuditEvent, BackgroundJob,
}
use astra_agent.Runtime.State.{Env, Method, event, entry, log, log_all, owned}
use astra_agent.Runtime.Conversations.{put_message, touch}

abbrev pub is_pending : ConversationTurnState → Bool
is_pending ConversationTurnState.pending = true
is_pending _ = false

abbrev pub is_running : ConversationTurnState → Bool
is_running ConversationTurnState.running = true
is_running _ = false

abbrev pub is_user : MessageRole → Bool
is_user MessageRole.user = true
is_user MessageRole.assistant = false

abbrev pub put_turn : Uuid → ConversationTurn → Method (Unit {0})
put_turn turn_id turn = modify (λ s. record s { turns = put s.turns turn_id turn })

-- The audit event of a turn, the n-th of a call.
abbrev pub turn_event : Env → ℕ → Uuid → EventType → Uuid → AuditEvent
turn_event env n tenant_id event_type turn_id =
    event env n tenant_id event_type ActorType.coordinator none none
      (entry "turn_id" (uuid turn_id))

abbrev pub same_request : ConversationTurn → ConversationTurn → Bool
same_request turn item =
    item.tenant_id == turn.tenant_id && item.client_request_id == turn.client_request_id

-- The user message of a new turn belongs to the turn's conversation and tenant.
abbrev pub opens : ConversationMessage → ConversationTurn → Bool
opens user_message turn =
    user_message.tenant_id == turn.tenant_id
    && user_message.conversation_id == turn.conversation_id
    && user_message.id == turn.user_message_id
    && is_user user_message.role

unfoldable pub create_new :
    ConversationMessage
    → ConversationTurn
    → List AuditEvent
    → BackgroundJob
    → Option ConversationTurn
    → Method ConversationTurn
create_new user_message turn events extraction_job (some existing) = pure existing
create_new user_message turn events extraction_job none = do
  found ← gets (λ s. get s.conversations turn.conversation_id)
  conversation ←
      require_owned (λ c. c.tenant_id) found turn.tenant_id (not_found "conversation not found")
  guard (opens user_message turn) (not_found "conversation not found")
  put_message user_message
  put_turn turn.id turn
  touch conversation user_message.created_at
  log_all events
  modify (λ s. record s { jobs = put s.jobs extraction_job.id extraction_job })
  pure turn

unfoldable pub create_turn :
    ConversationMessage
    → ConversationTurn
    → List AuditEvent
    → BackgroundJob
    → Method ConversationTurn
create_turn user_message turn events extraction_job = do
  existing ← gets (λ s. find (same_request turn) (values s.turns))
  create_new user_message turn events extraction_job existing

unfoldable pub get_turn : Uuid → Uuid → Method (Option ConversationTurn)
get_turn tenant_id turn_id =
    gets (λ s. owned (λ (t : ConversationTurn). t.tenant_id) (get s.turns turn_id) tenant_id)

unfoldable pub list_conversation_turns : Uuid → Uuid → Method (List ConversationTurn)
list_conversation_turns tenant_id conversation_id = gets λ s.
    filter (λ t. t.tenant_id == tenant_id && t.conversation_id == conversation_id)
      (sort (ascending (λ t. t.created_at)) (values s.turns))

-- `now.replace(microsecond=0) + timedelta(minutes=15)`
abbrev pub latest_expiry : Instant → Instant
latest_expiry now = now - now % 1000000 + 900000000

unfoldable pub validate_run_lease_expiry : Env → Instant → Method (Unit {0})
validate_run_lease_expiry env expires_at =
    guard (ltb (env.now 0) expires_at && leb expires_at (latest_expiry (env.now 0)))
      (conflict "run lease must expire within 15 minutes")

-- The turn runs under this lease, which has not expired.
abbrev pub is_claimed : Instant → Uuid → ConversationTurn → Bool
is_claimed now run_lease_id turn =
    is_running turn.state
    && holds turn.run_lease_id run_lease_id
    && not (is_none turn.run_lease_expires_at || at_most turn.run_lease_expires_at now)

unfoldable pub active_turn : Env → Uuid → Uuid → Uuid → Method ConversationTurn
active_turn env tenant_id turn_id run_lease_id = do
  found ← gets (λ s. get s.turns turn_id)
  turn ← require_owned (λ t. t.tenant_id) found tenant_id (not_found "turn not found")
  guard (is_claimed (env.now 0) run_lease_id turn) (conflict "turn is not actively claimed")
  pure turn

abbrev pub claimed_turn : Instant → Uuid → Instant → ConversationTurn → ConversationTurn
claimed_turn now run_lease_id run_lease_expires_at turn = record turn {
  state = ConversationTurnState.running;
  run_lease_id = some run_lease_id;
  run_lease_expires_at = some run_lease_expires_at;
  updated_at = now;
}

unfoldable pub claim_found :
    Env → Uuid → Uuid → Instant → Option ConversationTurn → Method (Option ConversationTurn)
claim_found env tenant_id run_lease_id run_lease_expires_at none = pure none
claim_found env tenant_id run_lease_id run_lease_expires_at (some turn) = do
  let claimed = claimed_turn (env.now 1) run_lease_id run_lease_expires_at turn
  put_turn turn.id claimed
  log (turn_event env 0 tenant_id EventType.conversation_turn_running turn.id)
  pure (some claimed)

abbrev pub is_due : Uuid → Instant → ConversationTurn → Bool
is_due tenant_id now item =
    item.tenant_id == tenant_id
    && (is_pending item.state || is_running item.state && at_most item.run_lease_expires_at now)

unfoldable pub claim_pending_turn : Env → Uuid → Uuid → Instant → Method (Option ConversationTurn)
claim_pending_turn env tenant_id run_lease_id run_lease_expires_at = do
  validate_run_lease_expiry env run_lease_expires_at
  turn ← gets (λ s.
      find (is_due tenant_id (env.now 1)) (sort (ascending (λ t. t.created_at)) (values s.turns)))
  claim_found env tenant_id run_lease_id run_lease_expires_at turn

-- `turn`, unless it is missing, another tenant's, or not pending
abbrev pub claimable_turn : Uuid → Option ConversationTurn → Option ConversationTurn
claimable_turn tenant_id none = none
claimable_turn tenant_id (some turn) =
    if turn.tenant_id == tenant_id && is_pending turn.state then some turn else none

unfoldable pub claim_turn : Env → Uuid → Uuid → Uuid → Instant → Method (Option ConversationTurn)
claim_turn env tenant_id turn_id run_lease_id run_lease_expires_at = do
  validate_run_lease_expiry env run_lease_expires_at
  found ← gets (λ s. get s.turns turn_id)
  claim_found env tenant_id run_lease_id run_lease_expires_at (claimable_turn tenant_id found)

unfoldable pub checkpoint_turn : Env → Uuid → Uuid → Uuid → Json → Method ConversationTurn
checkpoint_turn env tenant_id turn_id run_lease_id checkpoint = do
  turn ← active_turn env tenant_id turn_id run_lease_id
  let updated = record turn { checkpoint = checkpoint; updated_at = env.now 1 }
  put_turn turn_id updated
  pure updated

abbrev pub paused_turn : Instant → Json → ConversationTurn → ConversationTurn
paused_turn now checkpoint turn = record turn {
  state = ConversationTurnState.paused;
  checkpoint = checkpoint;
  run_lease_id = none;
  run_lease_expires_at = none;
  updated_at = now;
}

unfoldable pub pause_turn : Env → Uuid → Uuid → Uuid → Json → Method ConversationTurn
pause_turn env tenant_id turn_id run_lease_id checkpoint = do
  turn ← active_turn env tenant_id turn_id run_lease_id
  let paused = paused_turn (env.now 1) checkpoint turn
  put_turn turn_id paused
  log (turn_event env 0 tenant_id EventType.conversation_turn_paused turn_id)
  pure paused

abbrev pub completed_turn : Instant → ConversationTurn → ConversationTurn
completed_turn now turn = record turn {
  state = ConversationTurnState.completed;
  run_lease_id = none;
  run_lease_expires_at = none;
  updated_at = now;
  completed_at = some now;
}

unfoldable pub complete_turn :
    Env → Uuid → Uuid → Uuid → ConversationMessage → Method ConversationTurn
complete_turn env tenant_id turn_id run_lease_id assistant_message = do
  turn ← active_turn env tenant_id turn_id run_lease_id
  guard
      (assistant_message.tenant_id == tenant_id
        && assistant_message.conversation_id == turn.conversation_id
        && not (is_user assistant_message.role))
      (conflict "assistant message ownership mismatch")
  let completed = completed_turn (env.now 1) turn
  put_turn turn_id completed
  put_message assistant_message
  found ← gets (λ s. get s.conversations turn.conversation_id)
  conversation ← require found lookup_error
  touch conversation assistant_message.created_at
  log (turn_event env 0 tenant_id EventType.conversation_turn_completed turn_id)
  pure completed
