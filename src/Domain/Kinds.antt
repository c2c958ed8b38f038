-- ===== src/Domain/Kinds.antt =====
-- The enumerations of packages/domain/src/astra_domain/models.py. A test `x is Kind.A` or
-- `x in {Kind.A, Kind.B}` of the program is a function by clauses here.
use Prim.Native.Nat.{ℕ}
use mathlib.Core.Bool.{Bool, true, false}

pub data CapabilityKind : Type 0 where
  file_read file_write command_execute command_execute_host : CapabilityKind
  network_access credential_access external_message : CapabilityKind

pub data RemoteAgentStatus : Type 0 where
  active offline revoked : RemoteAgentStatus

pub data TaskState : Type 0 where
  pending leased completed failed cancelled cancelling : TaskState

pub data ConversationTurnState : Type 0 where
  pending running paused completed failed : ConversationTurnState

pub data ToolInvocationTarget : Type 0 where
  local ara : ToolInvocationTarget

pub data ToolInvocationState : Type 0 where
  pending awaiting_approval running completed failed denied : ToolInvocationState

pub data ApprovalState : Type 0 where
  pending granted denied : ApprovalState

pub data ActorType : Type 0 where
  user coordinator ara : ActorType

pub data EventType : Type 0 where
  conversation_created conversation_received context_compiled model_request : EventType
  model_response model_failed pipeline_failed pipeline_recovered job_requeued : EventType
  ara_trust_updated ara_revoked memory_candidate_created memory_promoted : EventType
  memory_rejected memory_contradiction_resolved memory_deleted memory_pinned : EventType
  memory_unpinned task_created ara_registered task_leased lease_renewed : EventType
  ara_progress approval_requested approval_granted approval_denied : EventType
  task_completed task_failed task_cancelled artifact_produced : EventType
  artifact_downloaded artifact_deleted ara_heartbeat conversation_turn_created : EventType
  conversation_turn_running conversation_turn_paused conversation_turn_completed : EventType
  conversation_turn_failed tool_invocation_requested tool_invocation_completed : EventType
  tool_invocation_failed tool_invocation_denied persona_created persona_activated : EventType
  persona_reverted planner_denied migration_staged migration_activated : EventType
  migration_rolled_back : EventType

pub data MemoryKind : Type 0 where
  fact preference project decision commitment : MemoryKind

pub data MemoryState : Type 0 where
  candidate promoted rejected deleted : MemoryState

pub data MigrationBatchState : Type 0 where
  staged active rolled_back : MigrationBatchState

pub data BackgroundJobKind : Type 0 where
  memory_extraction vector_sync : BackgroundJobKind

pub data BackgroundJobState : Type 0 where
  pending running retry completed failed : BackgroundJobState

pub data MessageRole : Type 0 where
  user assistant : MessageRole

pub data LearnedAdaptationState : Type 0 where
  active reversed : LearnedAdaptationState

-- The place of a kind in the declaration, by which two kinds are compared.
abbrev pub kind_index : CapabilityKind → ℕ
kind_index file_read = 0
kind_index file_write = 1
kind_index command_execute = 2
kind_index command_execute_host = 3
kind_index network_access = 4
kind_index credential_access = 5
kind_index external_message = 6

abbrev pub is_file_read : CapabilityKind → Bool
is_file_read file_read = true
is_file_read _ = false
