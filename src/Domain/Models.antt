-- ===== src/Domain/Models.antt =====
-- The records of packages/domain/src/astra_domain/models.py. An id is a number, an instant a
-- number of microseconds, and a dictionary of `Any` values a JSON value. `confidence` is in
-- millionths: the store carries it and computes nothing with it.
use Prim.Native.Nat.{ℕ}
use Prim.Native.String.{String}
use mathlib.Core.Bool.{Bool}
use mathlib.Core.Option.{Option}
use mathlib.Core.List.{List}
use astra_agent.Domain.Kinds.{
  CapabilityKind, RemoteAgentStatus, TaskState, ConversationTurnState, ToolInvocationTarget,
  ToolInvocationState, ApprovalState, ActorType, EventType, MemoryKind, MemoryState,
  MigrationBatchState, BackgroundJobKind, BackgroundJobState, MessageRole, LearnedAdaptationState,
}

abbrev pub Uuid : Type 0
Uuid = ℕ

abbrev pub Instant : Type 0
Instant = ℕ

-- `uuid` and `instant` are texts that print an id and an instant.
mutual
  pub data Json : Type 0 where
    null : Json
    flag : Bool → Json
    num : ℕ → Json
    text : String → Json
    uuid : ℕ → Json
    instant : ℕ → Json
    arr : Items → Json
    obj : Fields → Json

  pub data Items : Type 0 where
    nil : Items
    cons : Json → Items → Items

  pub data Fields : Type 0 where
    end : Fields
    field : String → Json → Fields → Fields

pub record Capability : Type 0 where
  pub kind : CapabilityKind
  pub scope : String

pub record Conversation : Type 0 where
  pub id : Uuid
  pub tenant_id : Uuid
  pub user_id : Uuid
  pub title : String
  pub created_at : Instant
  pub updated_at : Instant

pub record ConversationMessage : Type 0 where
  pub id : Uuid
  pub tenant_id : Uuid
  pub conversation_id : Uuid
  pub role : MessageRole
  pub content : String
  pub created_at : Instant

pub record ConversationTurn : Type 0 where
  pub id : Uuid
  pub tenant_id : Uuid
  pub conversation_id : Uuid
  pub user_message_id : Uuid
  pub client_request_id : Uuid
  pub state : ConversationTurnState
  pub checkpoint : Json
  pub run_lease_id : Option Uuid
  pub run_lease_expires_at : Option Instant
  pub created_at : Instant
  pub updated_at : Instant
  pub completed_at : Option Instant

pub record ToolInvocation : Type 0 where
  pub id : Uuid
  pub tenant_id : Uuid
  pub turn_id : Uuid
  pub task_id : Option Uuid
  pub tool_call_id : String
  pub tool_name : String
  pub target : ToolInvocationTarget
  pub state : ToolInvocationState
  pub arguments : Json
  pub arguments_sha256 : String
  pub created_at : Instant
  pub updated_at : Instant
  pub completed_at : Option Instant

pub record RemoteAgent : Type 0 where
  pub id : Uuid
  pub tenant_id : Uuid
  pub name : String
  pub capabilities : List Capability
  pub runtime_version : String
  pub status : RemoteAgentStatus
  pub trust_level : ℕ
  pub registered_at : Instant
  pub last_seen_at : Instant

pub record Task : Type 0 where
  pub id : Uuid
  pub tenant_id : Uuid
  pub objective : String
  pub context : String
  pub required_capabilities : List Capability
  pub deliverable_contract : String
  pub state : TaskState
  pub created_at : Instant
  pub deadline : Option Instant
  pub result : Option String
  pub completed_at : Option Instant
  pub target_ara_id : Option Uuid
  pub completed_by_ara_id : Option Uuid

pub record Lease : Type 0 where
  pub id : Uuid
  pub tenant_id : Uuid
  pub task_id : Uuid
  pub ara_id : Uuid
  pub acquired_at : Instant
  pub expires_at : Instant

pub record Approval : Type 0 where
  pub id : Uuid
  pub tenant_id : Uuid
  pub task_id : Option Uuid
  pub tool_invocation_id : Option Uuid
  pub capability : Capability
  pub requested_by : Option Uuid
  pub requestor_type : ActorType
  pub state : ApprovalState
  pub reason : String
  pub created_at : Instant
  pub decided_at : Option Instant
  pub decided_by : Option Uuid

pub record Artifact : Type 0 where
  pub id : Uuid
  pub tenant_id : Uuid
  pub task_id : Uuid
  pub name : String
  pub media_type : String
  pub object_key : String
  pub size_bytes : ℕ
  pub sha256 : String
  pub created_at : Instant
  pub deleted_at : Option Instant
  pub retention_until : Option Instant

pub record AuditEvent : Type 0 where
  pub id : Uuid
  pub tenant_id : Uuid
  pub event_type : EventType
  pub actor_type : ActorType
  pub actor_id : Option Uuid
  pub task_id : Option Uuid
  pub payload : Json
  pub occurred_at : Instant

pub record JobError : Type 0 where
  pub type : String
  pub message : String

pub record BackgroundJob : Type 0 where
  pub id : Uuid
  pub tenant_id : Uuid
  pub kind : BackgroundJobKind
  pub source_id : Uuid
  pub payload : Json
  pub state : BackgroundJobState
  pub attempt_count : ℕ
  pub max_attempts : ℕ
  pub available_at : Instant
  pub lease_id : Option Uuid
  pub lease_expires_at : Option Instant
  pub last_error : Option JobError
  pub created_at : Instant
  pub updated_at : Instant
  pub completed_at : Option Instant

pub record JobAttempt : Type 0 where
  pub id : Uuid
  pub tenant_id : Uuid
  pub job_id : Uuid
  pub attempt : ℕ
  pub started_at : Instant
  pub finished_at : Option Instant
  pub error : Option JobError

pub record PersonaCore : Type 0 where
  pub identity : String
  pub values : String
  pub boundaries : String
  pub tone : String
  pub initiative : String
  pub emotional_range : String
  pub disagreement : String

pub record PersonaProfile : Type 0 where
  pub id : Uuid
  pub tenant_id : Uuid
  pub version : ℕ
  pub authored_core : PersonaCore
  pub created_at : Instant

pub record LearnedPersonaAdaptation : Type 0 where
  pub id : Uuid
  pub tenant_id : Uuid
  pub profile_id : Uuid
  pub content : String
  pub state : LearnedAdaptationState
  pub source : String
  pub created_at : Instant
  pub reversed_at : Option Instant

pub record MemoryRecord : Type 0 where
  pub id : Uuid
  pub tenant_id : Uuid
  pub kind : MemoryKind
  pub content : String
  pub normalized_content : String
  pub source_event_id : Uuid
  pub source_message_id : Uuid
  pub confidence : ℕ
  pub confirmed : Bool
  pub pinned : Bool
  pub state : MemoryState
  pub sensitivity : String
  pub visibility : String
  pub retention : String
  pub contradiction_of : Option Uuid
  pub created_at : Instant
  pub updated_at : Instant
  pub reviewed_at : Option Instant
  pub reviewed_by : Option Uuid
  pub deleted_at : Option Instant
  pub import_batch_id : Option Uuid
  pub source_system : Option String
  pub source_database_fingerprint : Option String
  pub source_external_id : Option String
  pub source_metadata : Json

pub record MigrationBatch : Type 0 where
  pub id : Uuid
  pub tenant_id : Uuid
  pub source_system : String
  pub source_database_fingerprint : String
  pub state : MigrationBatchState
  pub source_metadata : Json
  pub persona_draft : Option PersonaCore
  pub persona_profile_id : Option Uuid
  pub created_at : Instant
  pub activated_at : Option Instant
  pub rolled_back_at : Option Instant
