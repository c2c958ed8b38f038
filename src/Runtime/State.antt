-- ===== src/Runtime/State.antt =====
-- The state of InMemoryRuntimeStore (packages/runtime/src/astra_runtime/memory.py), what a method
-- reads from its surroundings, and the steps that all methods share. Every method holds the
-- store's lock from its first read to its return, so a method is one atomic step.
use astra_agent.Base.{ℕ, String, Option, none, some, List, [], ◌∷◌, ◌++◌, ◌==◌, if◌then◌else◌}
use astra_agent.Base.Dict.{Dict}
use astra_agent.Base.Exec.{Exec, modify}
use astra_agent.Domain.Kinds.{EventType, ActorType}
use astra_agent.Domain.Models.{
  Uuid, Instant, Json, field, end, obj, RemoteAgent, Conversation, ConversationMessage,
  ConversationTurn, ToolInvocation, MemoryRecord, MigrationBatch, PersonaProfile,
  LearnedPersonaAdaptation, Task, Lease, AuditEvent, BackgroundJob, JobAttempt, Approval, Artifact,
}

pub record Store : Type 0 where
  pub remote_agents : Dict RemoteAgent
  pub conversations : Dict Conversation
  pub messages : Dict ConversationMessage
  pub turns : Dict ConversationTurn
  pub tool_invocations : Dict ToolInvocation
  pub memories : Dict MemoryRecord
  pub migration_batches : Dict MigrationBatch
  pub personas : Dict PersonaProfile
  pub active_persona_ids : Dict Uuid
  pub learned_adaptations : Dict LearnedPersonaAdaptation
  pub tasks : Dict Task
  pub leases : Dict Lease
  pub events : List AuditEvent
  pub jobs : Dict BackgroundJob
  pub job_attempts : Dict (List JobAttempt)
  pub approvals : Dict Approval
  pub artifacts : Dict Artifact

abbrev pub init : Store
init = record {
  remote_agents = [];
  conversations = [];
  messages = [];
  turns = [];
  tool_invocations = [];
  memories = [];
  migration_batches = [];
  personas = [];
  active_persona_ids = [];
  learned_adaptations = [];
  tasks = [];
  leases = [];
  events = [];
  jobs = [];
  job_attempts = [];
  approvals = [];
  artifacts = [];
}

-- What one call of a method reads from its surroundings. `now n` is the n-th reading of
-- `datetime.now`, `fresh n` the id and `created n` the creation time of the n-th new record that is
-- no audit event, `event_id n` and `occurred n` those of the n-th audit event that it makes.
pub record Env : Type 0 where
  pub now : ℕ → Instant
  pub fresh : ℕ → Uuid
  pub created : ℕ → Instant
  pub event_id : ℕ → Uuid
  pub occurred : ℕ → Instant

abbrev pub Method : Type 0 → Type 0
Method A = Exec Store A

-- `AuditEvent(…)`, the n-th of a call
abbrev pub event :
    Env → ℕ → Uuid → EventType → ActorType → Option Uuid → Option Uuid → Json → AuditEvent
event env n tenant_id event_type actor_type actor_id task_id payload = record {
  id = env.event_id n;
  tenant_id = tenant_id;
  event_type = event_type;
  actor_type = actor_type;
  actor_id = actor_id;
  task_id = task_id;
  payload = payload;
  occurred_at = env.occurred n;
}

-- `{key: value}`
abbrev pub entry : String → Json → Json
entry key value = obj (field key value end)

-- `self._events.extend(events)`
abbrev pub log_all : List AuditEvent → Method (Unit {0})
log_all events = modify (λ s. record s { events = s.events ++ events })

-- `self._events.append(event)`
abbrev pub log : AuditEvent → Method (Unit {0})
log event = log_all (event ∷ [])

-- `value if value is not None and value.tenant_id == tenant_id else None`
module _ {A : Type 0} (owner : A → Uuid) where
  abbrev pub owned : Option A → Uuid → Option A
  owned none tenant_id = none
  owned (some a) tenant_id = if owner a == tenant_id then some a else none
