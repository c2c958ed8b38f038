-- ===== src/Runtime/Samples.antt =====
-- Data for the tests: one tenant 1, a user 2, an agent 3, a clock that stands at 1000.
use astra_agent.Base.{◌+◌, true, false, none, some, [], ◌∷◌}
use astra_agent.Domain.Kinds.{
  CapabilityKind, RemoteAgentStatus, TaskState, ApprovalState, ActorType, BackgroundJobKind,
  BackgroundJobState, ConversationTurnState, MessageRole, ToolInvocationTarget, ToolInvocationState,
  MemoryKind, MemoryState, MigrationBatchState,
}
use astra_agent.Domain.Models.{
  Instant, null, Capability, RemoteAgent, Task, Lease, Approval, BackgroundJob, JobAttempt,
  JobError, Conversation, ConversationMessage, ConversationTurn, ToolInvocation, MemoryRecord,
  MigrationBatch, PersonaCore,
}
use astra_agent.Runtime.State.{Store, Env, init}

-- The clock reads `time` at every place; new ids count from 500 and 900.
abbrev pub env_at : Instant → Env
env_at time = record {
  now = λ _. time;
  fresh = λ n. 500 + n;
  created = λ _. time;
  event_id = λ n. 900 + n;
  occurred = λ _. time;
}

abbrev pub env : Env
env = env_at 1000

abbrev pub job : BackgroundJob
job = record {
  id = 10;
  tenant_id = 1;
  kind = BackgroundJobKind.vector_sync;
  source_id = 11;
  payload = null;
  state = BackgroundJobState.pending;
  attempt_count = 0;
  max_attempts = 1;
  available_at = 5;
  lease_id = none;
  lease_expires_at = none;
  last_error = none;
  created_at = 5;
  updated_at = 5;
  completed_at = none;
}

abbrev pub late_job : BackgroundJob
late_job = record job { id = 12; source_id = 13; created_at = 6 }

-- `job` as the claim at 1000 under lease 20 up to 2000 leaves it.
abbrev pub running_job : BackgroundJob
running_job = record job {
  state = BackgroundJobState.running;
  attempt_count = 1;
  lease_id = some 20;
  lease_expires_at = some 2000;
  updated_at = 1000;
}

abbrev pub attempt : JobAttempt
attempt = record {
  id = 500;
  tenant_id = 1;
  job_id = 10;
  attempt = 1;
  started_at = 1000;
  finished_at = none;
  error = none;
}

abbrev pub two_jobs : Store
two_jobs = record init { jobs = (12, late_job) ∷ (10, job) ∷ [] }

abbrev pub one_running : Store
one_running = record init { jobs = (10, running_job) ∷ []; job_attempts = (10, attempt ∷ []) ∷ [] }

abbrev pub job_error : JobError
job_error = record { type = "TimeoutError"; message = "timed out" }

abbrev pub read_repository : Capability
read_repository = record { kind = CapabilityKind.file_read; scope = "repository" }

abbrev pub run_command : Capability
run_command = record { kind = CapabilityKind.command_execute; scope = "sandbox" }

abbrev pub agent : RemoteAgent
agent = record {
  id = 3;
  tenant_id = 1;
  name = "reader";
  capabilities = read_repository ∷ run_command ∷ [];
  runtime_version = "1";
  status = RemoteAgentStatus.active;
  trust_level = 1;
  registered_at = 0;
  last_seen_at = 900;
}

abbrev pub task : Task
task = record {
  id = 30;
  tenant_id = 1;
  objective = "inspect";
  context = "";
  required_capabilities = read_repository ∷ run_command ∷ [];
  deliverable_contract = "report";
  state = TaskState.pending;
  created_at = 7;
  deadline = none;
  result = none;
  completed_at = none;
  target_ara_id = none;
  completed_by_ara_id = none;
}

abbrev pub leased_task : Task
leased_task = record task { state = TaskState.leased }

abbrev pub lease : Lease
lease = record {
  id = 500;
  tenant_id = 1;
  task_id = 30;
  ara_id = 3;
  acquired_at = 1000;
  expires_at = 2000;
}

abbrev pub approval : Approval
approval = record {
  id = 40;
  tenant_id = 1;
  task_id = some 30;
  tool_invocation_id = none;
  capability = run_command;
  requested_by = some 3;
  requestor_type = ActorType.ara;
  state = ApprovalState.granted;
  reason = "to run the tests";
  created_at = 8;
  decided_at = some 9;
  decided_by = some 2;
}

abbrev pub task_waiting : Store
task_waiting = record init { remote_agents = (3, agent) ∷ []; tasks = (30, task) ∷ [] }

abbrev pub task_running : Store
task_running = record init {
  remote_agents = (3, agent) ∷ [];
  tasks = (30, leased_task) ∷ [];
  leases = (500, lease) ∷ [];
  approvals = (40, approval) ∷ [];
}

abbrev pub conversation : Conversation
conversation = record {
  id = 50;
  tenant_id = 1;
  user_id = 2;
  title = "work";
  created_at = 3;
  updated_at = 3;
}

abbrev pub user_message : ConversationMessage
user_message = record {
  id = 51;
  tenant_id = 1;
  conversation_id = 50;
  role = MessageRole.user;
  content = "inspect it";
  created_at = 4;
}

abbrev pub assistant_message : ConversationMessage
assistant_message = record user_message { id = 52; role = MessageRole.assistant; created_at = 9 }

abbrev pub turn : ConversationTurn
turn = record {
  id = 60;
  tenant_id = 1;
  conversation_id = 50;
  user_message_id = 51;
  client_request_id = 70;
  state = ConversationTurnState.pending;
  checkpoint = null;
  run_lease_id = none;
  run_lease_expires_at = none;
  created_at = 4;
  updated_at = 4;
  completed_at = none;
}

abbrev pub late_turn : ConversationTurn
late_turn = record turn { id = 61; client_request_id = 71; created_at = 6 }

abbrev pub conversation_open : Store
conversation_open = record init { conversations = (50, conversation) ∷ [] }

abbrev pub two_turns : Store
two_turns = record conversation_open { turns = (61, late_turn) ∷ (60, turn) ∷ [] }

-- `turn`, run under lease 20 up to 5000.
abbrev pub claimed_turn : ConversationTurn
claimed_turn = record turn {
  state = ConversationTurnState.running;
  run_lease_id = some 20;
  run_lease_expires_at = some 5000;
  updated_at = 1000;
}

abbrev pub invocation : ToolInvocation
invocation = record {
  id = 80;
  tenant_id = 1;
  turn_id = 60;
  task_id = some 30;
  tool_call_id = "call-1";
  tool_name = "delegate";
  target = ToolInvocationTarget.ara;
  state = ToolInvocationState.pending;
  arguments = null;
  arguments_sha256 = "";
  created_at = 8;
  updated_at = 8;
  completed_at = none;
}

abbrev pub turn_running : Store
turn_running = record conversation_open {
  remote_agents = (3, agent) ∷ [];
  turns = (60, claimed_turn) ∷ [];
}

-- The turn paused, its invocation awaiting approval 41.
abbrev pub awaiting : ToolInvocation
awaiting = record invocation { state = ToolInvocationState.awaiting_approval }

abbrev pub paused_turn : ConversationTurn
paused_turn = record turn { state = ConversationTurnState.paused }

abbrev pub asked : Approval
asked = record approval {
  id = 41;
  task_id = none;
  tool_invocation_id = some 80;
  requested_by = none;
  requestor_type = ActorType.coordinator;
  state = ApprovalState.pending;
  decided_at = none;
  decided_by = none;
}

abbrev pub approval_asked : Store
approval_asked = record conversation_open {
  turns = (60, paused_turn) ∷ [];
  tool_invocations = (80, awaiting) ∷ [];
  approvals = (41, asked) ∷ [];
}

abbrev pub fact : MemoryRecord
fact = record {
  id = 100;
  tenant_id = 1;
  kind = MemoryKind.fact;
  content = "Uses Python 3.12";
  normalized_content = "uses python 3.12";
  source_event_id = 900;
  source_message_id = 51;
  confidence = 900000;
  confirmed = false;
  pinned = false;
  state = MemoryState.candidate;
  sensitivity = "normal";
  visibility = "tenant";
  retention = "standard";
  contradiction_of = none;
  created_at = 4;
  updated_at = 4;
  reviewed_at = none;
  reviewed_by = none;
  deleted_at = none;
  import_batch_id = none;
  source_system = none;
  source_database_fingerprint = none;
  source_external_id = none;
  source_metadata = null;
}

abbrev pub old_fact : MemoryRecord
old_fact = record fact {
  id = 101;
  normalized_content = "uses python 3.11";
  state = MemoryState.promoted;
  confirmed = true;
}

abbrev pub two_facts : Store
two_facts = record init { memories = (101, old_fact) ∷ (100, fact) ∷ [] }

abbrev pub core : PersonaCore
core = record {
  identity = "Astra";
  values = "honesty";
  boundaries = "none";
  tone = "warm";
  initiative = "high";
  emotional_range = "wide";
  disagreement = "open";
}

abbrev pub batch : MigrationBatch
batch = record {
  id = 110;
  tenant_id = 1;
  source_system = "hermes";
  source_database_fingerprint = "f";
  state = MigrationBatchState.staged;
  source_metadata = null;
  persona_draft = some core;
  persona_profile_id = none;
  created_at = 5;
  activated_at = none;
  rolled_back_at = none;
}

abbrev pub imported_fact : MemoryRecord
imported_fact = record fact { import_batch_id = some 110 }

abbrev pub batch_staged : Store
batch_staged = record init {
  memories = (101, old_fact) ∷ (100, imported_fact) ∷ [];
  migration_batches = (110, batch) ∷ [];
}
