-- ===== src/Runtime/Audit/Methods.antt =====
-- The methods on jobs, memories, personas, imports, conversations, turns and invocations append to
-- the log.
use astra_agent.Base.{ℕ, Bool, Option, none, some, List, [], ◌∷◌}
use astra_agent.Domain.Kinds.{ToolInvocationState}
use astra_agent.Domain.Models.{
  Uuid, Instant, Json, JobError, JobAttempt, BackgroundJob, MemoryRecord, AuditEvent, PersonaCore,
  PersonaProfile, LearnedPersonaAdaptation, MigrationBatch, Conversation, ConversationMessage,
  ConversationTurn, ToolInvocation,
}
use astra_agent.Runtime.State.{Env}
use astra_agent.Runtime.Audit.Rules.{Logs, Logs-bind, log_rules}
use astra_agent.Runtime.Jobs
use astra_agent.Runtime.Jobs.{
  enqueue_new, enqueue_job, claim_job, active_job, finish_attempt, complete_job, retry_job,
  requeue_job,
}
use astra_agent.Runtime.Memories.{
  upsert_new, upsert_memory, delete_memory, find_replacement, retire_replacement, review_memory,
  pin_memory,
}
use astra_agent.Runtime.Personas.{
  create_persona_profile, revert_persona_profile, create_learned_persona_adaptation,
  reverse_learned_persona_adaptation,
}
use astra_agent.Runtime.Migrations.{
  stage_memory, stage_memories, stage_new, stage_migration_batch, activate_migration_batch,
  rollback_migration_batch,
}
use astra_agent.Runtime.Conversations.{create_conversation, append_message}
use astra_agent.Runtime.Turns
use astra_agent.Runtime.Turns.{
  create_turn, validate_run_lease_expiry, active_turn, claim_pending_turn, claim_turn,
  checkpoint_turn, pause_turn, complete_turn,
}
use astra_agent.Runtime.Invocations
use astra_agent.Runtime.Invocations.{
  create_tool_invocation, write_finish, finish_tool_invocation, complete_tool_invocation,
  fail_tool_invocation,
}

enqueue_new-Logs : (j : BackgroundJob) (o : Option BackgroundJob) → Logs (enqueue_new j o)
unfolding enqueue_new
enqueue_new-Logs j none = search log_rules depth 16
enqueue_new-Logs j (some x) = search log_rules depth 16

pub enqueue_job-Logs : (j : BackgroundJob) → Logs (enqueue_job j)
unfolding enqueue_job
enqueue_job-Logs j = search (log_rules, enqueue_new-Logs) depth 16

claim_job_found-Logs :
    (env : Env) (l : Uuid) (x : Instant) (o : Option BackgroundJob)
    → Logs (Jobs.claim_found env l x o)
unfolding Jobs.claim_found
claim_job_found-Logs env l x none = search log_rules depth 16
claim_job_found-Logs env l x (some j) = search log_rules depth 16

pub claim_job-Logs : (env : Env) (l : Uuid) (x : Instant) → Logs (claim_job env l x)
unfolding claim_job
claim_job-Logs env l x = search (log_rules, claim_job_found-Logs) depth 16

active_job-Logs : (t k l : Uuid) → Logs (active_job t k l)
unfolding active_job
active_job-Logs t k l = search log_rules depth 16

finish_attempt-Logs : (k : Uuid) (f : JobAttempt → JobAttempt) → Logs (finish_attempt k f)
unfolding finish_attempt
finish_attempt-Logs k f = search log_rules depth 16

pub complete_job-Logs : (env : Env) (t k l : Uuid) → Logs (complete_job env t k l)
unfolding complete_job
complete_job-Logs env t k l = search (log_rules, active_job-Logs, finish_attempt-Logs) depth 16

pub retry_job-Logs :
    (env : Env) (t k l : Uuid) (error : JobError) (at : Instant)
    → Logs (retry_job env t k l error at)
unfolding retry_job
retry_job-Logs env t k l error at =
    search (log_rules, active_job-Logs, finish_attempt-Logs) depth 16

pub requeue_job-Logs : (env : Env) (t k actor : Uuid) → Logs (requeue_job env t k actor)
unfolding requeue_job
requeue_job-Logs env t k actor = search log_rules depth 16

upsert_new-Logs :
    (m : MemoryRecord) (es : List AuditEvent) (o : Option MemoryRecord) → Logs (upsert_new m es o)
unfolding upsert_new
upsert_new-Logs m es none = search log_rules depth 16
upsert_new-Logs m es (some d) = search log_rules depth 16

pub upsert_memory-Logs : (m : MemoryRecord) (es : List AuditEvent) → Logs (upsert_memory m es)
unfolding upsert_memory
upsert_memory-Logs m es = search (log_rules, upsert_new-Logs) depth 16

pub delete_memory-Logs : (env : Env) (t k actor : Uuid) → Logs (delete_memory env t k actor)
unfolding delete_memory
delete_memory-Logs env t k actor = search log_rules depth 16

find_replacement-Logs : (t : Uuid) (p : Bool) (r : Option Uuid) → Logs (find_replacement t p r)
unfolding find_replacement
find_replacement-Logs t p none = search log_rules depth 16
find_replacement-Logs t p (some r) = search log_rules depth 16

retire_replacement-Logs :
    (env : Env) (t k actor : Uuid) (r : Option MemoryRecord)
    → Logs (retire_replacement env t k actor r)
unfolding retire_replacement
retire_replacement-Logs env t k actor none = search log_rules depth 16
retire_replacement-Logs env t k actor (some r) = search log_rules depth 16

pub review_memory-Logs :
    (env : Env) (t k : Uuid) (p : Bool) (actor : Uuid) (r : Option Uuid)
    → Logs (review_memory env t k p actor r)
unfolding review_memory
review_memory-Logs env t k p actor r =
    search (log_rules, find_replacement-Logs, retire_replacement-Logs) depth 16

pub pin_memory-Logs :
    (env : Env) (t k : Uuid) (p : Bool) (actor : Uuid) → Logs (pin_memory env t k p actor)
unfolding pin_memory
pin_memory-Logs env t k p actor = search log_rules depth 16

pub create_persona_profile-Logs :
    (env : Env) (p : PersonaProfile) (actor : Uuid) → Logs (create_persona_profile env p actor)
unfolding create_persona_profile
create_persona_profile-Logs env p actor = search log_rules depth 16

pub revert_persona_profile-Logs :
    (env : Env) (t : Uuid) (v : ℕ) (actor : Uuid) → Logs (revert_persona_profile env t v actor)
unfolding revert_persona_profile
revert_persona_profile-Logs env t v actor = search log_rules depth 16

pub create_adaptation-Logs :
    (a : LearnedPersonaAdaptation) → Logs (create_learned_persona_adaptation a)
unfolding create_learned_persona_adaptation
create_adaptation-Logs a = search log_rules depth 16

pub reverse_adaptation-Logs :
    (env : Env) (t k : Uuid) → Logs (reverse_learned_persona_adaptation env t k)
unfolding reverse_learned_persona_adaptation
reverse_adaptation-Logs env t k = search log_rules depth 16

stage_memory-Logs :
    (env : Env) (b : MigrationBatch) (actor mid : Uuid) (n : ℕ) (m : MemoryRecord)
    (o : Option MemoryRecord)
    → Logs (stage_memory env b actor mid n m o)
unfolding stage_memory
stage_memory-Logs env b actor mid n m none = search log_rules depth 16
stage_memory-Logs env b actor mid n m (some d) = search log_rules depth 16

stage_memories-Logs :
    (env : Env) (b : MigrationBatch) (actor mid : Uuid) (n : ℕ) (ms : List MemoryRecord)
    → Logs (stage_memories env b actor mid n ms)
unfolding stage_memories
stage_memories-Logs env b actor mid n [] = search log_rules
stage_memories-Logs env b actor mid n (m ∷ ms) = Logs-bind _ _ (search log_rules) λ d.
    Logs-bind _ _ (stage_memory-Logs env b actor mid n m d)
      λ n'. stage_memories-Logs env b actor mid n' ms

stage_new-Logs :
    (env : Env) (b : MigrationBatch) (ms : List MemoryRecord) (actor : Uuid)
    (o : Option MigrationBatch)
    → Logs (stage_new env b ms actor o)
unfolding stage_new
stage_new-Logs env b ms actor none = search (log_rules, stage_memories-Logs) depth 16
stage_new-Logs env b ms actor (some x) = search (log_rules, stage_memories-Logs) depth 16

pub stage_migration_batch-Logs :
    (env : Env) (b : MigrationBatch) (ms : List MemoryRecord) (actor : Uuid)
    → Logs (stage_migration_batch env b ms actor)
unfolding stage_migration_batch
stage_migration_batch-Logs env b ms actor = search (log_rules, stage_new-Logs) depth 16

pub activate_migration_batch-Logs :
    (env : Env) (t k actor : Uuid) (core : Option PersonaCore)
    → Logs (activate_migration_batch env t k actor core)
unfolding activate_migration_batch
activate_migration_batch-Logs env t k actor core = search log_rules depth 16

pub rollback_migration_batch-Logs :
    (env : Env) (t k actor : Uuid) → Logs (rollback_migration_batch env t k actor)
unfolding rollback_migration_batch
rollback_migration_batch-Logs env t k actor = search log_rules depth 16

pub create_conversation-Logs : (c : Conversation) (e : AuditEvent) → Logs (create_conversation c e)
unfolding create_conversation
create_conversation-Logs c e = search log_rules depth 16

pub append_message-Logs :
    (m : ConversationMessage) (es : List AuditEvent) → Logs (append_message m es)
unfolding append_message
append_message-Logs m es = search log_rules depth 16

create_turn_new-Logs :
    (m : ConversationMessage) (t : ConversationTurn) (es : List AuditEvent) (j : BackgroundJob)
    (o : Option ConversationTurn)
    → Logs (Turns.create_new m t es j o)
unfolding Turns.create_new
create_turn_new-Logs m t es j none = search log_rules depth 16
create_turn_new-Logs m t es j (some x) = search log_rules depth 16

pub create_turn-Logs :
    (m : ConversationMessage) (t : ConversationTurn) (es : List AuditEvent) (j : BackgroundJob)
    → Logs (create_turn m t es j)
unfolding create_turn
create_turn-Logs m t es j = search (log_rules, create_turn_new-Logs) depth 16

validate_expiry-Logs : (env : Env) (x : Instant) → Logs (validate_run_lease_expiry env x)
unfolding validate_run_lease_expiry
validate_expiry-Logs env x = search log_rules depth 16

pub active_turn-Logs : (env : Env) (t k l : Uuid) → Logs (active_turn env t k l)
unfolding active_turn
active_turn-Logs env t k l = search log_rules depth 16

claim_turn_found-Logs :
    (env : Env) (t l : Uuid) (x : Instant) (o : Option ConversationTurn)
    → Logs (Turns.claim_found env t l x o)
unfolding Turns.claim_found
claim_turn_found-Logs env t l x none = search log_rules depth 16
claim_turn_found-Logs env t l x (some y) = search log_rules depth 16

pub claim_pending_turn-Logs :
    (env : Env) (t l : Uuid) (x : Instant) → Logs (claim_pending_turn env t l x)
unfolding claim_pending_turn
claim_pending_turn-Logs env t l x =
    search (log_rules, validate_expiry-Logs, claim_turn_found-Logs) depth 16

pub claim_turn-Logs : (env : Env) (t k l : Uuid) (x : Instant) → Logs (claim_turn env t k l x)
unfolding claim_turn
claim_turn-Logs env t k l x =
    search (log_rules, validate_expiry-Logs, claim_turn_found-Logs) depth 16

pub checkpoint_turn-Logs :
    (env : Env) (t k l : Uuid) (c : Json) → Logs (checkpoint_turn env t k l c)
unfolding checkpoint_turn
checkpoint_turn-Logs env t k l c = search (log_rules, active_turn-Logs) depth 16

pub pause_turn-Logs : (env : Env) (t k l : Uuid) (c : Json) → Logs (pause_turn env t k l c)
unfolding pause_turn
pause_turn-Logs env t k l c = search (log_rules, active_turn-Logs) depth 16

pub complete_turn-Logs :
    (env : Env) (t k l : Uuid) (m : ConversationMessage) → Logs (complete_turn env t k l m)
unfolding complete_turn
complete_turn-Logs env t k l m = search (log_rules, active_turn-Logs) depth 16

create_invocation_new-Logs :
    (env : Env) (i : ToolInvocation) (o : Option ToolInvocation)
    → Logs (Invocations.create_new env i o)
unfolding Invocations.create_new
create_invocation_new-Logs env i none = search log_rules depth 16
create_invocation_new-Logs env i (some x) = search log_rules depth 16

pub create_tool_invocation-Logs :
    (env : Env) (i : ToolInvocation) → Logs (create_tool_invocation env i)
unfolding create_tool_invocation
create_tool_invocation-Logs env i = search (log_rules, create_invocation_new-Logs) depth 16

write_finish-Logs :
    (env : Env) (t k : Uuid) (st : ToolInvocationState) (i : ToolInvocation)
    → Logs (write_finish env t k st i)
unfolding write_finish
write_finish-Logs env t k st i = search log_rules depth 16

pub finish_tool_invocation-Logs :
    (env : Env) (t k : Uuid) (st : ToolInvocationState) → Logs (finish_tool_invocation env t k st)
unfolding finish_tool_invocation
finish_tool_invocation-Logs env t k st = search (log_rules, write_finish-Logs) depth 16

pub complete_tool_invocation-Logs :
    (env : Env) (t k : Uuid) → Logs (complete_tool_invocation env t k)
unfolding complete_tool_invocation
complete_tool_invocation-Logs env t k =
    finish_tool_invocation-Logs env t k ToolInvocationState.completed

pub fail_tool_invocation-Logs : (env : Env) (t k : Uuid) → Logs (fail_tool_invocation env t k)
unfolding fail_tool_invocation
fail_tool_invocation-Logs env t k = finish_tool_invocation-Logs env t k ToolInvocationState.failed
