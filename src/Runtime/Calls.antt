-- ===== src/Runtime/Calls.antt =====
-- A history of the store: calls of the methods that change it, in the order in which the lock lets
-- them run. A call that raises leaves what it had written.
use astra_agent.Base.{ℕ, String, Bool, Option, List, [], ◌∷◌}
use astra_agent.Domain.Kinds.{TaskState, ApprovalState}
use astra_agent.Domain.Models.{
  Uuid, Instant, Json, JobError, BackgroundJob, MemoryRecord, AuditEvent, PersonaCore,
  PersonaProfile, LearnedPersonaAdaptation, MigrationBatch, Conversation, ConversationMessage,
  ConversationTurn, ToolInvocation, RemoteAgent, Task, Approval, Artifact,
}
use astra_agent.Runtime.State.{Store, Env}
use astra_agent.Runtime.Jobs
use astra_agent.Runtime.Memories
use astra_agent.Runtime.Personas
use astra_agent.Runtime.Migrations
use astra_agent.Runtime.Conversations
use astra_agent.Runtime.Turns
use astra_agent.Runtime.Invocations
use astra_agent.Runtime.Tasks
use astra_agent.Runtime.Agents
use astra_agent.Runtime.Delegation
use astra_agent.Runtime.Finish
use astra_agent.Runtime.Approvals
use astra_agent.Runtime.Artifacts

-- One constructor for each method, with the method's arguments.
pub data Call : Type 0 where
  enqueue_job : BackgroundJob → Call
  claim_job : Env → Uuid → Instant → Call
  complete_job : Env → Uuid → Uuid → Uuid → Call
  retry_job : Env → Uuid → Uuid → Uuid → JobError → Instant → Call
  requeue_job : Env → Uuid → Uuid → Uuid → Call
  upsert_memory : MemoryRecord → List AuditEvent → Call
  delete_memory : Env → Uuid → Uuid → Uuid → Call
  review_memory : Env → Uuid → Uuid → Bool → Uuid → Option Uuid → Call
  pin_memory : Env → Uuid → Uuid → Bool → Uuid → Call
  create_persona_profile : Env → PersonaProfile → Uuid → Call
  revert_persona_profile : Env → Uuid → ℕ → Uuid → Call
  create_learned_persona_adaptation : LearnedPersonaAdaptation → Call
  reverse_learned_persona_adaptation : Env → Uuid → Uuid → Call
  stage_migration_batch : Env → MigrationBatch → List MemoryRecord → Uuid → Call
  activate_migration_batch : Env → Uuid → Uuid → Uuid → Option PersonaCore → Call
  rollback_migration_batch : Env → Uuid → Uuid → Uuid → Call
  create_conversation : Conversation → AuditEvent → Call
  append_message : ConversationMessage → List AuditEvent → Call
  create_turn : ConversationMessage → ConversationTurn → List AuditEvent → BackgroundJob → Call
  claim_pending_turn : Env → Uuid → Uuid → Instant → Call
  claim_turn : Env → Uuid → Uuid → Uuid → Instant → Call
  checkpoint_turn : Env → Uuid → Uuid → Uuid → Json → Call
  pause_turn : Env → Uuid → Uuid → Uuid → Json → Call
  complete_turn : Env → Uuid → Uuid → Uuid → ConversationMessage → Call
  create_tool_invocation : Env → ToolInvocation → Call
  complete_tool_invocation : Env → Uuid → Uuid → Call
  fail_tool_invocation : Env → Uuid → Uuid → Call
  add_task : Task → AuditEvent → Call
  request_task_cancellation : Env → Uuid → Uuid → Uuid → Call
  lease_task : Env → Uuid → Uuid → Instant → Call
  record_progress : Env → Uuid → Uuid → Uuid → Uuid → String → Option ℕ → Call
  renew_lease : Env → Uuid → Uuid → Uuid → Uuid → Instant → Call
  register_ara : RemoteAgent → AuditEvent → Call
  heartbeat : Env → Uuid → Uuid → Option Uuid → Option Uuid → Call
  set_remote_agent_trust : Env → Uuid → Uuid → ℕ → Uuid → Call
  revoke_remote_agent : Env → Uuid → Uuid → Uuid → Call
  create_delegated_tasks : Env → Uuid → Uuid → Uuid → List Task → List ToolInvocation → Json → Call
  finish_task : Env → Uuid → Uuid → Uuid → Uuid → TaskState → String → List Artifact → Call
  create_coordinator_approval : Env → Approval → Call
  request_approval : Env → Uuid → Uuid → Uuid → Uuid → Approval → Call
  decide_approval : Env → Uuid → Uuid → ApprovalState → Uuid → Call
  delete_artifact : Env → Uuid → Uuid → Uuid → Instant → Call
  append_event : AuditEvent → Call

-- The store after a call, whether it returned or raised.
unfoldable pub call : Call → Store → Store
call (enqueue_job a) s = (Jobs.enqueue_job a s).1
call (claim_job a b c) s = (Jobs.claim_job a b c s).1
call (complete_job a b c d) s = (Jobs.complete_job a b c d s).1
call (retry_job a b c d e f) s = (Jobs.retry_job a b c d e f s).1
call (requeue_job a b c d) s = (Jobs.requeue_job a b c d s).1
call (upsert_memory a b) s = (Memories.upsert_memory a b s).1
call (delete_memory a b c d) s = (Memories.delete_memory a b c d s).1
call (review_memory a b c d e f) s = (Memories.review_memory a b c d e f s).1
call (pin_memory a b c d e) s = (Memories.pin_memory a b c d e s).1
call (create_persona_profile a b c) s = (Personas.create_persona_profile a b c s).1
call (revert_persona_profile a b c d) s = (Personas.revert_persona_profile a b c d s).1
call (create_learned_persona_adaptation a) s = (Personas.create_learned_persona_adaptation a s).1
call (reverse_learned_persona_adaptation a b c) s =
    (Personas.reverse_learned_persona_adaptation a b c s).1
call (stage_migration_batch a b c d) s = (Migrations.stage_migration_batch a b c d s).1
call (activate_migration_batch a b c d e) s = (Migrations.activate_migration_batch a b c d e s).1
call (rollback_migration_batch a b c d) s = (Migrations.rollback_migration_batch a b c d s).1
call (create_conversation a b) s = (Conversations.create_conversation a b s).1
call (append_message a b) s = (Conversations.append_message a b s).1
call (create_turn a b c d) s = (Turns.create_turn a b c d s).1
call (claim_pending_turn a b c d) s = (Turns.claim_pending_turn a b c d s).1
call (claim_turn a b c d e) s = (Turns.claim_turn a b c d e s).1
call (checkpoint_turn a b c d e) s = (Turns.checkpoint_turn a b c d e s).1
call (pause_turn a b c d e) s = (Turns.pause_turn a b c d e s).1
call (complete_turn a b c d e) s = (Turns.complete_turn a b c d e s).1
call (create_tool_invocation a b) s = (Invocations.create_tool_invocation a b s).1
call (complete_tool_invocation a b c) s = (Invocations.complete_tool_invocation a b c s).1
call (fail_tool_invocation a b c) s = (Invocations.fail_tool_invocation a b c s).1
call (add_task a b) s = (Tasks.add_task a b s).1
call (request_task_cancellation a b c d) s = (Tasks.request_task_cancellation a b c d s).1
call (lease_task a b c d) s = (Tasks.lease_task a b c d s).1
call (record_progress a b c d e f g) s = (Tasks.record_progress a b c d e f g s).1
call (renew_lease a b c d e f) s = (Tasks.renew_lease a b c d e f s).1
call (register_ara a b) s = (Agents.register_ara a b s).1
call (heartbeat a b c d e) s = (Agents.heartbeat a b c d e s).1
call (set_remote_agent_trust a b c d e) s = (Agents.set_remote_agent_trust a b c d e s).1
call (revoke_remote_agent a b c d) s = (Agents.revoke_remote_agent a b c d s).1
call (create_delegated_tasks a b c d e f g) s =
    (Delegation.create_delegated_tasks a b c d e f g s).1
call (finish_task a b c d e f g h) s = (Finish.finish_task a b c d e f g h s).1
call (create_coordinator_approval a b) s = (Approvals.create_coordinator_approval a b s).1
call (request_approval a b c d e f) s = (Approvals.request_approval a b c d e f s).1
call (decide_approval a b c d e) s = (Approvals.decide_approval a b c d e s).1
call (delete_artifact a b c d e) s = (Artifacts.delete_artifact a b c d e s).1
call (append_event a) s = (Artifacts.append_event a s).1

unfoldable pub calls : List Call → Store → Store
calls [] s = s
calls (c ∷ cs) s = calls cs (call c s)
