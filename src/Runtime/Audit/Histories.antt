-- ===== src/Runtime/Audit/Histories.antt =====
-- The log over a history of calls.
use astra_agent.Base.{List, [], ◌∷◌, Extends, Extends-refl, Extends-trans}
use astra_agent.Runtime.State.{Store}
use astra_agent.Runtime.Audit.Methods
use astra_agent.Runtime.Audit.Tasks
use astra_agent.Runtime.Calls.{Call, call, calls}

call-Extends : (c : Call) (s : Store) → Extends s.events (call c s).events
unfolding call
call-Extends (Call.enqueue_job a) s = (Methods.enqueue_job-Logs a).at s
call-Extends (Call.claim_job a b c) s = (Methods.claim_job-Logs a b c).at s
call-Extends (Call.complete_job a b c d) s = (Methods.complete_job-Logs a b c d).at s
call-Extends (Call.retry_job a b c d e f) s = (Methods.retry_job-Logs a b c d e f).at s
call-Extends (Call.requeue_job a b c d) s = (Methods.requeue_job-Logs a b c d).at s
call-Extends (Call.upsert_memory a b) s = (Methods.upsert_memory-Logs a b).at s
call-Extends (Call.delete_memory a b c d) s = (Methods.delete_memory-Logs a b c d).at s
call-Extends (Call.review_memory a b c d e f) s = (Methods.review_memory-Logs a b c d e f).at s
call-Extends (Call.pin_memory a b c d e) s = (Methods.pin_memory-Logs a b c d e).at s
call-Extends (Call.create_persona_profile a b c) s =
    (Methods.create_persona_profile-Logs a b c).at s
call-Extends (Call.revert_persona_profile a b c d) s =
    (Methods.revert_persona_profile-Logs a b c d).at s
call-Extends (Call.create_learned_persona_adaptation a) s = (Methods.create_adaptation-Logs a).at s
call-Extends (Call.reverse_learned_persona_adaptation a b c) s =
    (Methods.reverse_adaptation-Logs a b c).at s
call-Extends (Call.stage_migration_batch a b c d) s =
    (Methods.stage_migration_batch-Logs a b c d).at s
call-Extends (Call.activate_migration_batch a b c d e) s =
    (Methods.activate_migration_batch-Logs a b c d e).at s
call-Extends (Call.rollback_migration_batch a b c d) s =
    (Methods.rollback_migration_batch-Logs a b c d).at s
call-Extends (Call.create_conversation a b) s = (Methods.create_conversation-Logs a b).at s
call-Extends (Call.append_message a b) s = (Methods.append_message-Logs a b).at s
call-Extends (Call.create_turn a b c d) s = (Methods.create_turn-Logs a b c d).at s
call-Extends (Call.claim_pending_turn a b c d) s = (Methods.claim_pending_turn-Logs a b c d).at s
call-Extends (Call.claim_turn a b c d e) s = (Methods.claim_turn-Logs a b c d e).at s
call-Extends (Call.checkpoint_turn a b c d e) s = (Methods.checkpoint_turn-Logs a b c d e).at s
call-Extends (Call.pause_turn a b c d e) s = (Methods.pause_turn-Logs a b c d e).at s
call-Extends (Call.complete_turn a b c d e) s = (Methods.complete_turn-Logs a b c d e).at s
call-Extends (Call.create_tool_invocation a b) s = (Methods.create_tool_invocation-Logs a b).at s
call-Extends (Call.complete_tool_invocation a b c) s =
    (Methods.complete_tool_invocation-Logs a b c).at s
call-Extends (Call.fail_tool_invocation a b c) s = (Methods.fail_tool_invocation-Logs a b c).at s
call-Extends (Call.add_task a b) s = (Tasks.add_task-Logs a b).at s
call-Extends (Call.request_task_cancellation a b c d) s =
    (Tasks.request_task_cancellation-Logs a b c d).at s
call-Extends (Call.lease_task a b c d) s = (Tasks.lease_task-Logs a b c d).at s
call-Extends (Call.record_progress a b c d e f g) s =
    (Tasks.record_progress-Logs a b c d e f g).at s
call-Extends (Call.renew_lease a b c d e f) s = (Tasks.renew_lease-Logs a b c d e f).at s
call-Extends (Call.register_ara a b) s = (Tasks.register_ara-Logs a b).at s
call-Extends (Call.heartbeat a b c d e) s = (Tasks.heartbeat-Logs a b c d e).at s
call-Extends (Call.set_remote_agent_trust a b c d e) s =
    (Tasks.set_remote_agent_trust-Logs a b c d e).at s
call-Extends (Call.revoke_remote_agent a b c d) s = (Tasks.revoke_remote_agent-Logs a b c d).at s
call-Extends (Call.create_delegated_tasks a b c d e f g) s =
    (Tasks.create_delegated_tasks-Logs a b c d e f g).at s
call-Extends (Call.finish_task a b c d e f g h) s = (Tasks.finish_task-Logs a b c d e f g h).at s
call-Extends (Call.create_coordinator_approval a b) s =
    (Tasks.create_coordinator_approval-Logs a b).at s
call-Extends (Call.request_approval a b c d e f) s = (Tasks.request_approval-Logs a b c d e f).at s
call-Extends (Call.decide_approval a b c d e) s = (Tasks.decide_approval-Logs a b c d e).at s
call-Extends (Call.delete_artifact a b c d e) s = (Tasks.delete_artifact-Logs a b c d e).at s
call-Extends (Call.append_event a) s = (Tasks.append_event-Logs a).at s

-- Whatever methods are called, in whatever order, and whether they return or raise: the audit log
-- afterwards is the audit log before with events appended. No event is lost, changed or reordered.
pub calls-Extends : (cs : List Call) (s : Store) → Extends s.events (calls cs s).events
unfolding calls
calls-Extends [] s = Extends-refl s.events
calls-Extends (c ∷ cs) s =
    Extends-trans s.events (call c s).events (calls cs (call c s)).events (call-Extends c s)
      (calls-Extends cs (call c s))
