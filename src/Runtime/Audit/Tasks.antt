-- ===== src/Runtime/Audit/Tasks.antt =====
-- The methods on remote agents, tasks, leases, approvals and artifacts append to the log.
use astra_agent.Base.{ℕ, ◌+◌, String, Option, none, some, List, [], ◌∷◌}
use astra_agent.Domain.Kinds.{TaskState, ApprovalState}
use astra_agent.Domain.Models.{
  Uuid, Instant, Json, Capability, AuditEvent, RemoteAgent, Task, ToolInvocation, Approval,
  Artifact,
}
use astra_agent.Runtime.State.{Env}
use astra_agent.Runtime.Audit.Rules.{Logs, Logs-bind, then_log, log_rules}
use astra_agent.Runtime.Audit.Methods.{active_turn-Logs}
use astra_agent.Runtime.Tasks.{
  add_task, request_task_cancellation, lease_found, lease_to, lease_task, active_lease,
  record_progress, renew_lease,
}
use astra_agent.Runtime.Agents.{
  register_ara, heartbeat_task, heartbeat, set_remote_agent_trust, revoke_remote_agent,
}
use astra_agent.Runtime.Delegation.{pick, assign, store_delegations, create_delegated_tasks}
use astra_agent.Runtime.Finish.{
  check_capabilities, check_approvals, finish_invocation, store_artifacts, finish_task,
}
use astra_agent.Runtime.Approvals.{
  create_coordinator_approval, request_approval, resume, decide, decide_approval,
}
use astra_agent.Runtime.Artifacts.{delete_artifact, append_event}

pub add_task-Logs : (t : Task) (e : AuditEvent) → Logs (add_task t e)
unfolding add_task
add_task-Logs t e = search log_rules depth 20

pub request_task_cancellation-Logs :
    (env : Env) (t k actor : Uuid) → Logs (request_task_cancellation env t k actor)
unfolding request_task_cancellation
request_task_cancellation-Logs env t k actor = search log_rules depth 20

lease_found-Logs :
    (env : Env) (t a : Uuid) (x : Instant) (o : Option Task) → Logs (lease_found env t a x o)
unfolding lease_found
lease_found-Logs env t a x none = search log_rules depth 20
lease_found-Logs env t a x (some task) = search log_rules depth 20

lease_to-Logs :
    (env : Env) (t a : Uuid) (x : Instant) (o : Option RemoteAgent) → Logs (lease_to env t a x o)
unfolding lease_to
lease_to-Logs env t a x none = search (log_rules, lease_found-Logs) depth 20
lease_to-Logs env t a x (some task) = search (log_rules, lease_found-Logs) depth 20

pub lease_task-Logs : (env : Env) (t a : Uuid) (x : Instant) → Logs (lease_task env t a x)
unfolding lease_task
lease_task-Logs env t a x = search (log_rules, lease_to-Logs) depth 20

active_lease-Logs : (env : Env) (t a k l : Uuid) → Logs (active_lease env t a k l)
unfolding active_lease
active_lease-Logs env t a k l = search log_rules depth 20

pub record_progress-Logs :
    (env : Env) (t a k l : Uuid) (m : String) (p : Option ℕ)
    → Logs (record_progress env t a k l m p)
unfolding record_progress
record_progress-Logs env t a k l m p = search (log_rules, active_lease-Logs) depth 20

pub renew_lease-Logs : (env : Env) (t a k l : Uuid) (x : Instant) → Logs (renew_lease env t a k l x)
unfolding renew_lease
renew_lease-Logs env t a k l x = search (log_rules, active_lease-Logs) depth 20

pub register_ara-Logs : (a : RemoteAgent) (e : AuditEvent) → Logs (register_ara a e)
unfolding register_ara
register_ara-Logs a e = search log_rules depth 20

heartbeat_task-Logs :
    (env : Env) (t a : Uuid) (k l : Option Uuid) → Logs (heartbeat_task env t a k l)
unfolding heartbeat_task
heartbeat_task-Logs env t a none none = search (log_rules, active_lease-Logs) depth 20
heartbeat_task-Logs env t a (some k) (some l) = search (log_rules, active_lease-Logs) depth 20
heartbeat_task-Logs env t a _ _ = search (log_rules, active_lease-Logs) depth 20

pub heartbeat-Logs : (env : Env) (t a : Uuid) (k l : Option Uuid) → Logs (heartbeat env t a k l)
unfolding heartbeat
heartbeat-Logs env t a k l = search (log_rules, heartbeat_task-Logs) depth 20

pub set_remote_agent_trust-Logs :
    (env : Env) (t a : Uuid) (n : ℕ) (actor : Uuid) → Logs (set_remote_agent_trust env t a n actor)
unfolding set_remote_agent_trust
set_remote_agent_trust-Logs env t a n actor = search log_rules depth 20

pub revoke_remote_agent-Logs :
    (env : Env) (t a actor : Uuid) → Logs (revoke_remote_agent env t a actor)
unfolding revoke_remote_agent
revoke_remote_agent-Logs env t a actor = search log_rules depth 20

pick-Logs : (as' : List RemoteAgent) → Logs (pick as')
pick-Logs [] = search log_rules
pick-Logs (a ∷ rest) = search log_rules

assign-Logs :
    (env : Env) (t : Uuid) (n : ℕ) (selected : List Uuid) (ts : List Task)
    → Logs (assign env t n selected ts)
unfolding assign
assign-Logs env t n selected [] = search log_rules
assign-Logs env t n selected (task ∷ ts) = Logs-bind _ _ (search log_rules) λ found.
    Logs-bind _ _ (pick-Logs found) λ agent.
      Logs-bind _ _ (assign-Logs env t (n + 1) (agent.id ∷ selected) ts) λ rest. search log_rules

store_delegations-Logs :
    (env : Env) (t k : Uuid) (n : ℕ) (ts : List Task) (is : List ToolInvocation)
    → Logs (store_delegations env t k n ts is)
unfolding store_delegations
store_delegations-Logs env t k n (task ∷ ts) (i ∷ is) = then_log _ _ (search log_rules) (
    then_log _ _ (search log_rules) (
      then_log _ _ (search log_rules)
        (then_log _ _ (search log_rules) (store_delegations-Logs env t k (n + 2) ts is))))
store_delegations-Logs env t k n _ _ = search log_rules

pub create_delegated_tasks-Logs :
    (env : Env) (t k l : Uuid) (ts : List Task) (is : List ToolInvocation) (c : Json)
    → Logs (create_delegated_tasks env t k l ts is c)
unfolding create_delegated_tasks
create_delegated_tasks-Logs env t k l ts is c =
    search (log_rules, active_turn-Logs, assign-Logs, store_delegations-Logs) depth 20

check_capabilities-Logs :
    (granted : List Capability) (as' : List Approval) (cs : List Capability)
    → Logs (check_capabilities granted as' cs)
unfolding check_capabilities
check_capabilities-Logs granted as' [] = search log_rules
check_capabilities-Logs granted as' (c ∷ cs) =
    then_log _ _ (search log_rules) (check_capabilities-Logs granted as' cs)

check_approvals-Logs :
    (t k : Uuid) (st : TaskState) (task : Task) → Logs (check_approvals t k st task)
unfolding check_approvals
check_approvals-Logs t k st task = search (log_rules, check_capabilities-Logs) depth 20

finish_invocation-Logs :
    (env : Env) (st : TaskState) (o : Option ToolInvocation) → Logs (finish_invocation env st o)
unfolding finish_invocation
finish_invocation-Logs env st none = search log_rules depth 20
finish_invocation-Logs env st (some i) = search log_rules depth 20

store_artifacts-Logs :
    (env : Env) (t a k : Uuid) (n : ℕ) (items : List Artifact)
    → Logs (store_artifacts env t a k n items)
unfolding store_artifacts
store_artifacts-Logs env t a k n [] = search log_rules
store_artifacts-Logs env t a k n (x ∷ xs) =
    then_log _ _ (search log_rules)
      (then_log _ _ (search log_rules) (store_artifacts-Logs env t a k (n + 1) xs))

pub finish_task-Logs :
    (env : Env) (t a k l : Uuid) (st : TaskState) (d : String) (items : List Artifact)
    → Logs (finish_task env t a k l st d items)
unfolding finish_task
finish_task-Logs env t a k l st d items =
    search
      (
        log_rules, active_lease-Logs, check_approvals-Logs, finish_invocation-Logs,
        store_artifacts-Logs,
      )
      depth 20

pub create_coordinator_approval-Logs :
    (env : Env) (a : Approval) → Logs (create_coordinator_approval env a)
unfolding create_coordinator_approval
create_coordinator_approval-Logs env a = search log_rules depth 20

pub request_approval-Logs :
    (env : Env) (t a k l : Uuid) (x : Approval) → Logs (request_approval env t a k l x)
unfolding request_approval
request_approval-Logs env t a k l x = search (log_rules, active_lease-Logs) depth 20

resume-Logs :
    (env : Env) (t actor : Uuid) (st : ApprovalState) (o : Option Uuid)
    → Logs (resume env t actor st o)
unfolding resume
resume-Logs env t actor st none = search log_rules depth 20
resume-Logs env t actor st (some i) = search log_rules depth 20

decide-Logs :
    (env : Env) (t k : Uuid) (st : ApprovalState) (actor : Uuid) (a : Approval)
    → Logs (decide env t k st actor a)
unfolding decide
decide-Logs env t k st actor a = search (log_rules, resume-Logs) depth 20

pub decide_approval-Logs :
    (env : Env) (t k : Uuid) (st : ApprovalState) (actor : Uuid)
    → Logs (decide_approval env t k st actor)
unfolding decide_approval
decide_approval-Logs env t k st actor = search (log_rules, decide-Logs) depth 20

pub delete_artifact-Logs :
    (env : Env) (t k actor : Uuid) (x : Instant) → Logs (delete_artifact env t k actor x)
unfolding delete_artifact
delete_artifact-Logs env t k actor x = search log_rules depth 20

pub append_event-Logs : (e : AuditEvent) → Logs (append_event e)
unfolding append_event
append_event-Logs e = search log_rules depth 20
