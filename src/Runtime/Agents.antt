-- ===== src/Runtime/Agents.antt =====
-- The remote agents of memory.py: registration, heartbeat, trust, revocation.
mod Revocation
mod Tests
use astra_agent.Base.{
  ℕ, ◌+◌, Bool, true, false, ◌&&◌, not, Option, none, some, List, [], ◌∷◌, map, ◌==◌, if◌then◌else◌,
  filter,
}
use astra_agent.Base.Dict.{Dict, get, put, values}
use astra_agent.Base.Exec.{
  require_owned, not_found, conflict, pure, raise, gets, modify, guard, ◌>>=◌, ◌>>◌,
}
use astra_agent.Domain.Kinds.{RemoteAgentStatus, EventType, ActorType}
use astra_agent.Domain.Models.{
  Uuid, Instant, Json, uuid, num, null, field, end, obj, RemoteAgent, Task, Lease, AuditEvent,
}
use astra_agent.Runtime.State.{Env, Method, event, entry, log, owned}
use astra_agent.Runtime.Tasks.{put_agent, active_lease, is_active, is_under_lease, seen_lately}

abbrev pub is_revoked : RemoteAgentStatus → Bool
is_revoked RemoteAgentStatus.revoked = true
is_revoked _ = false

-- A known agent of the same tenant keeps its status and its trust.
abbrev pub merge_registration : RemoteAgent → Option RemoteAgent → RemoteAgent
merge_registration agent none = agent
merge_registration agent (some existing) = record agent {
  status = existing.status;
  trust_level = existing.trust_level;
}

unfoldable pub register_ara : RemoteAgent → AuditEvent → Method RemoteAgent
register_ara agent event = do
  found ← gets (λ s. get s.remote_agents agent.id)
  let stored = merge_registration agent (owned (λ a. a.tenant_id) found agent.tenant_id)
  put_agent agent.id stored
  log event
  pure stored

-- The task of a heartbeat: both ids or none.
unfoldable pub heartbeat_task : Env → Uuid → Uuid → Option Uuid → Option Uuid → Method (Option Task)
heartbeat_task env tenant_id ara_id none none = pure none
heartbeat_task env tenant_id ara_id (some task_id) (some lease_id) = do
  (task, lease) ← active_lease env tenant_id ara_id task_id lease_id
  guard (is_under_lease task.state) (conflict "task is not active")
  pure (some task)
heartbeat_task env tenant_id ara_id _ _ = raise (conflict "task and lease are required together")

abbrev pub id_or_null : Option Uuid → Json
id_or_null none = null
id_or_null (some id) = uuid id

abbrev pub task_id_of : Option Task → Option Uuid
task_id_of none = none
task_id_of (some task) = some task.id

unfoldable pub heartbeat : Env → Uuid → Uuid → Option Uuid → Option Uuid → Method (Option Task)
heartbeat env tenant_id ara_id task_id lease_id = do
  found ← gets (λ s. get s.remote_agents ara_id)
  agent ← require_owned (λ a. a.tenant_id) found tenant_id (not_found "ARA not found")
  put_agent ara_id (record agent { last_seen_at = env.now 1 })
  task ← heartbeat_task env tenant_id ara_id task_id lease_id
  log (
      event env 0 tenant_id EventType.ara_heartbeat ActorType.ara (some ara_id) (task_id_of task)
        (entry "lease_id" (id_or_null lease_id)))
  pure task

-- An active agent that has not been seen for two minutes is shown as offline.
abbrev pub shown : Instant → RemoteAgent → RemoteAgent
shown now agent =
    if is_active agent.status && not (seen_lately now agent.last_seen_at)
    then record agent { status = RemoteAgentStatus.offline }
    else agent

unfoldable pub list_remote_agents : Env → Uuid → Method (List RemoteAgent)
list_remote_agents env tenant_id =
    gets
      λ s. map (shown (env.now 0)) (filter (λ a. a.tenant_id == tenant_id) (values s.remote_agents))

unfoldable pub set_remote_agent_trust : Env → Uuid → Uuid → ℕ → Uuid → Method RemoteAgent
set_remote_agent_trust env tenant_id ara_id trust_level actor_id = do
  found ← gets (λ s. get s.remote_agents ara_id)
  agent ← require_owned (λ a. a.tenant_id) found tenant_id (not_found "ARA not found")
  guard (not (is_revoked agent.status)) (conflict "revoked ARA cannot regain trust")
  let updated = record agent { trust_level = trust_level }
  put_agent ara_id updated
  log (
      event env 0 tenant_id EventType.ara_trust_updated ActorType.user (some actor_id) none
        (obj (field "ara_id" (uuid ara_id) (field "trust_level" (num trust_level) end))))
  pure updated

-- The loop of `revoke_remote_agent` over a copy of the leases. It writes each lease that it ends
-- under the id of the lease's task.
unfoldable pub end_leases : Env → Uuid → Uuid → ℕ → List Lease → Dict Lease → Dict Lease
end_leases env tenant_id ara_id n [] leases = leases
end_leases env tenant_id ara_id n (lease ∷ rest) leases =
    end_leases env tenant_id ara_id (n + 1) rest (
      if lease.tenant_id == tenant_id && lease.ara_id == ara_id
      then put leases lease.task_id (record lease { expires_at = env.now n })
      else leases)

unfoldable pub revoke_remote_agent : Env → Uuid → Uuid → Uuid → Method RemoteAgent
revoke_remote_agent env tenant_id ara_id actor_id = do
  found ← gets (λ s. get s.remote_agents ara_id)
  agent ← require_owned (λ a. a.tenant_id) found tenant_id (not_found "ARA not found")
  let revoked = record agent { status = RemoteAgentStatus.revoked; trust_level = 0 }
  put_agent ara_id revoked
  modify (λ s. record s { leases = end_leases env tenant_id ara_id 0 (values s.leases) s.leases })
  log (
      event env 0 tenant_id EventType.ara_revoked ActorType.user (some actor_id) none
        (entry "ara_id" (uuid ara_id)))
  pure revoked
