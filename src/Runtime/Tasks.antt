-- ===== src/Runtime/Tasks.antt =====
-- The tasks and leases of memory.py: a remote agent polls for a task, gets it under a lease, and
-- reports progress or renews while the lease holds.
mod Offers
pub mod Leases
mod Tests
use astra_agent.Base.{
  ℕ, ◌+◌, String, Bool, true, false, ◌&&◌, ◌||◌, not, Option, none, some, List, [], ◌∷◌, map, ◌==◌,
  ltb, leb, is_none, holds, if◌then◌else◌, find, filter, any, sort, ascending,
}
use astra_agent.Base.Dict.{get, put, values, discard}
use astra_agent.Base.Exec.{
  require_owned, not_found, conflict, validation, pure, gets, modify, require, guard, ◌>>=◌, ◌>>◌,
}
use astra_agent.Domain.Kinds.{TaskState, RemoteAgentStatus, EventType, ActorType}
use astra_agent.Domain.Models.{
  Uuid, Instant, Json, uuid, instant, text, num, null, flag, field, end, obj, RemoteAgent, Task,
  Lease, AuditEvent,
}
use astra_agent.Domain.Capabilities.{covers}
use astra_agent.Runtime.State.{Store, Env, Method, event, entry, log, owned}

abbrev pub is_pending : TaskState → Bool
is_pending TaskState.pending = true
is_pending _ = false

abbrev pub is_leased : TaskState → Bool
is_leased TaskState.leased = true
is_leased _ = false

-- `state in {LEASED, CANCELLING}`
abbrev pub is_under_lease : TaskState → Bool
is_under_lease TaskState.leased = true
is_under_lease TaskState.cancelling = true
is_under_lease _ = false

abbrev pub is_active : RemoteAgentStatus → Bool
is_active RemoteAgentStatus.active = true
is_active _ = false

abbrev pub put_task : Uuid → Task → Method (Unit {0})
put_task task_id task = modify (λ s. record s { tasks = put s.tasks task_id task })

abbrev pub put_agent : Uuid → RemoteAgent → Method (Unit {0})
put_agent ara_id agent = modify (λ s. record s { remote_agents = put s.remote_agents ara_id agent })

abbrev pub put_lease : Uuid → Lease → Method (Unit {0})
put_lease lease_id lease = modify (λ s. record s { leases = put s.leases lease_id lease })

unfoldable pub add_task : Task → AuditEvent → Method Task
add_task task event = do put_task task.id task; log event; pure task

unfoldable pub get_task : Uuid → Uuid → Method (Option Task)
get_task tenant_id task_id =
    gets (λ s. owned (λ (t : Task). t.tenant_id) (get s.tasks task_id) tenant_id)

unfoldable pub list_tasks : Uuid → Method (List Task)
list_tasks tenant_id = gets (λ s. filter (λ t. t.tenant_id == tenant_id) (values s.tasks))

unfoldable pub request_task_cancellation : Env → Uuid → Uuid → Uuid → Method Task
request_task_cancellation env tenant_id task_id actor_id = do
  found ← gets (λ s. get s.tasks task_id)
  task ← require_owned (λ t. t.tenant_id) found tenant_id (not_found "task not found")
  guard (is_leased task.state) (conflict "task is not leased")
  let requested = record task { state = TaskState.cancelling }
  put_task task_id requested
  log (
      event env 0 tenant_id EventType.task_cancelled ActorType.user (some actor_id) (some task_id)
        (entry "requested" (flag true)))
  pure requested

-- `now - seen <= timedelta(minutes=2)`
abbrev pub seen_lately : Instant → Instant → Bool
seen_lately now seen = leb now (seen + 120000000)

-- The ids of the tasks with a lease that has run out.
abbrev pub has_expired_lease : Instant → List Lease → Uuid → Bool
has_expired_lease now leases task_id =
    any (λ (l : Lease). l.task_id == task_id && leb l.expires_at now) leases

-- The tests of the loop in `lease_task`: each `continue` of the code is a test that fails here.
-- `ara_id` is the key under which the agent is stored.
abbrev pub offerable : Instant → Uuid → Uuid → RemoteAgent → List Lease → Task → Bool
offerable now tenant_id ara_id agent leases task =
    task.tenant_id == tenant_id
    && (is_pending task.state || has_expired_lease now leases task.id)
    && (is_none task.target_ara_id || holds task.target_ara_id ara_id)
    && (is_none task.target_ara_id
        || is_active agent.status && ltb 0 agent.trust_level && seen_lately now agent.last_seen_at)
    && covers agent.capabilities task.required_capabilities

abbrev pub new_lease : Env → Uuid → Uuid → Uuid → Instant → Lease
new_lease env tenant_id task_id ara_id expires_at = record {
  id = env.fresh 0;
  tenant_id = tenant_id;
  task_id = task_id;
  ara_id = ara_id;
  acquired_at = env.created 0;
  expires_at = expires_at;
}

abbrev pub lease_payload : Uuid → Instant → Json
lease_payload lease_id expires_at =
    obj (field "lease_id" (uuid lease_id) (field "expires_at" (instant expires_at) end))

unfoldable pub lease_found :
    Env → Uuid → Uuid → Instant → Option Task → Method (Option (Task × Lease))
lease_found env tenant_id ara_id expires_at none = pure none
lease_found env tenant_id ara_id expires_at (some task) = do
  let lease = new_lease env tenant_id task.id ara_id expires_at
  guard (ltb lease.acquired_at lease.expires_at) validation
  let leased_task = record task { state = TaskState.leased }
  put_task task.id leased_task
  modify (λ s. record s { leases = discard (λ l. l.task_id == task.id) s.leases })
  put_lease lease.id lease
  log (
      event env 0 tenant_id EventType.task_leased ActorType.ara (some ara_id) (some task.id)
        (lease_payload lease.id expires_at))
  pure (some (leased_task, lease))

-- The agent in hand is the one read before its `last_seen_at` is written.
unfoldable pub lease_to :
    Env → Uuid → Uuid → Instant → Option RemoteAgent → Method (Option (Task × Lease))
lease_to env tenant_id ara_id expires_at none = pure none
lease_to env tenant_id ara_id expires_at (some agent) = do
  let now = env.now 0
  put_agent ara_id (record agent { last_seen_at = now })
  task ← gets (λ s.
      find (offerable now tenant_id ara_id agent (values s.leases))
        (sort (ascending (λ t. t.created_at)) (values s.tasks)))
  lease_found env tenant_id ara_id expires_at task

unfoldable pub lease_task : Env → Uuid → Uuid → Instant → Method (Option (Task × Lease))
lease_task env tenant_id ara_id expires_at = do
  found ← gets (λ s. get s.remote_agents ara_id)
  lease_to env tenant_id ara_id expires_at (owned (λ a. a.tenant_id) found tenant_id)

abbrev pub is_lease_of : Uuid → Uuid → Uuid → Lease → Bool
is_lease_of tenant_id ara_id task_id lease =
    lease.tenant_id == tenant_id && lease.ara_id == ara_id && lease.task_id == task_id

unfoldable pub active_lease : Env → Uuid → Uuid → Uuid → Uuid → Method (Task × Lease)
active_lease env tenant_id ara_id task_id lease_id = do
  found_task ← gets (λ s. get s.tasks task_id)
  found_lease ← gets (λ s. get s.leases lease_id)
  task ← require found_task (not_found "task or lease not found")
  lease ← require found_lease (not_found "task or lease not found")
  guard (task.tenant_id == tenant_id) (not_found "task or lease not found")
  guard (is_lease_of tenant_id ara_id task_id lease) (not_found "task or lease not found")
  guard (is_under_lease task.state) (conflict "task is not leased")
  guard (ltb (env.now 0) lease.expires_at) (conflict "lease has expired")
  pure (task, lease)

abbrev pub or_null : Option ℕ → Json
or_null none = null
or_null (some n) = num n

unfoldable pub record_progress :
    Env → Uuid → Uuid → Uuid → Uuid → String → Option ℕ → Method (Unit {0})
record_progress env tenant_id ara_id task_id lease_id message progress_percent = do
  active_lease env tenant_id ara_id task_id lease_id
  log (
      event env 0 tenant_id EventType.ara_progress ActorType.ara (some ara_id) (some task_id) (
        obj (
          field "message" (text message)
            (field "progress_percent" (or_null progress_percent) end))))

unfoldable pub renew_lease : Env → Uuid → Uuid → Uuid → Uuid → Instant → Method Lease
renew_lease env tenant_id ara_id task_id lease_id expires_at = do
  (task, lease) ← active_lease env tenant_id ara_id task_id lease_id
  let renewed = record lease { expires_at = expires_at }
  put_lease lease_id renewed
  log (
      event env 0 tenant_id EventType.lease_renewed ActorType.ara (some ara_id) (some task_id)
        (lease_payload lease_id expires_at))
  pure renewed
