-- ===== src/Runtime/Tasks/Tests.antt =====
-- Runs of `lease_task`, and its theorems at them.
use mathlib.Core.List.{Memᴰ}
use astra_agent.Base.{◌≤◌, ◌<◌, ◌≡◌, ◌⊎◌, refl, true, none, some, All, find, sort, all, any}
use astra_agent.Base.Dict.{get, put, values, discard}
use astra_agent.Base.Exec.{ok, err, conflict, ◌>>=◌}
use astra_agent.Domain.Kinds.{TaskState}
use astra_agent.Domain.Capabilities.{covers, is_in, same_capability}
use astra_agent.Domain.Models.{RemoteAgent, Task, Lease}
use astra_agent.Runtime.Samples.{env, env_at, leased_task, lease, task_waiting, task_running}
use astra_agent.Runtime.Tasks.{
  renew_lease, active_lease, lease_task, lease_to, lease_found, is_pending, has_expired_lease,
  is_active, offerable, new_lease,
}
use astra_agent.Runtime.Tasks.Offers.{lease_task-offer}

leases_task : (lease_task env 1 3 2000 task_waiting).0 ≡ ok (some (leased_task, lease))
unfolding lease_task lease_to lease_found get put values discard find sort all any covers is_in
    same_capability ◌>>=◌
leases_task = refl

lease_task-offer_example :
    (a : RemoteAgent) × (before : Task) × (get task_waiting.remote_agents 3 ≡ some a)
    × Memᴰ before (values task_waiting.tasks)
    × (before.tenant_id ≡ 1)
    × ((is_pending before.state ≡ true)
        ⊎ (has_expired_lease 1000 (values task_waiting.leases) before.id ≡ true))
    × ((before.target_ara_id ≡ none)
        ⊎ ((before.target_ara_id ≡ some 3) × (is_active a.status ≡ true) × (0 < a.trust_level)))
    × All (λ c. Memᴰ c a.capabilities) before.required_capabilities
    × All
        (λ u.
          offerable 1000 1 3 a (values task_waiting.leases) u ≡ true
          → before.created_at ≤ u.created_at)
        (values task_waiting.tasks)
    × (leased_task ≡ record before { state = TaskState.leased })
    × (lease ≡ new_lease env 1 before.id 3 2000)
lease_task-offer_example = lease_task-offer env 1 3 2000 task_waiting leased_task lease leases_task

abbrev renewed : Lease
renewed = record lease { expires_at = 4000 }

renews : (renew_lease env 1 3 30 500 4000 task_running).0 ≡ ok renewed
unfolding renew_lease active_lease get put ◌>>=◌
renews = refl

expired :
    (active_lease (env_at 3000) 1 3 30 500 task_running).0 ≡ err (conflict "lease has expired")
unfolding active_lease get ◌>>=◌
expired = refl
