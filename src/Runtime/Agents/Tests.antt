-- ===== src/Runtime/Agents/Tests.antt =====
-- The revocation of the agent that holds a lease, and the theorems at it.
use astra_agent.Base.{ℕ, ◌≡◌, refl, some}
use astra_agent.Base.Dict.{get, values}
use astra_agent.Runtime.State.{Store, Env}
use astra_agent.Runtime.Samples.{env, agent, task_running}
use astra_agent.Runtime.Tasks.{active_lease}
use astra_agent.Runtime.Agents.{revoke_remote_agent}
use astra_agent.Runtime.Agents.Revocation.{revoke_remote_agent-keeps_lease}

abbrev after : Store
after = (revoke_remote_agent env 1 3 2 task_running).1

at_agent : get task_running.remote_agents 3 ≡ some agent
unfolding get
at_agent = refl

revoke_remote_agent-keeps_lease_example :
    (get after.leases 500 ≡ get task_running.leases 500)
    × ((later : Env) (k : ℕ)
        → (active_lease later 1 3 k 500 after).0 ≡ (active_lease later 1 3 k 500 task_running).0)
unfolding values
revoke_remote_agent-keeps_lease_example =
    revoke_remote_agent-keeps_lease env 1 3 2 task_running agent 500 at_agent refl (refl, tt)
