-- ===== src/Runtime/Tasks/Offers.antt =====
-- What `lease_task` gives to a remote agent, and that a task then has one lease.
use mathlib.Core.List.{Memᴰ}
use astra_agent.Base.{
  ◌≤◌, ◌<◌, ◌≡◌, ◌⊎◌, refl, inl, inr, true, Option, none, some, arith, All, All-imp, All-mem,
  All-of_mem, find, find-test, find-mem, sort, ascending, ascending-IsOrder, find-sort_least,
  sort-All, leb→le, ◌==◌, ltb, ◌&&◌, ◌||◌, is_none, holds,
}
use astra_agent.Base.Dict.{get, put, values, discard, Each, Each-put, Each-imp, discard-test}
use astra_agent.Base.Exec.{ok, ◌>>=◌}
use astra_agent.Domain.Models.{Uuid, Instant, RemoteAgent, Task, Lease}
use astra_agent.Domain.Kinds.{TaskState}
use astra_agent.Domain.Capabilities.{covers-All}
use astra_agent.Runtime.State.{Store, Env}
use astra_agent.Runtime.Tasks.{
  lease_task, lease_to, lease_found, offerable, is_pending, has_expired_lease, is_active,
  seen_lately, new_lease,
}

module _ (env : Env) (t a : Uuid) (x : Instant) (s : Store) where
  abbrev offered : RemoteAgent → Option Task
  offered agent =
      find (offerable (env.now 0) t a agent (values s.leases))
        (sort (ascending (λ k. k.created_at)) (values s.tasks))

  lease_cases :
      (task : Task) (lease : Lease)
      → (lease_task env t a x s).0 ≡ ok (some (task, lease))
      → (agent : RemoteAgent) × (before : Task) × (get s.remote_agents a ≡ some agent)
        × (agent.tenant_id ≡ t)
        × (offered agent ≡ some before)
        × (task ≡ record before { state = TaskState.leased })
        × (lease ≡ new_lease env t before.id a x)
        × (env.created 0 < x)
        × ((lease_task env t a x s).1.tasks ≡ put s.tasks before.id task)
        × ((lease_task env t a x s).1.leases
            ≡ put (discard (λ l. l.task_id == before.id) s.leases) lease.id lease)
  unfolding lease_task lease_to lease_found ◌>>=◌
  lease_cases task lease h = ground arith

  -- A lease is given on a stored task of the caller's tenant that is pending or whose lease has run
  -- out, that is meant for no other agent and for this one only if it is active and trusted, and
  -- whose required capabilities the agent all has; no older task fits. The task is then leased, and
  -- the lease is the agent's, up to the time it asked for.
  pub lease_task-offer :
      (task : Task) (lease : Lease)
      → (lease_task env t a x s).0 ≡ ok (some (task, lease))
      → (agent : RemoteAgent) × (before : Task) × (get s.remote_agents a ≡ some agent)
        × Memᴰ before (values s.tasks)
        × (before.tenant_id ≡ t)
        × ((is_pending before.state ≡ true)
            ⊎ (has_expired_lease (env.now 0) (values s.leases) before.id ≡ true))
        × ((before.target_ara_id ≡ none)
            ⊎ ((before.target_ara_id ≡ some a)
                × (is_active agent.status ≡ true)
                × (0 < agent.trust_level)))
        × All (λ c. Memᴰ c agent.capabilities) before.required_capabilities
        × All
            (λ u.
              offerable (env.now 0) t a agent (values s.leases) u ≡ true
              → before.created_at ≤ u.created_at)
            (values s.tasks)
        × (task ≡ record before { state = TaskState.leased })
        × (lease ≡ new_lease env t before.id a x)
  lease_task-offer task lease h =
      let (agent, before, stored, _, found, same, made, _, _, _) = lease_cases task lease h in
      let p = offerable (env.now 0) t a agent (values s.leases) in
      let le = ascending (λ (k : Task). k.created_at) in
      let fits = find-test p (sort le (values s.tasks)) found in
      (
        agent,
        before,
        stored,
        All-mem (λ j. Memᴰ j (values s.tasks)) (sort le (values s.tasks))
            (sort-All _ _ (values s.tasks) (All-of_mem _ (values s.tasks) (λ j m. m)))
            (find-mem p (sort le (values s.tasks)) found),
        ground (arith, fits),
        ground (arith, fits),
        targeted before.target_ara_id agent (ground (arith, fits)) (ground (arith, fits)),
        covers-All agent.capabilities before.required_capabilities (ground (arith, fits)),
        All-imp _ _ (λ u first hit. leb→le before.created_at u.created_at (first hit))
            (values s.tasks)
            (find-sort_least _ (ascending-IsOrder (λ k. k.created_at)) p (values s.tasks) found),
        same,
        made,
      )
    where
      targeted :
          (o : Option Uuid) (agent : RemoteAgent)
          → (is_none o || holds o a) ≡ true
          → (is_none o
              || is_active agent.status
                && ltb 0 agent.trust_level
                && seen_lately (env.now 0) agent.last_seen_at)
            ≡ true
          → (o ≡ none) ⊎ ((o ≡ some a) × (is_active agent.status ≡ true) × (0 < agent.trust_level))
      targeted none agent h k = inl refl
      targeted (some b) agent h k = inr (ground arith, ground arith, ground arith)

  -- After a lease is given, it is the only lease on record for its task.
  pub lease_task-single :
      (task : Task) (lease : Lease)
      → (lease_task env t a x s).0 ≡ ok (some (task, lease))
      → Each (λ _ l. l.task_id ≡ task.id → l ≡ lease) (lease_task env t a x s).1.leases
  lease_task-single task lease h =
      let (_, before, _, _, _, same, _, _, _, after) = lease_cases task lease h in
      let id : task.id ≡ before.id = rw same in
      rw (after, id)
        (Each-put _ _ lease.id lease (λ _. refl)
          (Each-imp _ _ (λ k l other hit. absurd (ground (arith, other, hit)))
            (discard (λ l. l.task_id == before.id) s.leases)
            (discard-test (λ (l : Lease). l.task_id == before.id) s.leases)))
