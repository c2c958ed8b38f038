-- ===== src/Runtime/Tasks/Leases.antt =====
-- Who holds a task's lease, and what its renewal does.
use astra_agent.Base.{
  ◌≡◌, ◌<◌, refl, sym, ap, ◌∙◌, ℕ, String, true, Option, some, arith, ltb, if◌then◌else◌,
}
use astra_agent.Base.Dict.{get, get-put_self}
use astra_agent.Base.Exec.{ok, err, err≢ok, conflict, Failure, Result, ◌>>=◌}
use astra_agent.Domain.Models.{Uuid, Instant, Task, Lease, Approval}
use astra_agent.Runtime.State.{Store, Env}
use astra_agent.Runtime.Approvals.{request_approval}
use astra_agent.Runtime.Tasks.{
  active_lease, record_progress, renew_lease, is_lease_of, is_under_lease,
}

module _ (env : Env) (t a k l : Uuid) (s : Store) where
  -- The task and lease that an agent names, as the store has them: the agent holds the lease.
  pub record IsLeaseHeld (task : Task) (lease : Lease) : Type 0 where
    pub task_stored : get s.tasks k ≡ some task
    pub lease_stored : get s.leases l ≡ some lease
    pub owner : task.tenant_id ≡ t
    pub leased : is_under_lease task.state ≡ true
    pub holder : is_lease_of t a k lease ≡ true
    pub unexpired : env.now 0 < lease.expires_at

  pub active_lease-IsLeaseHeld :
      (task : Task) (lease : Lease)
      → (active_lease env t a k l s).0 ≡ ok (task, lease)
      → IsLeaseHeld task lease × ((active_lease env t a k l s).1 ≡ s)
  unfolding active_lease ◌>>=◌
  active_lease-IsLeaseHeld task lease h = ground arith

  held_lease :
      (task : Task) (lease : Lease)
      → IsLeaseHeld task lease
      → active_lease env t a k l s ≡ (ok (task, lease), s)
  unfolding active_lease ◌>>=◌
  held_lease task lease h =
      ground (arith, h.task_stored, h.lease_stored, h.owner, h.holder, h.leased, h.unexpired)

  renewed_cases :
      (x : Instant) (r : Result (Task × Lease)) (c : Lease)
      → active_lease env t a k l s ≡ (r, s)
      → (renew_lease env t a k l x s).0 ≡ ok c
      → (task : Task) × (lease : Lease) × (active_lease env t a k l s ≡ (ok (task, lease), s))
        × (c ≡ record lease { expires_at = x })
        × (get (renew_lease env t a k l x s).1.leases l ≡ some c)
        × ((renew_lease env t a k l x s).1.tasks ≡ s.tasks)
  unfolding renew_lease ◌>>=◌
  renewed_cases x (ok (task, lease)) c e h =
      let same : record lease { expires_at = x } ≡ c = cc (rw e at h) in
      (task, lease, e, sym same, rw e (get-put_self s.leases l _ ∙ ap some same), rw e refl)
  renewed_cases x (err f) c e h = absurd (err≢ok (rw e at h))

  active_lease_keeps : (active_lease env t a k l s).1 ≡ s
  unfolding active_lease ◌>>=◌
  active_lease_keeps = ground arith

  renewed :
      (later : Env) (s' : Store) (task : Task) (lease c : Lease) (x : Instant)
      → IsLeaseHeld task lease
      → c ≡ record lease { expires_at = x }
      → s'.tasks ≡ s.tasks
      → get s'.leases l ≡ some c
      → (active_lease later t a k l s').0
        ≡ (if ltb (later.now 0) x then ok (task, c) else err (conflict "lease has expired"))
  unfolding active_lease ◌>>=◌
  renewed later s' task lease c x h same tasks stored =
      ground (arith, h.task_stored, h.owner, h.holder, h.leased, same, tasks, stored)

  -- A renewal that returns was asked for by the agent that holds the lease. The lease is stored with
  -- the new end, and from then on the agent holds it exactly until then.
  pub renew_lease-extends :
      (x : Instant) (c : Lease)
      → (renew_lease env t a k l x s).0 ≡ ok c
      → (task : Task) × (lease : Lease) × IsLeaseHeld task lease
        × (c ≡ record lease { expires_at = x })
        × (get (renew_lease env t a k l x s).1.leases l ≡ some c)
        × ((later : Env)
            → (active_lease later t a k l (renew_lease env t a k l x s).1).0
              ≡ (if ltb (later.now 0) x then ok (task, c) else err (conflict "lease has expired")))
  renew_lease-extends x c h =
      let (task, lease, e, same, stored, tasks) =
        renewed_cases x (active_lease env t a k l s).0 c
          (λ i. ((active_lease env t a k l s).0, active_lease_keeps i)) h in
      let (held, _) = active_lease-IsLeaseHeld task lease (ap (λ p. p.0) e) in
      (
        task,
        lease,
        held,
        same,
        stored,
        λ later.
            renewed later (renew_lease env t a k l x s).1 task lease c x held same tasks stored,
      )

  -- Whoever does not hold the lease can neither report progress, renew the lease nor ask for an
  -- approval: the calls raise what the check of the lease raises, and the store stays as it is.
  pub active_lease-refused :
      (e : Failure) (message : String) (progress : Option ℕ) (x : Instant) (approval : Approval)
      → (active_lease env t a k l s).0 ≡ err e
      → (record_progress env t a k l message progress s ≡ (err e, s))
        × (renew_lease env t a k l x s ≡ (err e, s))
        × (request_approval env t a k l approval s ≡ (err e, s))
  unfolding record_progress renew_lease request_approval ◌>>=◌
  active_lease-refused e message progress x approval h =
      let both : active_lease env t a k l s ≡ (err e, s) = λ i. (h i, active_lease_keeps i) in
      (rw both refl, rw both refl, rw both refl)
