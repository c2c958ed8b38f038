-- ===== src/Runtime/Jobs/Claims.antt =====
-- What `claim_job` hands out, and to whom.
use mathlib.Core.List.{Memᴰ}
use astra_agent.Base.{
  ◌↔◌, ◌+◌, ◌≤◌, ◌≡◌, true, false, Option, none, some, arith, All, All-imp, All-mem, All-of_mem,
  All-find-none, find, find-test, find-none, find-mem, sort, ascending, ascending-IsOrder,
  find-sort_least, sort-All, All-sort, leb→le,
}
use astra_agent.Base.Dict.{get, put, values, get-put_self}
use astra_agent.Base.Exec.{ok, ◌>>=◌}
use astra_agent.Domain.Models.{Uuid, Instant, BackgroundJob}
use astra_agent.Domain.Kinds.{BackgroundJobState}
use astra_agent.Runtime.State.{Store, Env}
use astra_agent.Runtime.Jobs.{claim_job, claim_found, claimable}

-- The job as a claim leaves it.
abbrev pub claimed : Env → Uuid → Instant → BackgroundJob → BackgroundJob
claimed env lease_id expires job = record job {
  state = BackgroundJobState.running;
  attempt_count = job.attempt_count + 1;
  lease_id = some lease_id;
  lease_expires_at = some expires;
  updated_at = env.now 0;
}

module _ (env : Env) (lease_id : Uuid) (expires : Instant) (s : Store) where
  abbrev candidate : Option BackgroundJob
  candidate = find (claimable (env.now 0)) (sort (ascending (λ j. j.created_at)) (values s.jobs))

  claim_cases :
      (c : BackgroundJob)
      → (claim_job env lease_id expires s).0 ≡ ok (some c)
      → (job : BackgroundJob) × (candidate ≡ some job)
        × (c ≡ claimed env lease_id expires job)
        × ((claim_job env lease_id expires s).1.jobs ≡ put s.jobs job.id c)
  unfolding claim_job claim_found ◌>>=◌
  claim_cases c h = ground arith

  -- A claim hands out the oldest claimable job: the returned record is that job, running under the
  -- caller's lease with one attempt more, and it is what the store then holds under its id.
  pub claim_job-oldest :
      (c : BackgroundJob)
      → (claim_job env lease_id expires s).0 ≡ ok (some c)
      → (job : BackgroundJob) × Memᴰ job (values s.jobs)
        × (claimable (env.now 0) job ≡ true)
        × All (λ u. claimable (env.now 0) u ≡ true → job.created_at ≤ u.created_at) (values s.jobs)
        × (c ≡ claimed env lease_id expires job)
        × (get (claim_job env lease_id expires s).1.jobs c.id ≡ some c)
  claim_job-oldest c h =
      let (job, found, same, stored) = claim_cases c h in
      let p = claimable (env.now 0) in
      let all = sort (ascending (λ (j : BackgroundJob). j.created_at)) (values s.jobs) in
      (
        job,
        All-mem (λ j. Memᴰ j (values s.jobs)) all
            (sort-All _ _ (values s.jobs) (All-of_mem _ (values s.jobs) (λ j m. m)))
            (find-mem p all found),
        find-test p all found,
        All-imp _ _ (λ u first hit. leb→le job.created_at u.created_at (first hit)) (values s.jobs)
            (find-sort_least _ (ascending-IsOrder (λ j. j.created_at)) p (values s.jobs) found),
        same,
        rw stored (rw same (get-put_self s.jobs job.id _)),
      )

  -- A claim returns nothing, and changes nothing, exactly when no stored job can be claimed: none
  -- that waits has come due, and none that runs has an expired lease.
  pub claim_job-none :
      (claim_job env lease_id expires s ≡ (ok none, s))
      ↔ All (λ j. claimable (env.now 0) j ≡ false) (values s.jobs)
  unfolding claim_job claim_found ◌>>=◌
  claim_job-none =
      let p = claimable (env.now 0) in
      let le = ascending (λ (j : BackgroundJob). j.created_at) in
      (
        λ h. All-sort le _ (values s.jobs) (find-none p (sort le (values s.jobs)) (ground arith)),
        λ h.
            let nothing : find p (sort le (values s.jobs)) ≡ none =
              All-find-none p (sort le (values s.jobs)) (sort-All le _ (values s.jobs) h) in
            ground (arith, nothing),
      )
