-- ===== src/Runtime/Jobs/Attempts.antt =====
-- The life of a claimed job: who may finish it, what a retry decides, and the record of attempts.
use astra_agent.Base.{
  ◌≡◌, ◌⊎◌, refl, true, false, Option, none, some, List, [], ◌∷◌, ◌++◌, arith, leb, holds, is_some,
  if◌then◌else◌,
}
use astra_agent.Base.Dict.{Dict, get, put, get-put, get-put_self, Each, Each-get}
use astra_agent.Base.Exec.{ok, err, conflict, ◌>>=◌}
use astra_agent.Domain.Models.{Uuid, Instant, BackgroundJob, JobAttempt, JobError}
use astra_agent.Runtime.State.{Store, Env}
use astra_agent.Runtime.Jobs.{
  complete_job, retry_job, claimable, is_running, completed_job, retried_job, update_last,
  finish_attempt, active_job,
}

-- An attempt list that is there and has an entry.
abbrev pub HasAttempt : Option (List JobAttempt) → Type 0
HasAttempt (some (a ∷ rest)) = Unit
HasAttempt _ = ⊥

update_last-some :
    (change : JobAttempt → JobAttempt) (a : JobAttempt) (items : List JobAttempt)
    → (b : JobAttempt) × (bs : List JobAttempt) × (update_last change (a ∷ items) ≡ some (b ∷ bs))
unfolding update_last
update_last-some change a [] = (change a, [], refl)
update_last-some change a (x ∷ xs) =
    let (b, bs, e) = update_last-some change x xs in (a, b ∷ bs, rw e)

pub append_one : (old : List JobAttempt) (a : JobAttempt) → HasAttempt (some (old ++ a ∷ []))
append_one [] a = tt
append_one (x ∷ xs) a = tt

-- The lease columns of a job follow its state, and a running job has an attempt on record.
pub record IsTracked (attempts : Dict (List JobAttempt)) (k : Uuid) (j : BackgroundJob)
    : Type 0 where
  pub keyed : j.id ≡ k
  pub leased :
      is_running j.state ≡ true → (is_some j.lease_id ≡ true) × (is_some j.lease_expires_at ≡ true)
  pub idle : is_running j.state ≡ false → (j.lease_id ≡ none) × (j.lease_expires_at ≡ none)
  pub tracked : is_running j.state ≡ true → HasAttempt (get attempts k)

abbrev pub AllTracked : Store → Type 0
AllTracked s = Each (IsTracked s.job_attempts) s.jobs

pub keep-IsTracked :
    (old new : Dict (List JobAttempt)) (k : Uuid) (j : BackgroundJob)
    → ((i : Uuid) → HasAttempt (get old i) → HasAttempt (get new i))
    → IsTracked old k j
    → IsTracked new k j
keep-IsTracked old new k j keep t = record {
  keyed = t.keyed;
  leased = t.leased;
  idle = t.idle;
  tracked = λ r. keep k (t.tracked r);
}

pub put_keeps :
    (d : Dict (List JobAttempt)) (k : Uuid) (items : List JobAttempt)
    → HasAttempt (some items)
    → (i : Uuid) → HasAttempt (get d i)
    → HasAttempt (get (put d k items) i)
put_keeps d k items has i h = ground (arith, get-put d k i items)

has_cases :
    (o : Option (List JobAttempt))
    → HasAttempt o
    → (a : JobAttempt) × (rest : List JobAttempt) × (o ≡ some (a ∷ rest))
has_cases none h = absurd h
has_cases (some []) h = absurd h
has_cases (some (a ∷ rest)) h = (a, rest, refl)

finish_attempt_total :
    (k : Uuid) (s : Store) (change : JobAttempt → JobAttempt)
    → HasAttempt (get s.job_attempts k)
    → (b : JobAttempt) × (bs : List JobAttempt) × (finish_attempt k change s
        ≡ (ok tt, record s { job_attempts = put s.job_attempts k (b ∷ bs) }))
unfolding finish_attempt ◌>>=◌
finish_attempt_total k s change h =
    let (a, rest, e) = has_cases (get s.job_attempts k) h in
    let (b, bs, u) = update_last-some change a rest in (b, bs, rw (e, finish_attempt) (rw u))

-- The store after a job is finished: its record, and the record of its last attempt.
abbrev pub finished_store : Store → Uuid → BackgroundJob → List JobAttempt → Store
finished_store s k job items = record s {
  jobs = put s.jobs k job;
  job_attempts = put s.job_attempts k items;
}

module _ (env : Env) (t k l : Uuid) (s : Store) (j : BackgroundJob) where
  -- The job under the key is the tenant's and runs under the lease.
  pub record IsHeld : Type 0 where
    pub stored : get s.jobs k ≡ some j
    pub owner : j.tenant_id ≡ t
    pub running : is_running j.state ≡ true
    pub lease : j.lease_id ≡ some l

  module _ (held : IsHeld) (has : HasAttempt (get s.job_attempts k)) where
    pub complete_held :
        (b : JobAttempt) × (bs : List JobAttempt) × (complete_job env t k l s ≡ (
          ok (completed_job (env.now 0) j),
          finished_store s k (completed_job (env.now 0) j) (b ∷ bs),
        ))
    unfolding complete_job active_job ◌>>=◌
    complete_held =
        let done = completed_job (env.now 0) j in
        let (b, bs, e) =
          finish_attempt_total k (record s { jobs = put s.jobs k done })
            (λ a. record a { finished_at = some (env.now 0) }) has in
        (b, bs, ground (arith, e, held.stored, held.owner, held.running, held.lease))

    pub retry_held :
        (error : JobError) (at : Instant)
        → (b : JobAttempt) × (bs : List JobAttempt) × (retry_job env t k l error at s ≡ (
          ok (retried_job (env.now 0) error at j),
          finished_store s k (retried_job (env.now 0) error at j) (b ∷ bs),
        ))
    unfolding retry_job active_job ◌>>=◌
    retry_held error at =
        let done = retried_job (env.now 0) error at j in
        let (b, bs, e) =
          finish_attempt_total k (record s { jobs = put s.jobs k done })
            (λ a. record a { finished_at = some (env.now 0); error = some error }) has in
        (b, bs, ground (arith, e, held.stored, held.owner, held.running, held.lease))

module _ (env : Env) (t k l : Uuid) (s : Store) (j : BackgroundJob) where
  -- In a store whose jobs are tracked, whoever holds a job can finish it: completing it and handing
  -- it back for a retry both return the new record, never a missing attempt.
  pub finish_held :
      (error : JobError) (at : Instant)
      → AllTracked s
      → IsHeld env t k l s j
      → ((complete_job env t k l s).0 ≡ ok (completed_job (env.now 0) j))
        × ((retry_job env t k l error at s).0 ≡ ok (retried_job (env.now 0) error at j))
  finish_held error at all held =
      let has =
        (Each-get (IsTracked s.job_attempts) s.jobs k all held.stored).tracked held.running in
      let (_, _, done) = complete_held env t k l s j held has in
      let (_, _, back) = retry_held env t k l s j held has error at in (rw done, rw back)

  -- A job that is not running, or runs under another lease, can be neither completed nor handed
  -- back: both calls raise a conflict and leave the store as it is.
  pub finish_refused :
      (error : JobError) (at : Instant)
      → get s.jobs k ≡ some j
      → j.tenant_id ≡ t
      → (is_running j.state ≡ false) ⊎ (holds j.lease_id l ≡ false)
      → (complete_job env t k l s ≡ (err (conflict "job is not actively claimed"), s))
        × (retry_job env t k l error at s ≡ (err (conflict "job is not actively claimed"), s))
  unfolding complete_job retry_job active_job ◌>>=◌
  finish_refused error at e o h = (ground arith, ground arith)

  -- After a retry the job can be claimed again from `at` on if it has attempts left; if it has used
  -- them up, no claim ever takes it.
  pub retry_job-claimable :
      (error : JobError) (at : Instant)
      → AllTracked s
      → IsHeld env t k l s j
      → (r : BackgroundJob) × (get (retry_job env t k l error at s).1.jobs k ≡ some r)
        × ((now : Instant)
            → claimable now r ≡ (if leb j.max_attempts j.attempt_count then false else leb at now))
  retry_job-claimable error at all held =
      let has =
        (Each-get (IsTracked s.job_attempts) s.jobs k all held.stored).tracked held.running in
      let (_, _, back) = retry_held env t k l s j held has error at in
      (retried_job (env.now 0) error at j, rw back (get-put_self s.jobs k _), λ now. ground arith)
