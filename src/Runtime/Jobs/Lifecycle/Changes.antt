-- ===== src/Runtime/Jobs/Lifecycle/Changes.antt =====
-- The calls of the queue, against the steps of a job's life.
use mathlib.Core.List.{Memᴰ}
use astra_agent.Base.{
  ◌≡◌, ◌≢◌, ◌⊎◌, inl, inr, ap, refl, true, Bool, Bool-cases, Option, none, some, arith, ◌==◌, ◌&&◌,
  leb, find, find-mem, find-test, sort, ascending, sort-All, All-mem, All-of_mem, leb→le, holds,
}
use astra_agent.Base.Dict.{get, put, values, IsIndex, mem-get, get-IsIndex}
use astra_agent.Base.Exec.{Failure, ok, err, not_found, conflict, ◌>>=◌}
use astra_agent.Domain.Models.{Uuid, Instant, BackgroundJob, JobAttempt, JobError}
use astra_agent.Domain.Kinds.{BackgroundJobState}
use astra_agent.Runtime.State.{Store, Env}
use astra_agent.Runtime.Jobs.{
  enqueue_job, enqueue_new, claim_job, claim_found, complete_job, retry_job, requeue_job, claimable,
  active_job, finish_attempt, completed_job, retried_job, requeued_job, retry_state, is_running,
  is_failed,
}
use astra_agent.Runtime.Jobs.Claims.{claimed}
use astra_agent.Runtime.Jobs.Tracking.{Call, enqueue, claim, complete, retry, requeue, call}
use astra_agent.Runtime.Jobs.Lifecycle.{
  held, given_up, Step, take_up, take_over, finish, hand_back, give_up, start_over, phase_at, phase,
  IsNext, Change, none_moved, one_moved, one_added, Spares,
}

claimed-IsNext :
    (env : Env) (l : Uuid) (x : Instant) (j : BackgroundJob) (st : BackgroundJobState)
    → j.state ≡ st
    → claimable (env.now 0) j ≡ true
    → IsNext j (claimed env l x j)
claimed-IsNext env l x j BackgroundJobState.pending e c = record {
  same_id = refl;
  same_limit = refl;
  step = rw e (take_up l j.attempt_count);
}
claimed-IsNext env l x j BackgroundJobState.retry e c = record {
  same_id = refl;
  same_limit = refl;
  step = rw e (take_up l j.attempt_count);
}
claimed-IsNext env l x j BackgroundJobState.running e c = record {
  same_id = refl;
  same_limit = refl;
  step = rw e (take_over l j.lease_id j.attempt_count);
}
claimed-IsNext env l x j BackgroundJobState.completed e c = ground (arith, e, c)
claimed-IsNext env l x j BackgroundJobState.failed e c = ground (arith, e, c)

claim_found-Change :
    {i : Uuid} (env : Env) (l : Uuid) (x : Instant) (s : Store) (o : Option BackgroundJob)
    → ((j : BackgroundJob)
        → o ≡ some j
        → (get s.jobs j.id ≡ some j) × (claimable (env.now 0) j ≡ true))
    → Change i s (claim_found env l x o s).1.jobs
unfolding claim_found ◌>>=◌
claim_found-Change env l x s none found = none_moved refl
claim_found-Change env l x s (some j) found =
    one_moved j (claimed env l x j) (found j refl).0 refl
      (claimed-IsNext env l x j j.state refl (found j refl).1)

claim_job-Change :
    {i : Uuid} (env : Env) (l : Uuid) (x : Instant) (s : Store)
    → IsIndex (λ (j : BackgroundJob). j.id) s.jobs
    → Change i s (claim_job env l x s).1.jobs
unfolding claim_job ◌>>=◌
claim_job-Change env l x s index =
    let all = sort (ascending (λ (j : BackgroundJob). j.created_at)) (values s.jobs) in
    claim_found-Change env l x s (find (claimable (env.now 0)) all) λ j e. (
      mem-get (λ (j : BackgroundJob). j.id) s.jobs index
          (All-mem (λ j. Memᴰ j (values s.jobs)) all
            (sort-All _ _ (values s.jobs) (All-of_mem _ (values s.jobs) (λ j m. m)))
            (find-mem (claimable (env.now 0)) all e)),
      find-test (claimable (env.now 0)) all e,
    )

enqueue_new-Change :
    {i : Uuid} (j : BackgroundJob) (o : Option BackgroundJob) (s : Store)
    → j.id ≢ i
    → Change i s (enqueue_new j o s).1.jobs
unfolding enqueue_new ◌>>=◌
enqueue_new-Change j (some old) s other = none_moved refl
enqueue_new-Change j none s other = one_added j other refl

finish_attempt-jobs :
    (k : Uuid) (change : JobAttempt → JobAttempt) (s : Store)
    → (finish_attempt k change s).1.jobs ≡ s.jobs
unfolding finish_attempt ◌>>=◌
finish_attempt-jobs k change s = ground arith

held_phase :
    (j : BackgroundJob) (l : Uuid)
    → (is_running j.state && holds j.lease_id l) ≡ true
    → phase j ≡ held (some l) j.attempt_count
held_phase j l h = ground arith

failed_phase : (j : BackgroundJob) (b : Bool) → (b && is_failed j.state) ≡ true → phase j ≡ given_up
failed_phase j b h = ground arith

retried-Step :
    (l : Uuid) (j : BackgroundJob)
    → Step j.max_attempts
        (held (some l) j.attempt_count)
        (phase_at (retry_state j) none j.attempt_count)
retried-Step l j = elim (Bool-cases (leb j.max_attempts j.attempt_count)) [
  | inl used ↦ rw used (give_up l j.attempt_count (leb→le j.max_attempts j.attempt_count used))
  | inr left ↦ rw left (hand_back l j.attempt_count (ground arith))
]

-- A job that runs under the lease, stored under its own id.
record IsHolder (s : Store) (k l : Uuid) (j : BackgroundJob) : Type 0 where
  stored : get s.jobs j.id ≡ some j
  key : j.id ≡ k
  phase_held : phase j ≡ held (some l) j.attempt_count

module _ (env : Env) (t k l : Uuid) (s : Store)
    (index : IsIndex (λ (j : BackgroundJob). j.id) s.jobs) where
  active_cases :
      (o : Option BackgroundJob)
      → get s.jobs k ≡ o
      → ((j : BackgroundJob) × (active_job t k l s ≡ (ok j, s)) × IsHolder s k l j)
        ⊎ ((e : Failure) × (active_job t k l s ≡ (err e, s)))
  unfolding active_job ◌>>=◌
  active_cases none e = inr (not_found "job not found", ground arith)
  active_cases (some j) e = elim (Bool-cases (j.tenant_id == t)) [
    | inl mine ↦ elim (Bool-cases (is_running j.state && holds j.lease_id l)) [
      | inl running ↦
          let key = get-IsIndex (λ (x : BackgroundJob). x.id) s.jobs k index e in
          inl (
            j,
            ground arith,
            record {
              stored = cc (e, ap (get s.jobs) key);
              key = key;
              phase_held = held_phase j l running;
            },
          )
      | inr idle ↦ inr (conflict "job is not actively claimed", ground arith)
    ]
    | inr other ↦ inr (not_found "job not found", ground arith)
  ]

  complete_job-Change : {i : Uuid} → Change i s (complete_job env t k l s).1.jobs
  unfolding complete_job ◌>>=◌
  complete_job-Change = elim (active_cases (get s.jobs k) refl) [
    | inl (j, active, h) ↦
        one_moved j (completed_job (env.now 0) j) h.stored
          (ground (
            arith,
            active,
            h.key,
            finish_attempt-jobs k (λ a. record a { finished_at = some (env.now 0) })
                (record s { jobs = put s.jobs k (completed_job (env.now 0) j) }),
          ))
          (record {
            same_id = refl;
            same_limit = refl;
            step = rw h.phase_held (finish l j.attempt_count);
          })
    | inr (e, stuck) ↦ none_moved (rw stuck refl)
  ]

  retry_job-Change :
      {i : Uuid} (error : JobError) (at : Instant)
      → Change i s (retry_job env t k l error at s).1.jobs
  unfolding retry_job ◌>>=◌
  retry_job-Change error at = elim (active_cases (get s.jobs k) refl) [
    | inl (j, active, h) ↦
        one_moved j (retried_job (env.now 0) error at j) h.stored
          (ground (
            arith,
            active,
            h.key,
            finish_attempt-jobs k
                (λ a. record a { finished_at = some (env.now 0); error = some error })
                (record s { jobs = put s.jobs k (retried_job (env.now 0) error at j) }),
          ))
          (record { same_id = refl; same_limit = refl; step = rw h.phase_held (retried-Step l j) })
    | inr (e, stuck) ↦ none_moved (rw stuck refl)
  ]

  requeue_cases :
      {i : Uuid} (o : Option BackgroundJob)
      → get s.jobs k ≡ o
      → Change i s (requeue_job env t k l s).1.jobs
  unfolding requeue_job ◌>>=◌
  requeue_cases none e = none_moved (ground arith)
  requeue_cases (some j) e = elim (Bool-cases (j.tenant_id == t && is_failed j.state)) [
    | inl yes' ↦
        let key = get-IsIndex (λ (x : BackgroundJob). x.id) s.jobs k index e in
        one_moved j (requeued_job (env.now 0) j) (cc (e, ap (get s.jobs) key)) (ground (arith, key))
          (record {
            same_id = refl;
            same_limit = refl;
            step = rw (failed_phase j (j.tenant_id == t) yes') start_over;
          })
    | inr no' ↦ none_moved (ground arith)
  ]

pub call-Change :
    (k : Uuid) (c : Call) (s : Store)
    → Spares k c
    → IsIndex (λ (j : BackgroundJob). j.id) s.jobs
    → Change k s (call c s).jobs
unfolding call enqueue_job ◌>>=◌
call-Change i (enqueue j) s spared index = enqueue_new-Change j _ s spared
call-Change i (claim env l x) s spared index = claim_job-Change env l x s index
call-Change i (complete env t k l) s spared index = complete_job-Change env t k l s index
call-Change i (retry env t k l error at) s spared index =
    retry_job-Change env t k l s index error at
call-Change i (requeue env t k actor) s spared index = requeue_cases env t k actor s index _ refl
