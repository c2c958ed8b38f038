-- ===== src/Runtime/Jobs/Tracking.antt =====
-- The lease columns and the attempts of the jobs, against their states, over the queue's methods.
use astra_agent.Base.{
  All, ◌==◌, ◌&&◌, ◌≡◌, ◌⊎◌, refl, inl, inr, false, Option, none, some, List, [], ◌∷◌, arith, holds,
  Bool-cases,
}
use astra_agent.Base.Dict.{Dict, get, put, get-put_self, Each-get, Each-put, Each-imp}
use astra_agent.Base.Exec.{Failure, err, conflict, not_found, ◌>>=◌}
use astra_agent.Domain.Models.{Uuid, Instant, BackgroundJob, JobAttempt, JobError}
use astra_agent.Runtime.State.{Store, Env}
use astra_agent.Runtime.Jobs.{
  claim_job, complete_job, retry_job, requeue_job, enqueue_job, is_running, is_failed, requeued_job,
  active_job, retry_state, claim_found, enqueue_new,
}
use astra_agent.Runtime.Jobs.Attempts.{
  HasAttempt, IsTracked, AllTracked, IsHeld, finished_store, append_one, keep-IsTracked, put_keeps,
  complete_held, retry_held,
}

store_tracked :
    (s : Store) (k : Uuid) (j : BackgroundJob) (items : List JobAttempt)
    → HasAttempt (some items)
    → AllTracked s
    → IsTracked (put s.job_attempts k items) k j
    → AllTracked (finished_store s k j items)
store_tracked s k j items has all tracked =
    Each-put (IsTracked (put s.job_attempts k items)) s.jobs k j tracked (
      Each-imp (IsTracked s.job_attempts) _
        (λ i v. keep-IsTracked s.job_attempts _ i v (put_keeps s.job_attempts k items has)) s.jobs
        all)

claim_found-AllTracked :
    (env : Env) (l : Uuid) (x : Instant) (o : Option BackgroundJob) (s : Store)
    → AllTracked s
    → AllTracked (claim_found env l x o s).1
unfolding claim_found ◌>>=◌
claim_found-AllTracked env l x none s h = h
claim_found-AllTracked env l x (some job) s h =
    store_tracked s job.id _ _ (append_one _ _) h (record {
      keyed = refl;
      leased = λ _. (refl, refl);
      idle = λ r. cc;
      tracked = λ _. rw get-put_self (append_one _ _);
    })

active_cases :
    (env : Env) (t k l : Uuid) (s : Store) (o : Option BackgroundJob)
    → get s.jobs k ≡ o
    → ((j : BackgroundJob) × IsHeld env t k l s j)
      ⊎ ((e : Failure) × (active_job t k l s ≡ (err e, s)))
unfolding active_job ◌>>=◌
active_cases env t k l s none e = inr (not_found "job not found", ground arith)
active_cases env t k l s (some j) e = elim (Bool-cases (j.tenant_id == t)) [
  | inl mine ↦ elim (Bool-cases (is_running j.state && holds j.lease_id l)) [
    | inl held ↦ inl (j, ground arith)
    | inr idle ↦ inr (conflict "job is not actively claimed", ground arith)
  ]
  | inr other ↦ inr (not_found "job not found", ground arith)
]

-- A job that no lease covers is tracked, whatever the attempts.
idle-IsTracked :
    (attempts : Dict (List JobAttempt)) (k : Uuid) (j : BackgroundJob)
    → j.id ≡ k
    → is_running j.state ≡ false
    → j.lease_id ≡ none
    → j.lease_expires_at ≡ none
    → IsTracked attempts k j
idle-IsTracked attempts k j e r l x = record {
  keyed = e;
  leased = λ h. cc (h, r);
  idle = λ h. (l, x);
  tracked = λ h. absurd (cc (h, r));
}

not_running : (j : BackgroundJob) → is_running (retry_state j) ≡ false
not_running j = ground arith

module _ (env : Env) (t k l : Uuid) (s : Store) (all : AllTracked s) where
  -- Completing a job keeps every job tracked.
  complete_job-AllTracked : AllTracked (complete_job env t k l s).1
  unfolding complete_job ◌>>=◌
  complete_job-AllTracked = elim (active_cases env t k l s (get s.jobs k) refl) [
    | inl (j, held) ↦
        let tr = Each-get (IsTracked s.job_attempts) s.jobs k all held.stored in
        let (b, bs, done) = complete_held env t k l s j held (tr.tracked held.running) in
        rw done (store_tracked s k _ (b ∷ bs) tt all (idle-IsTracked _ k _ tr.keyed refl refl refl))
    | inr (e, stuck) ↦ rw stuck all
  ]

  retry_job-AllTracked :
      (error : JobError) (at : Instant) → AllTracked (retry_job env t k l error at s).1
  unfolding retry_job ◌>>=◌
  retry_job-AllTracked error at = elim (active_cases env t k l s (get s.jobs k) refl) [
    | inl (j, held) ↦
        let tr = Each-get (IsTracked s.job_attempts) s.jobs k all held.stored in
        let (b, bs, done) = retry_held env t k l s j held (tr.tracked held.running) error at in
        rw done (
          store_tracked s k _ (b ∷ bs) tt all
            (idle-IsTracked _ k _ tr.keyed (not_running j) refl refl))
    | inr (e, stuck) ↦ rw stuck all
  ]

  requeue_cases :
      (actor : Uuid) (o : Option BackgroundJob)
      → get s.jobs k ≡ o
      → ((j : BackgroundJob) × (o ≡ some j)
          × ((requeue_job env t k actor s).1 ≡ record s {
            jobs = put s.jobs k (requeued_job (env.now 0) j);
            events = (requeue_job env t k actor s).1.events;
          }))
        ⊎ ((requeue_job env t k actor s).1 ≡ s)
  unfolding requeue_job ◌>>=◌
  requeue_cases actor none e = inr (ground arith)
  requeue_cases actor (some j) e = elim (Bool-cases (j.tenant_id == t && is_failed j.state)) [
    | inl yes' ↦ inl (j, refl, ground arith)
    | inr no' ↦ inr (ground arith)
  ]

  requeue_job-AllTracked : (actor : Uuid) → AllTracked (requeue_job env t k actor s).1
  requeue_job-AllTracked actor = elim (requeue_cases actor (get s.jobs k) refl) [
    | inl (j, stored, after) ↦
        let tr = Each-get (IsTracked s.job_attempts) s.jobs k all stored in
        rw after (
          Each-put (IsTracked s.job_attempts) s.jobs k _
            (idle-IsTracked s.job_attempts k (requeued_job (env.now 0) j) tr.keyed refl refl refl)
            all)
    | inr same ↦ rw same all
  ]

claim_job-AllTracked :
    (env : Env) (l : Uuid) (x : Instant) (s : Store)
    → AllTracked s
    → AllTracked (claim_job env l x s).1
unfolding claim_job ◌>>=◌
claim_job-AllTracked env l x s h = claim_found-AllTracked env l x _ s h

-- A job as `BackgroundJob(…)` makes it: no state but PENDING or RETRY has been given to it, and no
-- lease.
pub record IsFresh (j : BackgroundJob) : Type 0 where
  pub idle : is_running j.state ≡ false
  pub no_lease : j.lease_id ≡ none
  pub no_expiry : j.lease_expires_at ≡ none

enqueue_new-AllTracked :
    (j : BackgroundJob) (o : Option BackgroundJob) (s : Store)
    → IsFresh j
    → AllTracked s
    → AllTracked (enqueue_new j o s).1
unfolding enqueue_new ◌>>=◌
enqueue_new-AllTracked j (some old) s f h = h
enqueue_new-AllTracked j none s f h =
    Each-put (IsTracked s.job_attempts) s.jobs j.id j
      (idle-IsTracked _ j.id j refl f.idle f.no_lease f.no_expiry) h

enqueue_job-AllTracked :
    (j : BackgroundJob) (s : Store) → IsFresh j → AllTracked s → AllTracked (enqueue_job j s).1
unfolding enqueue_job ◌>>=◌
enqueue_job-AllTracked j s f h = enqueue_new-AllTracked j _ s f h

-- A call of a method of the queue.
pub data Call : Type 0 where
  enqueue : BackgroundJob → Call
  claim : Env → Uuid → Instant → Call
  complete : Env → Uuid → Uuid → Uuid → Call
  retry : Env → Uuid → Uuid → Uuid → JobError → Instant → Call
  requeue : Env → Uuid → Uuid → Uuid → Call

unfoldable pub call : Call → Store → Store
call (enqueue j) s = (enqueue_job j s).1
call (claim env l x) s = (claim_job env l x s).1
call (complete env t k l) s = (complete_job env t k l s).1
call (retry env t k l error at) s = (retry_job env t k l error at s).1
call (requeue env t k actor) s = (requeue_job env t k actor s).1

unfoldable pub calls : List Call → Store → Store
unfolding call
calls [] s = s
calls (c ∷ cs) s = calls cs (call c s)

-- The jobs that a history enqueues are fresh.
abbrev pub EnqueuesFresh : Call → Type 0
EnqueuesFresh (enqueue j) = IsFresh j
EnqueuesFresh _ = Unit

call-AllTracked : (c : Call) (s : Store) → EnqueuesFresh c → AllTracked s → AllTracked (call c s)
unfolding call
call-AllTracked (enqueue j) s f h = enqueue_job-AllTracked j s f h
call-AllTracked (claim env l x) s f h = claim_job-AllTracked env l x s h
call-AllTracked (complete env t k l) s f h = complete_job-AllTracked env t k l s h
call-AllTracked (retry env t k l error at) s f h = retry_job-AllTracked env t k l s h error at
call-AllTracked (requeue env t k actor) s f h = requeue_job-AllTracked env t k t s h actor

-- Over any history of calls of the queue's methods, failing or not, that enqueues fresh jobs, the
-- jobs stay tracked: each is stored under its id, a running job has a lease id, an expiry and an
-- attempt on record, and a job that does not run has neither lease id nor expiry.
pub calls-AllTracked :
    (cs : List Call) (s : Store) → All EnqueuesFresh cs → AllTracked s → AllTracked (calls cs s)
unfolding calls
calls-AllTracked [] s f h = h
calls-AllTracked (c ∷ cs) s f h = calls-AllTracked cs (call c s) f.1 (call-AllTracked c s f.0 h)
