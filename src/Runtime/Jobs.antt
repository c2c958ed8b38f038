-- ===== src/Runtime/Jobs.antt =====
-- The background jobs of memory.py: enqueue, claim under a lease, complete, retry, requeue.
mod Claims
mod Attempts
mod Tracking
pub mod Lifecycle
mod Tests
use astra_agent.Base.{
  ℕ, ◌+◌, Bool, true, false, ◌&&◌, ◌||◌, Option, none, some, List, [], ◌∷◌, ◌++◌, ◌==◌, leb, holds,
  at_most, if◌then◌else◌, find, filter, sort, ascending, descending,
}
use astra_agent.Base.Dict.{get, put, values}
use astra_agent.Base.Exec.{
  require_owned, not_found, conflict, lookup_error, pure, gets, modify, require, guard, ◌>>=◌, ◌>>◌,
}
use astra_agent.Domain.Kinds.{BackgroundJobKind, BackgroundJobState, EventType, ActorType}
use astra_agent.Domain.Models.{Uuid, Instant, uuid, BackgroundJob, JobAttempt, JobError}
use astra_agent.Runtime.State.{Store, Env, Method, event, entry, log, owned}

abbrev pub same_kind : BackgroundJobKind → BackgroundJobKind → Bool
same_kind BackgroundJobKind.memory_extraction BackgroundJobKind.memory_extraction = true
same_kind BackgroundJobKind.vector_sync BackgroundJobKind.vector_sync = true
same_kind _ _ = false

abbrev pub is_running : BackgroundJobState → Bool
is_running BackgroundJobState.running = true
is_running _ = false

abbrev pub is_failed : BackgroundJobState → Bool
is_failed BackgroundJobState.failed = true
is_failed _ = false

-- `state in {PENDING, RETRY}`
abbrev pub is_waiting : BackgroundJobState → Bool
is_waiting BackgroundJobState.pending = true
is_waiting BackgroundJobState.retry = true
is_waiting _ = false

abbrev pub put_job : Uuid → BackgroundJob → Method (Unit {0})
put_job job_id job = modify (λ s. record s { jobs = put s.jobs job_id job })

abbrev pub same_source : BackgroundJob → BackgroundJob → Bool
same_source job item =
    item.tenant_id == job.tenant_id
    && same_kind item.kind job.kind
    && item.source_id == job.source_id

unfoldable pub enqueue_new : BackgroundJob → Option BackgroundJob → Method BackgroundJob
enqueue_new job (some existing) = pure existing
enqueue_new job none = do put_job job.id job; pure job

unfoldable pub enqueue_job : BackgroundJob → Method BackgroundJob
enqueue_job job = do
  existing ← gets (λ s. find (same_source job) (values s.jobs))
  enqueue_new job existing

abbrev pub claimable : Instant → BackgroundJob → Bool
claimable now job =
    is_waiting job.state && leb job.available_at now
    || is_running job.state && at_most job.lease_expires_at now

-- `self._job_attempts.setdefault(job.id, []).append(attempt)`
abbrev pub append_attempt : Uuid → JobAttempt → Method (Unit {0})
append_attempt job_id attempt = modify λ s.
    let old : List JobAttempt = elim (get s.job_attempts job_id) [ none ↦ [] | some l ↦ l ] in
    record s { job_attempts = put s.job_attempts job_id (old ++ attempt ∷ []) }

unfoldable pub claim_found :
    Env → Uuid → Instant → Option BackgroundJob → Method (Option BackgroundJob)
claim_found env lease_id lease_expires_at none = pure none
claim_found env lease_id lease_expires_at (some job) = do
  let claimed = record job {
    state = BackgroundJobState.running;
    attempt_count = job.attempt_count + 1;
    lease_id = some lease_id;
    lease_expires_at = some lease_expires_at;
    updated_at = env.now 0;
  }
  put_job job.id claimed
  append_attempt job.id (record {
    id = env.fresh 0;
    tenant_id = job.tenant_id;
    job_id = job.id;
    attempt = claimed.attempt_count;
    started_at = env.created 0;
    finished_at = none;
    error = none;
  })
  pure (some claimed)

unfoldable pub claim_job : Env → Uuid → Instant → Method (Option BackgroundJob)
claim_job env lease_id lease_expires_at = do
  job ←
      gets
        (λ s. find (claimable (env.now 0)) (sort (ascending (λ j. j.created_at)) (values s.jobs)))
  claim_found env lease_id lease_expires_at job

unfoldable pub active_job : Uuid → Uuid → Uuid → Method BackgroundJob
active_job tenant_id job_id lease_id = do
  found ← gets (λ s. get s.jobs job_id)
  job ← require_owned (λ j. j.tenant_id) found tenant_id (not_found "job not found")
  guard (is_running job.state && holds job.lease_id lease_id)
      (conflict "job is not actively claimed")
  pure job

-- `items[-1] = change(items[-1])`, which an empty list refuses
unfoldable pub update_last : (JobAttempt → JobAttempt) → List JobAttempt → Option (List JobAttempt)
update_last change [] = none
update_last change (x ∷ []) = some (change x ∷ [])
update_last change (x ∷ y ∷ ys) = elim (update_last change (y ∷ ys)) [
  | none ↦ none
  | some zs ↦ some (x ∷ zs)
]

unfoldable pub finish_attempt : Uuid → (JobAttempt → JobAttempt) → Method (Unit {0})
finish_attempt job_id change = do
  found ← gets (λ s. get s.job_attempts job_id)
  attempts ← require found lookup_error
  changed ← require (update_last change attempts) lookup_error
  modify (λ s. record s { job_attempts = put s.job_attempts job_id changed })

abbrev pub completed_job : Instant → BackgroundJob → BackgroundJob
completed_job now job = record job {
  state = BackgroundJobState.completed;
  lease_id = none;
  lease_expires_at = none;
  completed_at = some now;
  updated_at = now;
}

unfoldable pub complete_job : Env → Uuid → Uuid → Uuid → Method BackgroundJob
complete_job env tenant_id job_id lease_id = do
  job ← active_job tenant_id job_id lease_id
  let now = env.now 0
  let completed = completed_job now job
  put_job job_id completed
  finish_attempt job_id (λ a. record a { finished_at = some now })
  pure completed

abbrev pub retry_state : BackgroundJob → BackgroundJobState
retry_state job =
    if leb job.max_attempts job.attempt_count
    then BackgroundJobState.failed
    else BackgroundJobState.retry

abbrev pub retried_job : Instant → JobError → Instant → BackgroundJob → BackgroundJob
retried_job now error available_at job = record job {
  state = retry_state job;
  lease_id = none;
  lease_expires_at = none;
  last_error = some error;
  available_at = available_at;
  completed_at = if is_failed (retry_state job) then some now else none;
  updated_at = now;
}

unfoldable pub retry_job : Env → Uuid → Uuid → Uuid → JobError → Instant → Method BackgroundJob
retry_job env tenant_id job_id lease_id error available_at = do
  job ← active_job tenant_id job_id lease_id
  let now = env.now 0
  let retried = retried_job now error available_at job
  put_job job_id retried
  finish_attempt job_id (λ a. record a { finished_at = some now; error = some error })
  pure retried

unfoldable pub list_jobs : Uuid → Method (List BackgroundJob)
list_jobs tenant_id = gets λ s.
    filter (λ j. j.tenant_id == tenant_id) (sort (descending (λ j. j.created_at)) (values s.jobs))

unfoldable pub list_job_attempts : Uuid → Uuid → Method (List JobAttempt)
list_job_attempts tenant_id job_id = gets λ s.
    elim (owned (λ (j : BackgroundJob). j.tenant_id) (get s.jobs job_id) tenant_id) [
      | none ↦ []
      | some job ↦ elim (get s.job_attempts job_id) [ none ↦ [] | some l ↦ l ]
    ]

abbrev pub requeued_job : Instant → BackgroundJob → BackgroundJob
requeued_job now job = record job {
  state = BackgroundJobState.pending;
  attempt_count = 0;
  available_at = now;
  lease_id = none;
  lease_expires_at = none;
  last_error = none;
  completed_at = none;
  updated_at = now;
}

unfoldable pub requeue_job : Env → Uuid → Uuid → Uuid → Method BackgroundJob
requeue_job env tenant_id job_id actor_id = do
  found ← gets (λ s. get s.jobs job_id)
  job ← require_owned (λ j. j.tenant_id) found tenant_id (not_found "job not found")
  guard (is_failed job.state) (conflict "only failed jobs can be requeued")
  let requeued = requeued_job (env.now 0) job
  put_job job_id requeued
  log (
      event env 0 tenant_id EventType.job_requeued ActorType.user (some actor_id) none
        (entry "job_id" (uuid job_id)))
  pure requeued
