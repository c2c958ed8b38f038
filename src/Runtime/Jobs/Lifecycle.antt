-- ===== src/Runtime/Jobs/Lifecycle.antt =====
-- The life of one background job, as an abstract machine, and what a call of the queue of memory.py
-- may do to the jobs.
mod Changes
pub mod Histories
use mathlib.Core.List.{Memᴰ}
use astra_agent.Base.{
  ℕ, suc, ◌+◌, ◌≤◌, ◌<◌, ◌≡◌, ◌≢◌, ◌⊎◌, inl, inr, ap, refl, sym, true, false, Bool, Bool-cases,
  Option, none, some, List, [], ◌∷◌, arith, All, ◌==◌, ==→eq, subst, ◌&&◌, leb, find, find-mem,
  find-test, sort, ascending, sort-All, All-mem, All-of_mem, leb→le, holds,
}
use astra_agent.Base.Dict.{
  get, put, values, get-put, get-put_self, IsIndex, put-IsIndex, mem-get, get-IsIndex,
}
use astra_agent.Base.Exec.{Failure, ok, err, not_found, conflict, ◌>>=◌}
use astra_agent.Domain.Models.{Uuid, Instant, BackgroundJob, JobAttempt, JobError}
use astra_agent.Domain.Kinds.{BackgroundJobState}
use astra_agent.Runtime.State.{Store, Env, Method}
use astra_agent.Runtime.Jobs.{
  enqueue_job, enqueue_new, claim_job, claim_found, complete_job, retry_job, requeue_job, claimable,
  active_job, finish_attempt, completed_job, retried_job, requeued_job, retry_state, is_running,
  is_failed, same_source,
}
use astra_agent.Runtime.Jobs.Claims.{claimed}
use astra_agent.Runtime.Jobs.Tracking.{Call, enqueue, claim, complete, retry, requeue, call, calls}

-- What matters of a job: whether it waits, after how many attempts, who holds it, or how it ended.
pub data Phase : Type 0 where
  waiting : ℕ → Phase
  held : Option Uuid → ℕ → Phase
  done given_up : Phase

-- The steps of a job that may be attempted `max_attempts` times before it is given up. A job may be
-- taken from a holder too, whose lease has run out.
pub data Step (max_attempts : ℕ) : Phase → Phase → Type 0 where
  take_up : (l : Uuid) (n : ℕ) → Step max_attempts (waiting n) (held (some l) (n + 1))
  take_over :
      (l : Uuid) (old : Option Uuid) (n : ℕ)
      → Step max_attempts (held old n) (held (some l) (n + 1))
  finish : (l : Uuid) (n : ℕ) → Step max_attempts (held (some l) n) done
  hand_back :
      (l : Uuid) (n : ℕ) → n < max_attempts → Step max_attempts (held (some l) n) (waiting n)
  give_up : (l : Uuid) (n : ℕ) → max_attempts ≤ n → Step max_attempts (held (some l) n) given_up
  start_over : Step max_attempts given_up (waiting 0)

pub data Steps (max_attempts : ℕ) : Phase → Phase → Type 0 where
  stay : (p : Phase) → Steps max_attempts p p
  after : (p q r : Phase) → Step max_attempts p q → Steps max_attempts q r → Steps max_attempts p r

abbrev pub phase_at : BackgroundJobState → Option Uuid → ℕ → Phase
phase_at BackgroundJobState.pending l n = waiting n
phase_at BackgroundJobState.retry l n = waiting n
phase_at BackgroundJobState.running l n = held l n
phase_at BackgroundJobState.completed l n = done
phase_at BackgroundJobState.failed l n = given_up

abbrev pub phase : BackgroundJob → Phase
phase j = phase_at j.state j.lease_id j.attempt_count

-- The later record of a job, one step further.
pub record IsNext (j j' : BackgroundJob) : Type 0 where
  pub same_id : j'.id ≡ j.id
  pub same_limit : j'.max_attempts ≡ j.max_attempts
  pub step : Step j.max_attempts (phase j) (phase j')

-- What a call may do to the jobs: nothing, a step of one stored job, an entry under an id other than
-- `k`.
pub data Change (k : Uuid) (s : Store) (jobs : List (ℕ × BackgroundJob)) : Type 0 where
  none_moved : jobs ≡ s.jobs → Change k s jobs
  one_moved :
      (j j' : BackgroundJob)
      → get s.jobs j.id ≡ some j
      → jobs ≡ put s.jobs j.id j'
      → IsNext j j'
      → Change k s jobs
  one_added : (j : BackgroundJob) → j.id ≢ k → jobs ≡ put s.jobs j.id j → Change k s jobs

pub join_steps : {m : ℕ} {p q r : Phase} → Steps m p q → Steps m q r → Steps m p r
join_steps (stay p) more = more
join_steps {r} (after p q' q step steps) more = after p q' r step (join_steps steps more)

-- The calls enqueue no job under this id.
abbrev pub Spares : Uuid → Call → Type 0
Spares k (enqueue j) = j.id ≢ k
Spares k _ = Unit
