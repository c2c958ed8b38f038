-- ===== src/Runtime/Jobs/Tests.antt =====
-- Runs of the job queue, and its theorems at them.
use astra_agent.Base.{◌≡◌, refl, List, [], ◌∷◌}
use astra_agent.Base.Dict.{get}
use astra_agent.Base.Exec.{ok}
use astra_agent.Domain.Models.{BackgroundJob}
use astra_agent.Runtime.State.{init}
use astra_agent.Runtime.Samples.{
  env, env_at, job, late_job, running_job, two_jobs, one_running, job_error,
}
use astra_agent.Runtime.Jobs.{complete_job, retry_job, completed_job, retried_job}
use astra_agent.Runtime.Jobs.Claims.{claimed}
use astra_agent.Runtime.Jobs.Attempts.{AllTracked, IsHeld, finish_held}
use astra_agent.Runtime.Jobs.Lifecycle.Histories.{IsLater, calls-refine}
use astra_agent.Runtime.Jobs.Tracking.{Call, claim, complete, enqueue, calls, calls-AllTracked}

abbrev second_job : BackgroundJob
second_job = claimed (env_at 1500) 21 3000 late_job

one_running-AllTracked : AllTracked one_running
unfolding get
one_running-AllTracked = (
  record { keyed = refl; leased = λ _. (refl, refl); idle = λ h. absurd (cc h); tracked = λ _. tt },
  tt,
)

running_held : IsHeld env 1 10 20 one_running running_job
unfolding get
running_held = record { stored = refl; owner = refl; running = refl; lease = refl }

finish_held_example :
    ((complete_job env 1 10 20 one_running).0 ≡ ok (completed_job 1000 running_job))
    × ((retry_job env 1 10 20 job_error 1200 one_running).0
        ≡ ok (retried_job 1000 job_error 1200 running_job))
finish_held_example =
    finish_held env 1 10 20 one_running running_job job_error 1200 one_running-AllTracked
      running_held

abbrev history : List Call
history = enqueue job ∷ claim env 20 2000 ∷ complete env 1 10 77 ∷ complete env 1 10 20 ∷ []

calls-AllTracked_example : AllTracked (calls history init)
calls-AllTracked_example =
    calls-AllTracked history init
      (record { idle = refl; no_lease = refl; no_expiry = refl }, (tt, (tt, (tt, tt)))) tt

abbrev later_calls : List Call
later_calls = claim env 20 2000 ∷ complete env 1 10 77 ∷ complete env 1 10 20 ∷ []

calls-refine_example : IsLater (calls later_calls two_jobs).jobs 10 job
unfolding get
calls-refine_example =
    calls-refine 10 later_calls two_jobs job (tt, (tt, (tt, tt))) (refl, refl, (refl, refl, tt))
      refl
