-- ===== src/Runtime/Jobs/Lifecycle/Histories.antt =====
-- Histories of calls of the queue, against the life of a job.
use astra_agent.Base.{
  ℕ, ◌≡◌, inl, inr, ap, refl, Bool-cases, some, List, [], ◌∷◌, arith, All, ◌==◌, ==→eq, subst,
}
use astra_agent.Base.Dict.{get, get-put, IsIndex, put-IsIndex}
use astra_agent.Domain.Models.{Uuid, BackgroundJob}
use astra_agent.Runtime.State.{Store}
use astra_agent.Runtime.Jobs.Tracking.{Call, call, calls}
use astra_agent.Runtime.Jobs.Lifecycle.{
  Steps, stay, after, join_steps, phase, Change, none_moved, one_moved, one_added, Spares,
}
use astra_agent.Runtime.Jobs.Lifecycle.Changes.{call-Change}

Change-IsIndex :
    {k : Uuid} {s : Store} {jobs : List (ℕ × BackgroundJob)}
    → IsIndex (λ (j : BackgroundJob). j.id) s.jobs
    → Change k s jobs
    → IsIndex (λ (j : BackgroundJob). j.id) jobs
Change-IsIndex index (none_moved e) = rw e index
Change-IsIndex {s} index (one_moved j j' stored e n) =
    rw e (put-IsIndex (λ (x : BackgroundJob). x.id) s.jobs j.id j' n.same_id index)
Change-IsIndex {s} index (one_added j other e) =
    rw e (put-IsIndex (λ (x : BackgroundJob). x.id) s.jobs j.id j refl index)

-- The later record of a job, some steps further.
pub record IsLater (d : List (ℕ × BackgroundJob)) (k : Uuid) (j : BackgroundJob) : Type 0 where
  pub later : BackgroundJob
  pub stored : get d k ≡ some later
  pub same_limit : later.max_attempts ≡ j.max_attempts
  pub steps : Steps j.max_attempts (phase j) (phase later)

move :
    {k : Uuid} {s : Store} {jobs : List (ℕ × BackgroundJob)} (j : BackgroundJob)
    → get s.jobs k ≡ some j
    → Change k s jobs
    → IsLater jobs k j
move j e (none_moved same) = record {
  later = j;
  stored = rw same e;
  same_limit = refl;
  steps = stay (phase j);
}
move {k} {s} j e (one_moved a a' stored same n) = elim (Bool-cases (a.id == k)) [
  | inl hit ↦
      let one : a ≡ j = cc (e, stored, ap (get s.jobs) (==→eq a.id k hit)) in
      let limit : a.max_attempts ≡ j.max_attempts = ap (λ x. x.max_attempts) one in
      record {
        later = a';
        stored = rw same (ground (arith, get-put s.jobs a.id k a', hit));
        same_limit = cc (n.same_limit, limit);
        steps =
            subst (λ (x : BackgroundJob). Steps x.max_attempts (phase x) (phase a')) one
              (after (phase a) (phase a') (phase a') n.step (stay (phase a')));
      }
  | inr miss ↦ record {
    later = j;
    stored = rw same (ground (arith, get-put s.jobs a.id k a', miss, e));
    same_limit = refl;
    steps = stay (phase j);
  }
]
move {k} {s} j e (one_added a other same) = record {
  later = j;
  stored = rw same (ground (arith, get-put s.jobs a.id k a, other, e));
  same_limit = refl;
  steps = stay (phase j);
}

-- Over any history of calls of the queue's methods, returning or raising, a stored job stays stored
-- and goes only along the steps of its life, with the limit of attempts that it had, where the store
-- keeps its jobs under their own ids and the history enqueues no job under this one's id.
pub calls-refine :
    (k : Uuid) (cs : List Call) (s : Store) (j : BackgroundJob)
    → All (Spares k) cs
    → IsIndex (λ (x : BackgroundJob). x.id) s.jobs
    → get s.jobs k ≡ some j
    → IsLater (calls cs s).jobs k j
unfolding calls
calls-refine k [] s j spared index e = record {
  later = j;
  stored = e;
  same_limit = refl;
  steps = stay (phase j);
}
calls-refine k (c ∷ cs) s j spared index e =
    let change = call-Change k c s spared.0 index in
    let m = move j e change in
    let rest =
      calls-refine k cs (call c s) m.later spared.1 (Change-IsIndex index change) m.stored in
    record {
      later = rest.later;
      stored = rest.stored;
      same_limit = cc (rest.same_limit, m.same_limit);
      steps =
          join_steps m.steps
            (subst (λ n. Steps n (phase m.later) (phase rest.later)) m.same_limit rest.steps);
    }
