-- ===== src/Runtime/Delegation/Targets.antt =====
-- Which agents `create_delegated_tasks` sends the tasks of a plan to.
use mathlib.Core.List.{Memᴰ}
use astra_agent.Base.{
  ℕ, ◌+◌, ◌≡◌, Bool, refl, true, false, not, some, List, [], ◌∷◌, arith, All, All-mem, All-of_mem,
  All-filter, find-test, find-mem, filter, filter-All, filter-test, filter-find, sort, sort-All,
  IsOrder, find-sort_least,
}
use astra_agent.Base.Dict.{values}
use astra_agent.Base.Exec.{ok, err, Result, ◌>>=◌}
use astra_agent.Domain.Models.{Uuid, RemoteAgent, Task}
use astra_agent.Runtime.State.{Store, Env}
use astra_agent.Runtime.Delegation.{assign, eligible_aras, is_eligible, is_selected, before}

before-IsOrder : IsOrder before
before-IsOrder = record {
  total = λ a b h. ground arith;
  trans = λ a b c h k. ground arith;
  self = λ a. ground arith;
}

module _ (env : Env) (t : Uuid) (s : Store) where
  abbrev fits : ℕ → Task → RemoteAgent → Bool
  fits n task agent = is_eligible (env.now (n + 2)) t (values s.leases) task agent

  -- The n-th task goes to the first agent, by trust and then by id, that fits it and was chosen for
  -- no earlier task.
  pub record IsTarget (n : ℕ) (chosen : List Uuid) (task : Task) (agent : RemoteAgent)
      : Type 0 where
    pub known : Memᴰ agent (values s.remote_agents)
    pub fit : is_eligible (env.now (n + 2)) t (values s.leases) task agent ≡ true
    pub fresh : is_selected agent.id chosen ≡ false
    pub best :
        All
          (λ u.
            is_eligible (env.now (n + 2)) t (values s.leases) task u ≡ true
            → not (is_selected u.id chosen) ≡ true
            → before agent u ≡ true)
          (values s.remote_agents)

  -- The tasks `assigned` are the tasks of the plan, each with its target.
  abbrev pub Assigned : ℕ → List Uuid → List Task → List Task → Type 0
  Assigned n chosen [] [] = Unit
  Assigned n chosen (task ∷ tasks) (given ∷ assigned) =
      (agent : RemoteAgent) × IsTarget n chosen task agent
      × (given ≡ record task { target_ara_id = some agent.id })
      × Assigned (n + 1) (agent.id ∷ chosen) tasks assigned
  Assigned n chosen _ _ = ⊥

  abbrev open_agents : ℕ → List Uuid → Task → List RemoteAgent
  open_agents n chosen task =
      filter (λ a. not (is_selected a.id chosen)) (eligible_aras (env.now (n + 2)) t task s)

  first_fits :
      (n : ℕ) (chosen : List Uuid) (task : Task) (agent : RemoteAgent) (others : List RemoteAgent)
      → open_agents n chosen task ≡ agent ∷ others
      → IsTarget n chosen task agent
  unfolding eligible_aras
  first_fits n chosen task agent others h =
      let p = fits n task in
      let free : RemoteAgent → Bool = λ a. not (is_selected a.id chosen) in
      let all = filter p (values s.remote_agents) in
      let e = filter-find free (sort before all) h in
      let member = find-mem free (sort before all) e in
      let open_agent : not (is_selected agent.id chosen) ≡ true =
        find-test free (sort before all) e in
      record {
        known =
            All-mem (λ j. Memᴰ j (values s.remote_agents)) (sort before all)
              (sort-All _ _ all (
                filter-All p _ (values s.remote_agents)
                  (All-of_mem _ (values s.remote_agents) (λ j m. m))))
              member;
        fit =
            All-mem (λ j. p j ≡ true) (sort before all)
              (sort-All _ _ all (filter-test p (values s.remote_agents))) member;
        fresh = ground (arith, open_agent);
        best =
            All-filter p (λ u. free u ≡ true → before agent u ≡ true) (values s.remote_agents)
              (find-sort_least before before-IsOrder free all e);
      }

  step_keeps :
      (n : ℕ) (chosen : List Uuid) (task : Task) (tasks : List Task) (l : List RemoteAgent)
      → open_agents n chosen task ≡ l
      → ((more : List Uuid) → (assign env t (n + 1) more tasks s).1 ≡ s)
      → (assign env t n chosen (task ∷ tasks) s).1 ≡ s
  unfolding assign ◌>>=◌
  step_keeps n chosen task tasks [] e keep = ground (arith, e)
  step_keeps n chosen task tasks (agent ∷ others) e keep =
      ground (arith, e, keep (agent.id ∷ chosen))

  -- The choice of targets only reads.
  pub assign_keeps :
      (n : ℕ) (chosen : List Uuid) (tasks : List Task) → (assign env t n chosen tasks s).1 ≡ s
  unfolding assign ◌>>=◌
  assign_keeps n chosen [] = refl
  assign_keeps n chosen (task ∷ tasks) =
      step_keeps n chosen task tasks (open_agents n chosen task) refl
        (λ more. assign_keeps (n + 1) more tasks)

  assign_cons :
      (n : ℕ) (chosen : List Uuid) (task : Task) (tasks assigned : List Task) (l : List RemoteAgent)
      → open_agents n chosen task ≡ l
      → (assign env t n chosen (task ∷ tasks) s).0 ≡ ok assigned
      → (agent : RemoteAgent) × (others : List RemoteAgent) × (rest : List Task) × (open_agents n
            chosen task
          ≡ agent ∷ others)
        × ((assign env t (n + 1) (agent.id ∷ chosen) tasks s).0 ≡ ok rest)
        × (assigned ≡ record task { target_ara_id = some agent.id } ∷ rest)
  unfolding assign ◌>>=◌
  assign_cons n chosen task tasks assigned [] e h = ground (arith, e, h)
  assign_cons n chosen task tasks assigned (agent ∷ others) e h =
      inspect (assign env t (n + 1) (agent.id ∷ chosen) tasks s).0 refl
    where
      inspect :
          (r : Result (List Task))
          → (assign env t (n + 1) (agent.id ∷ chosen) tasks s).0 ≡ r
          → (agent : RemoteAgent) × (others : List RemoteAgent) × (rest : List Task) × (open_agents
                n chosen task
              ≡ agent ∷ others)
            × ((assign env t (n + 1) (agent.id ∷ chosen) tasks s).0 ≡ ok rest)
            × (assigned ≡ record task { target_ara_id = some agent.id } ∷ rest)
      inspect (ok rest) q = (agent, others, rest, e, q, ground (arith, e, h, q))
      inspect (err f) q = ground (arith, e, h, q)

  pub assign-Assigned :
      (n : ℕ) (chosen : List Uuid) (tasks assigned : List Task)
      → (assign env t n chosen tasks s).0 ≡ ok assigned
      → Assigned n chosen tasks assigned
  unfolding assign ◌>>=◌
  assign-Assigned n chosen [] [] h = tt
  assign-Assigned n chosen [] (x ∷ xs) h = ground (arith, h)
  assign-Assigned n chosen (task ∷ tasks) assigned h =
      let (agent, others, rest, e, q, same) =
        assign_cons n chosen task tasks assigned (open_agents n chosen task) refl h in
      rw same (
        agent,
        first_fits n chosen task agent others e,
        refl,
        assign-Assigned (n + 1) (agent.id ∷ chosen) tasks rest q,
      )
