-- ===== src/Policy/Planner/Plans.antt =====
-- Which plans `validate_planner_decision` allows.
use Prim.Native.String.{count}
use astra_agent.Base.{
  ◌≡◌, ◌≤◌, ◌↔◌, refl, ap, ◌∙◌, ℕ, String, true, false, ◌||◌, Option, none, some, List, [], ◌∷◌,
  ltb, length, arith, All, str_eq, str_eq_iff,
}
use astra_agent.Base.Text.{strip}
use astra_agent.Domain.Models.{Capability}
use astra_agent.Domain.Capabilities.{same_capability_iff}
use astra_agent.Policy.Capability.{PolicyDecision}
use astra_agent.Policy.Planner.{
  Item, PlannerTask, PlannerDecision, contains, expected, permitted_contract, is_expected,
  validate_all, check_contract, check_tasks, validate_planner_decision,
}

-- No two objectives are the same text when the space around them is left out, and none is one of the
-- texts seen before.
abbrev pub Distinct : List String → List PlannerTask → Type 0
Distinct seen [] = Unit
Distinct seen (task ∷ tasks) =
    (contains (strip task.objective) seen ≡ false) × Distinct (strip task.objective ∷ seen) tasks

expected-alone : (cs : List Capability) → (is_expected cs ≡ true) ↔ (cs ≡ expected ∷ [])
expected-alone [] = ((λ h. cc h), (λ h. cc h))
expected-alone (c ∷ []) = (
  (λ h. ap (λ x. x ∷ []) ((same_capability_iff c expected).0 h)),
  (λ h. (same_capability_iff c expected).1 (cc h)),
)
expected-alone (c ∷ d ∷ cs) = ((λ h. cc h), (λ h. cc h))

module _ (model_validate : Item → Option Capability) where
  -- A bounded read of the repository.
  pub record IsPermitted (task : PlannerTask) : Type 0 where
    pub bounded_objective : count task.objective ≤ 10000
    pub bounded_context : count task.context ≤ 12000
    pub read_only : validate_all model_validate task.required_capabilities ≡ some (expected ∷ [])
    pub contract : task.deliverable_contract ≡ permitted_contract

  contract-IsPermitted :
      (task : PlannerTask) (rest : PolicyDecision) (v : Option (List Capability))
      → count task.objective ≤ 10000
      → count task.context ≤ 12000
      → validate_all model_validate task.required_capabilities ≡ v
      → (check_contract v task rest).allowed ≡ true
      → IsPermitted task × (rest.allowed ≡ true)
  unfolding check_contract
  contract-IsPermitted task rest none o c e h = absurd (ground (arith, h))
  contract-IsPermitted task rest (some cs) o c e h =
      let only : is_expected cs ≡ true = ground (arith, h) in
      let same : str_eq task.deliverable_contract permitted_contract ≡ true = ground (arith, h) in
      (
        record {
          bounded_objective = o;
          bounded_context = c;
          read_only = e ∙ ap some ((expected-alone cs).0 only);
          contract = (str_eq_iff task.deliverable_contract permitted_contract).0 same;
        },
        ground (arith, h),
      )

  IsPermitted-contract :
      (task : PlannerTask) (rest : PolicyDecision)
      → IsPermitted task
      → check_contract (validate_all model_validate task.required_capabilities) task rest ≡ rest
  unfolding check_contract
  IsPermitted-contract task rest p =
      let only : is_expected (expected ∷ []) ≡ true = (expected-alone (expected ∷ [])).1 refl in
      let same = (str_eq_iff task.deliverable_contract permitted_contract).1 p.contract in
      rw (p.read_only, only, same) refl

  check_tasks-allowed :
      (seen : List String) (tasks : List PlannerTask)
      → ((check_tasks model_validate seen tasks).allowed ≡ true)
        ↔ (All IsPermitted tasks × Distinct seen tasks)
  unfolding check_tasks
  check_tasks-allowed seen [] = ((λ h. (tt, tt)), (λ h. refl))
  check_tasks-allowed seen (task ∷ tasks) =
      let later = check_tasks-allowed (strip task.objective ∷ seen) tasks in
      let rest = check_tasks model_validate (strip task.objective ∷ seen) tasks in
      (
        λ h.
            let new : contains (strip task.objective) seen ≡ false = ground (arith, h) in
            let checked : (check_contract (validate_all model_validate task.required_capabilities)
                  task rest).allowed
                ≡ true =
              ground (arith, h) in
            let (permitted, more) =
              contract-IsPermitted task rest _ (ground (arith, h)) (ground (arith, h)) refl
                checked in
            ((permitted, (later.0 more).0), (new, (later.0 more).1)),
        λ p.
            let open_rest = later.1 (p.0.1, p.1.1) in
            let o = p.0.0.bounded_objective in
            let c = p.0.0.bounded_context in
            let small : (ltb 10000 (count task.objective) || ltb 12000 (count task.context))
                ≡ false =
              ground (arith, o, c) in
            rw (small, p.1.0, IsPermitted-contract task rest p.0.0) open_rest,
      )

  allowed :
      (tasks : List PlannerTask) (max_siblings : ℕ)
      → ((validate_planner_decision model_validate (record { tasks = tasks }) max_siblings).allowed
          ≡ true)
        ↔ ((length tasks ≤ max_siblings) × All IsPermitted tasks × Distinct [] tasks)
  unfolding validate_planner_decision
  allowed [] max_siblings = ((λ h. (omega arith, tt, tt)), (λ h. refl))
  allowed (task ∷ tasks) max_siblings =
      let checked = check_tasks-allowed [] (task ∷ tasks) in
      (
        λ h.
            let few : ltb max_siblings (length (task ∷ tasks)) ≡ false = ground (arith, h) in
            let (permitted, distinct) = checked.0 (rw few at h) in
            (ground (arith, few), permitted, distinct),
        λ p.
            let few : ltb max_siblings (length (task ∷ tasks)) ≡ false = ground (arith, p.0) in
            rw few (checked.1 (p.1, p.2)),
      )

  -- A plan is allowed exactly when it has at most `max_siblings` tasks, each of them is a bounded
  -- read of the repository, and no two have the same objective up to the space around it.
  pub validate_planner_decision-allowed :
      (decision : PlannerDecision) (max_siblings : ℕ)
      → ((validate_planner_decision model_validate decision max_siblings).allowed ≡ true) ↔ (
          (length decision.tasks ≤ max_siblings)
          × All IsPermitted decision.tasks
          × Distinct [] decision.tasks)
  validate_planner_decision-allowed decision max_siblings = allowed decision.tasks max_siblings
