-- ===== src/Policy/Planner.antt =====
-- validate_planner_decision of packages/policy/src/astra_policy/engine.py, with the plan of
-- packages/model-providers/src/astra_model_providers/interfaces.py. pydantic's
-- `Capability.model_validate` is a parameter: it answers with a capability or refuses.
pub mod Plans
mod Tests
use Prim.Native.String.{count}
use astra_agent.Base.{
  ℕ, String, Bool, true, false, ◌&&◌, ◌||◌, not, Option, none, some, List, [], ◌∷◌, ◌==◌, leb, ltb,
  str_eq, length, any, if◌then◌else◌,
}
use astra_agent.Base.Text.{strip}
use astra_agent.Domain.Kinds.{CapabilityKind}
use astra_agent.Domain.Models.{Capability}
use astra_agent.Domain.Capabilities.{same_capability}
use astra_agent.Policy.Capability.{PolicyDecision}

-- A `dict[str, str]`, as its items.
abbrev pub Item : Type 0
Item = List (String × String)

pub record PlannerTask : Type 0 where
  pub objective : String
  pub context : String
  pub required_capabilities : List Item
  pub deliverable_contract : String

pub record PlannerDecision : Type 0 where
  pub tasks : List PlannerTask

-- `text in texts`, for a set of texts
unfoldable pub contains : String → List String → Bool
contains text texts = any (λ other. str_eq other text) texts

abbrev pub expected : Capability
expected = record { kind = CapabilityKind.file_read; scope = "repository" }

abbrev pub permitted_contract : String
permitted_contract = "Return bounded repository findings with file and line evidence."

abbrev pub is_expected : List Capability → Bool
is_expected (capability ∷ []) = same_capability capability expected
is_expected _ = false

abbrev pub refusal : String → PolicyDecision
refusal reason = record { allowed = false; requires_approval = false; reason = reason }

abbrev pub approval : String → PolicyDecision
approval reason = record { allowed = true; requires_approval = false; reason = reason }

-- The tests on the capabilities of one task, if they are valid, and on its contract.
unfoldable pub check_contract :
    Option (List Capability) → PlannerTask → PolicyDecision → PolicyDecision
check_contract none task rest = refusal "planner requested an invalid capability"
check_contract (some capabilities) task rest =
    if not (is_expected capabilities)
    then refusal "planner requested a non-read-only capability"
    else if not (str_eq task.deliverable_contract permitted_contract)
    then refusal "planner deliverable contract is not permitted"
    else rest

module _ (model_validate : Item → Option Capability) where
  -- `tuple(Capability.model_validate(item) for item in items)`, `none` where it raises
  unfoldable pub validate_all : List Item → Option (List Capability)
  validate_all [] = some []
  validate_all (item ∷ items) = elim (model_validate item) [
    | none ↦ none
    | some capability ↦ elim (validate_all items) [
      | none ↦ none
      | some rest ↦ some (capability ∷ rest)
    ]
  ]

  -- The loop over the tasks, with the objectives seen so far.
  unfoldable pub check_tasks : List String → List PlannerTask → PolicyDecision
  check_tasks objectives [] = approval "bounded read-only repository inspection"
  check_tasks objectives (task ∷ tasks) =
      let rest = check_tasks (strip task.objective ∷ objectives) tasks in
      if ltb 10000 (count task.objective) || ltb 12000 (count task.context)
      then refusal "planner task exceeds bounded input"
      else if contains (strip task.objective) objectives
      then refusal "planner contains duplicate sibling objectives"
      else check_contract (validate_all task.required_capabilities) task rest

  unfoldable pub validate_planner_decision : PlannerDecision → ℕ → PolicyDecision
  validate_planner_decision decision max_siblings = elim decision.tasks [
    | [] ↦ approval "no delegation requested"
    | task ∷ tasks ↦
        if ltb max_siblings (length (task ∷ tasks))
        then refusal "planner exceeded sibling limit"
        else check_tasks [] (task ∷ tasks)
  ]
