-- ===== src/Policy/Planner/Tests.antt =====
-- Plans for one reading task, with a validation that knows one item, and the theorem at them.
use astra_agent.Base.{
  ◌≡◌, ◌≤◌, ◌↔◌, refl, true, false, Option, none, some, [], ◌∷◌, length, All, any, str_eq,
  if◌then◌else◌,
}
use astra_agent.Base.Text.{strip, lstrip, rstrip, is_space}
use astra_agent.Domain.Models.{Capability}
use astra_agent.Domain.Capabilities.{same_capability}
use astra_agent.Policy.Planner.{
  Item, PlannerTask, PlannerDecision, validate_planner_decision, validate_all, check_contract,
  check_tasks, contains, expected, permitted_contract,
}
use astra_agent.Policy.Planner.Plans.{IsPermitted, Distinct, validate_planner_decision-allowed}

abbrev read_item : Item
read_item = ("kind", "file.read") ∷ ("scope", "repository") ∷ []

-- Refuses every item but the one whose kind is a file read.
abbrev validate : Item → Option Capability
validate ((key, kind) ∷ rest) = if str_eq kind "file.read" then some expected else none
validate [] = none

abbrev reading : PlannerTask
reading = record {
  objective = "find the parser";
  context = "";
  required_capabilities = read_item ∷ [];
  deliverable_contract = permitted_contract;
}

abbrev plan : PlannerDecision
plan = record { tasks = reading ∷ [] }

-- The second task differs from the first in the space around its objective alone.
abbrev repeated : PlannerDecision
repeated = record { tasks = reading ∷ record reading { objective = " find the parser\n" } ∷ [] }

allows : (validate_planner_decision validate plan 3).allowed ≡ true
unfolding validate_planner_decision check_tasks check_contract validate_all strip lstrip rstrip
    is_space contains any same_capability
allows = refl

refuses_repeated : (validate_planner_decision validate repeated 3).allowed ≡ false
unfolding validate_planner_decision check_tasks check_contract validate_all strip lstrip rstrip
    is_space contains any same_capability
refuses_repeated = refl

validate_planner_decision-allowed_example :
    ((validate_planner_decision validate plan 3).allowed ≡ true)
    ↔ ((length plan.tasks ≤ 3) × All (IsPermitted validate) plan.tasks × Distinct [] plan.tasks)
validate_planner_decision-allowed_example = validate_planner_decision-allowed validate plan 3
