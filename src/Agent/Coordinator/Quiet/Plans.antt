-- ===== src/Agent/Coordinator/Quiet/Plans.antt =====
-- The planning of a turn: its effect on the log and on the count of requests.
use astra_agent.Base.{ℕ, suc, ◌≡◌, String, Option, none, some, List, [], ◌∷◌}
use astra_agent.Domain.Models.{Uuid, Json, Items, nil, cons, arr, ConversationTurn}
use astra_agent.Runtime.State.{Env}
use astra_agent.Agent.Coordinator.Effects.{Asks, Asks-bind, ask_rules}
use astra_agent.Agent.Coordinator.Messages.{ModelMessage}
use astra_agent.Agent.Coordinator.Session.{World, MemoryTools}
use astra_agent.Policy.Planner.{PlannerTask, PlannerDecision}
use astra_agent.Agent.Coordinator.Planning.{
  planned_tasks, provenance_of, sibling_provenance, deny_plan, plan_of, decision_with, new_tasks,
  delegate_plan, make_plan, planning,
}
use astra_agent.Agent.Coordinator.Quiet.Reads.{IsLogging, store_rules}
use astra_agent.Agent.Coordinator.Quiet.Calls.{has_available_ara-Asks}

module _ (world : World)
    (tools_log : (tools : MemoryTools) → world.memory_tools ≡ some tools → IsLogging tools) where
  planned_tasks-Asks : (t : Uuid) (items : Items) → Asks 0 (planned_tasks world t items)
  unfolding planned_tasks
  planned_tasks-Asks t nil = search ask_rules
  planned_tasks-Asks t (cons raw_id raw_ids) =
      let rest : Asks 0 (planned_tasks world t raw_ids) = planned_tasks-Asks t raw_ids in
      Asks-bind 0 _ _ (search ask_rules) λ id.
        Asks-bind 0 _ _ (search (ask_rules, store_rules)) λ found.
          Asks-bind 0 _ _ (search ask_rules)
            λ task. Asks-bind 0 _ _ rest (λ tasks. search ask_rules)

  provenance_of-Asks : (t : Uuid) (json : Json) → Asks 0 (provenance_of world t json)
  provenance_of-Asks t (arr items) = search (ask_rules, planned_tasks-Asks) depth 20
  provenance_of-Asks t _ = search ask_rules

  sibling_provenance-Asks : (turn : ConversationTurn) → Asks 0 (sibling_provenance world turn)
  unfolding sibling_provenance
  sibling_provenance-Asks turn = search provenance_of-Asks

  deny_plan-Asks :
      (turn : ConversationTurn) (reason : String) → Asks 0 (deny_plan world turn reason)
  unfolding deny_plan
  deny_plan-Asks turn reason = search (ask_rules, store_rules) depth 20

  plan_of-Asks :
      (turn : ConversationTurn) (o : Option PlannerDecision) → Asks 0 (plan_of world turn o)
  plan_of-Asks turn none = search (ask_rules, deny_plan-Asks) depth 20
  plan_of-Asks turn (some decision) = search ask_rules

  decision_with-Asks :
      (turn : ConversationTurn) (ms : List ModelMessage)
      (o : Option (ℕ → List ModelMessage → ℕ → Option PlannerDecision))
      → Asks 0 (decision_with world turn ms o)
  decision_with-Asks turn ms none = search ask_rules
  decision_with-Asks turn ms (some planner) = search (ask_rules, plan_of-Asks) depth 20

  new_tasks-Asks :
      (env : Env) (turn : ConversationTurn) (n : ℕ) (items : List PlannerTask)
      → Asks 0 (new_tasks world env turn n items)
  unfolding new_tasks
  new_tasks-Asks env turn n [] = search ask_rules
  new_tasks-Asks env turn n (item ∷ items) =
      let rest : Asks 0 (new_tasks world env turn (suc n) items) =
        new_tasks-Asks env turn (suc n) items in
      Asks-bind 0 _ _ (search ask_rules) λ capabilities.
        Asks-bind 0 _ _ (search ask_rules) λ fits. Asks-bind 0 _ _ rest (λ tasks. search ask_rules)

  delegate_plan-Asks :
      (turn : ConversationTurn) (l : Uuid) (ms : List ModelMessage) (n : ℕ)
      (items : List PlannerTask)
      → Asks 0 (delegate_plan world turn l ms n items)
  unfolding delegate_plan
  delegate_plan-Asks turn l ms n items = search (ask_rules, store_rules, new_tasks-Asks) depth 40

  make_plan-Asks :
      (turn : ConversationTurn) (l : Uuid) (ms : List ModelMessage) (n : ℕ)
      → Asks 0 (make_plan world turn l ms n)
  unfolding make_plan
  make_plan-Asks turn l ms n =
      search (ask_rules, decision_with-Asks, deny_plan-Asks, delegate_plan-Asks) depth 30

  pub planning-Asks :
      (turn : ConversationTurn) (l : Uuid) (ms : List ModelMessage) (n : ℕ)
      → Asks 0 (planning world turn l ms n)
  unfolding planning
  planning-Asks turn l ms n =
      search
        (ask_rules, sibling_provenance-Asks, has_available_ara-Asks world tools_log, make_plan-Asks)
        depth 30
