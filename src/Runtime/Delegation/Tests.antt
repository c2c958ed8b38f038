-- ===== src/Runtime/Delegation/Tests.antt =====
-- Delegations of one task, and their theorems at them.
use astra_agent.Base.{◌≡◌, refl, true, some, [], ◌∷◌, filter, any, all, sort}
use astra_agent.Base.Dict.{get, put, values}
use astra_agent.Base.Exec.{ok, err, conflict, ◌>>=◌}
use astra_agent.Domain.Models.{null, ConversationTurn, Task}
use astra_agent.Domain.Capabilities.{is_in, covers, same_capability}
use astra_agent.Runtime.Samples.{env, task, invocation, turn_running}
use astra_agent.Runtime.Turns.{active_turn, is_claimed, paused_turn}
use astra_agent.Runtime.Delegation.{
  create_delegated_tasks, assign, store_delegations, eligible_aras, is_selected,
}
use astra_agent.Runtime.Delegation.Targets.{Assigned}
use astra_agent.Runtime.Delegation.Outcomes.{create_delegated_tasks-Assigned}

abbrev given : Task
given = record task { target_ara_id = some 3 }

delegates :
    (create_delegated_tasks env 1 60 20 (task ∷ []) (invocation ∷ []) null turn_running).0
    ≡ ok (given ∷ [])
unfolding create_delegated_tasks active_turn assign store_delegations eligible_aras is_selected
    filter any all sort covers is_in same_capability values get put ◌>>=◌
delegates = refl

create_delegated_tasks-Assigned_example :
    Assigned env 1 turn_running 0 [] (task ∷ []) (given ∷ [])
    × (turn : ConversationTurn) × (get turn_running.turns 60 ≡ some turn)
    × (is_claimed 1000 20 turn ≡ true)
    × (get
          (create_delegated_tasks env 1 60 20
            (task ∷ [])
            (invocation ∷ [])
            null
            turn_running).1.turns
          60
        ≡ some (paused_turn 1000 null turn))
create_delegated_tasks-Assigned_example =
    create_delegated_tasks-Assigned env 1 60 20 (task ∷ []) (invocation ∷ []) null turn_running
      (given ∷ []) delegates

-- Two tasks, one agent.
refuses :
    (create_delegated_tasks env 1 60 20
      (task ∷ task ∷ [])
      (invocation ∷ invocation ∷ [])
      null
      turn_running).0
    ≡ err (conflict "no eligible trusted ARA for planned task")
unfolding create_delegated_tasks active_turn assign store_delegations eligible_aras is_selected
    filter any all sort covers is_in same_capability values get put ◌>>=◌
refuses = refl
