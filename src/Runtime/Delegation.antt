-- ===== src/Runtime/Delegation.antt =====
-- `create_delegated_tasks` of memory.py: the tasks of a plan go to distinct remote agents that are
-- active, trusted, seen lately and idle, and the turn pauses.
mod Targets
mod Outcomes
mod Tests
use astra_agent.Base.{
  ℕ, ◌+◌, Bool, ◌&&◌, ◌||◌, not, Option, none, some, List, [], ◌∷◌, ◌==◌, ltb, leb, holds, length,
  is_empty, filter, any, sort,
}
use astra_agent.Base.Dict.{get, values}
use astra_agent.Base.Exec.{conflict, lookup_error, pure, raise, gets, require, guard, ◌>>=◌, ◌>>◌}
use astra_agent.Domain.Kinds.{EventType, ActorType}
use astra_agent.Domain.Models.{
  Uuid, Instant, Json, uuid, null, field, end, obj, RemoteAgent, Task, Lease, ToolInvocation,
}
use astra_agent.Domain.Capabilities.{covers}
use astra_agent.Runtime.State.{Store, Env, Method, event, log, log_all}
use astra_agent.Runtime.Tasks.{is_active, seen_lately, put_task}
use astra_agent.Runtime.Turns.{active_turn, paused_turn, put_turn, turn_event}
use astra_agent.Runtime.Invocations.{put_invocation, invocation_event}

-- `ara_id in {lease.ara_id for lease in leases if lease.expires_at > now}`
abbrev pub is_busy : Instant → List Lease → Uuid → Bool
is_busy now leases ara_id = any (λ (l : Lease). l.ara_id == ara_id && ltb now l.expires_at) leases

abbrev pub is_eligible : Instant → Uuid → List Lease → Task → RemoteAgent → Bool
is_eligible now tenant_id leases task agent =
    agent.tenant_id == tenant_id
    && is_active agent.status
    && ltb 0 agent.trust_level
    && seen_lately now agent.last_seen_at
    && not (is_busy now leases agent.id)
    && covers agent.capabilities task.required_capabilities

-- `key=lambda ara: (-ara.trust_level, ara.id.hex)`; the hexadecimal texts of two ids have one
-- length, so they compare as the ids do.
abbrev pub before : RemoteAgent → RemoteAgent → Bool
before a b = ltb b.trust_level a.trust_level || a.trust_level == b.trust_level && leb a.id b.id

unfoldable pub eligible_aras : Instant → Uuid → Task → Store → List RemoteAgent
eligible_aras now tenant_id task s =
    sort before (filter (is_eligible now tenant_id (values s.leases) task) (values s.remote_agents))

unfoldable pub is_selected : Uuid → List Uuid → Bool
is_selected ara_id selected = any (λ id. id == ara_id) selected

abbrev pub pick : List RemoteAgent → Method RemoteAgent
pick [] = raise (conflict "no eligible trusted ARA for planned task")
pick (agent ∷ rest) = pure agent

-- The first loop: a target for each task. The n-th round reads the clock at place n + 2.
unfoldable pub assign : Env → Uuid → ℕ → List Uuid → List Task → Method (List Task)
assign env tenant_id n selected [] = pure []
assign env tenant_id n selected (task ∷ tasks) = do
  candidates ← gets (λ s.
      filter (λ a. not (is_selected a.id selected))
        (eligible_aras (env.now (n + 2)) tenant_id task s))
  agent ← pick candidates
  rest ← assign env tenant_id (n + 1) (agent.id ∷ selected) tasks
  pure (record task { target_ara_id = some agent.id } ∷ rest)

abbrev pub target_json : Option Uuid → Json
target_json none = null
target_json (some id) = uuid id

-- The second loop: each task is stored with its invocation.
unfoldable pub store_delegations :
    Env → Uuid → Uuid → ℕ → List Task → List ToolInvocation → Method ℕ
store_delegations env tenant_id turn_id n (task ∷ tasks) (invocation ∷ invocations) = do
  guard (holds invocation.task_id task.id && invocation.turn_id == turn_id)
      (conflict "delegation invocation ownership mismatch")
  put_task task.id task
  put_invocation invocation.id invocation
  log_all (
      event env n tenant_id EventType.task_created ActorType.coordinator none (some task.id) (
        obj (
          field "turn_id" (uuid turn_id)
            (field "target_ara_id" (target_json task.target_ara_id) end)))
      ∷ invocation_event env (n + 1) tenant_id EventType.tool_invocation_requested
          ActorType.coordinator none invocation.id
      ∷ [])
  store_delegations env tenant_id turn_id (n + 2) tasks invocations
store_delegations env tenant_id turn_id n _ _ = pure n

unfoldable pub create_delegated_tasks :
    Env → Uuid → Uuid → Uuid → List Task → List ToolInvocation → Json → Method (List Task)
create_delegated_tasks env tenant_id turn_id run_lease_id tasks invocations checkpoint = do
  guard (length tasks == length invocations && not (is_empty tasks))
      (conflict "delegation tasks and invocations must match")
  active_turn env tenant_id turn_id run_lease_id
  assigned ← assign env tenant_id 0 [] tasks
  n ← store_delegations env tenant_id turn_id 0 assigned invocations
  found ← gets (λ s. get s.turns turn_id)
  turn ← require found lookup_error
  put_turn turn_id (paused_turn (env.now 1) checkpoint turn)
  log (turn_event env n tenant_id EventType.conversation_turn_paused turn_id)
  pure assigned
