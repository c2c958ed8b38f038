-- ===== src/Agent/Coordinator/HostTasks.antt =====
-- The call of a host command after its approval: its task, and the invocations.
use astra_agent.Base.{
  suc, ◌≡◌, String, ◌==◌, true, ◌&&◌, none, some, List, [], ◌∷◌, ◌++◌, find, str_eq,
}
use astra_agent.Base.Dict.{get, put, values}
use astra_agent.Base.Text.{take_chars}
use astra_agent.Domain.Kinds.{EventType, ActorType, ToolInvocationTarget, ToolInvocationState}
use astra_agent.Domain.Models.{Uuid, flag, uuid, obj, field, ConversationTurn, ToolInvocation, Task}
use astra_agent.Runtime.State.{Store, Env, event}
use astra_agent.Runtime.Invocations.{finished_invocation, invocation_event}
use astra_agent.Runtime.Turns.{is_claimed, paused_turn, turn_event}
use astra_agent.Agent.Coordinator.Messages.{ToolCall}
use astra_agent.Agent.Coordinator.Session.{World, Session, in_length}
use astra_agent.Agent.Coordinator.Calls.{built_invocation}
use astra_agent.Agent.Coordinator.Delegated.{host_command_capability, command_fields, built_task}

module _ (world : World) (turn : ConversationTurn) (run_lease_id : Uuid) (tool_call : ToolCall)
    (reason : String) (s : Session) (existing : ToolInvocation) where
  -- The tenant's invocation of the call is pending without a task, as an approval leaves it, and the turn runs under
  -- the lease.
  pub record IsApproved : Type 0 where
    pub on_record :
        find
          (λ (i : ToolInvocation).
            i.tenant_id == turn.tenant_id
            && i.turn_id == turn.id
            && str_eq i.tool_call_id tool_call.id)
          (values s.store.tool_invocations)
        ≡ some existing
    pub stored : get s.store.tool_invocations existing.id ≡ some existing
    pub no_task : existing.task_id ≡ none
    pub pending : existing.state ≡ ToolInvocationState.pending
    pub turn_stored : get s.store.turns turn.id ≡ some turn
    pub claimed :
        is_claimed
          ((world.envs (suc (suc (suc (suc (suc (suc (suc s.steps)))))))).now 0)
          run_lease_id
          turn
        ≡ true
    pub reason_fits : in_length 1 10000 (take_chars 10000 reason) ≡ true
    pub context_fits :
        in_length 0 50000 (world.dumps (obj (command_fields tool_call.arguments))) ≡ true

  -- The task of the command.
  abbrev pub task : Task
  task =
      built_task world (world.envs (suc s.steps)) turn (take_chars 10000 reason)
        (world.dumps (obj (command_fields tool_call.arguments))) host_command_capability
        "Return bounded host command exit status and output."

  abbrev complete_env : Env
  complete_env = world.envs (suc (suc (suc (suc s.steps))))

  abbrev pub completed : ToolInvocation
  completed =
      finished_invocation ToolInvocationState.completed (complete_env.now 0)
        (some (complete_env.now 1)) existing

  abbrev after_task : Store
  after_task = record s.store {
    tasks = put s.store.tasks task.id task;
    events =
        s.store.events
        ++ event (world.envs (suc (suc s.steps))) 0 turn.tenant_id EventType.task_created
            ActorType.coordinator none (some task.id)
            (obj (
              field "turn_id" (uuid turn.id)
                (field "host_command" (flag true) (command_fields tool_call.arguments))))
          ∷ [];
  }

  abbrev after_completion : Store
  after_completion = record after_task {
    tool_invocations = put s.store.tool_invocations existing.id completed;
    events =
        after_task.events
        ++ invocation_event complete_env 0 turn.tenant_id EventType.tool_invocation_completed
            ActorType.coordinator none existing.id
          ∷ [];
  }

  abbrev linked : ToolInvocation
  linked =
      built_invocation world (world.envs (suc (suc (suc (suc (suc s.steps)))))) turn tool_call
        ToolInvocationTarget.ara (some task.id)

  abbrev pause_env : Env
  pause_env = world.envs (suc (suc (suc (suc (suc (suc (suc s.steps)))))))

  abbrev pub waiting : ConversationTurn
  waiting = paused_turn (pause_env.now 1) turn.checkpoint turn

  abbrev after_pause : Store
  after_pause = record after_completion {
    turns = put s.store.turns turn.id waiting;
    events =
        after_completion.events
        ++ turn_event pause_env 0 turn.tenant_id EventType.conversation_turn_paused turn.id ∷ [];
  }
