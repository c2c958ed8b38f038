-- ===== src/Agent/Coordinator/Tests.antt =====
-- Runs of the coordinator, with a model that calls a tool once, and its theorems at them.
use mathlib.Core.List.{Memᴰ}
use astra_agent.Base.{◌≡◌, refl, none, some, [], ◌∷◌, find, any}
use astra_agent.Base.Dict.{get, put, values}
use astra_agent.Base.Exec.{ok, err, conflict, ◌>>=◌}
use astra_agent.Domain.Kinds.{ToolInvocationTarget}
use astra_agent.Domain.Models.{
  text, num, obj, arr, nil, cons, field, end, ConversationTurn, ToolInvocation,
}
use astra_agent.Policy.Planner.{contains}
use astra_agent.Runtime.Samples.{claimed_turn, turn_running, invocation}
use astra_agent.Runtime.Turns.{checkpoint_turn, active_turn}
use astra_agent.Agent.Tools.Paths.{lookup}
use astra_agent.Agent.Tools.Registry.{arguments}
use astra_agent.Agent.Coordinator.Messages.{
  ModelMessage, ToolCall, dump_message, dump_call, dump_all, checkpoint_fields,
}
use astra_agent.Agent.Coordinator.Session.{Session, call}
use astra_agent.Agent.Coordinator.History.{messages_for_turn, checkpoint}
use astra_agent.Agent.Coordinator.Calls.{execute_local}
use astra_agent.Agent.Coordinator.Host.{delegate_host_command}
use astra_agent.Agent.Coordinator.Resumption.{checkpoint-messages_for_turn}
use astra_agent.Agent.Coordinator.Requesting.{Request, asked_approval, waiting_turn}
use astra_agent.Agent.Coordinator.Approvals.{IsKnown, Waits, execute_local-Waits}
use astra_agent.Agent.Coordinator.HostCommands.{
  request as host_request, IsCommand, delegate_host_command-raises,
}
use astra_agent.Agent.Coordinator.Samples.{workspace, tool, world, session}

abbrev hello : ModelMessage
hello = record { role = "user"; content = "Hello" }

abbrev tool_call : ToolCall
tool_call = record {
  id = "call-9";
  name = "run_command";
  arguments = field "argv" (arr (cons (text "ls") nil)) end;
}

abbrev updated : ConversationTurn
updated = record claimed_turn {
  checkpoint = obj (
      field "messages" (arr (cons (dump_message hello) nil)) (
        field "iterations" (num 2)
          (field "pending_calls" (arr (cons (dump_call tool_call) nil)) end)));
}

checkpoint-messages_for_turn_example :
    (get (checkpoint world claimed_turn 20 (hello ∷ []) 2 (tool_call ∷ []) session).1.store.turns 60
      ≡ some updated)
    × ((later : Session)
        → messages_for_turn world updated later ≡ (ok (hello ∷ [], 2, tool_call ∷ []), later))
unfolding checkpoint call checkpoint_turn active_turn get put checkpoint_fields dump_all ◌>>=◌
checkpoint-messages_for_turn_example =
    checkpoint-messages_for_turn world claimed_turn 20 (hello ∷ []) 2 (tool_call ∷ []) session
      (λ message. refl) (λ c. refl) refl

known : IsKnown world claimed_turn tool_call ("run_command" ∷ []) session tool workspace
unfolding contains any get find
known = record {
  id_fits = refl;
  name_fits = refl;
  known = refl;
  configured = refl;
  found = refl;
  granted = Memᴰ.head refl;
}

execute_local-Waits_example :
    Waits world claimed_turn tool_call
      ("run_command" ∷ [])
      session
      (hello ∷ [])
      (execute_local world claimed_turn tool_call ("run_command" ∷ []) (hello ∷ []) session)
unfolding get find values
execute_local-Waits_example =
    execute_local-Waits world claimed_turn tool_call ("run_command" ∷ []) session tool workspace
      (hello ∷ []) (record { unknown = refl; stored = refl }) known (λ e. cc e)

-- The invocation of the call, left pending by a run whose lease ran out.
abbrev left_over : ToolInvocation
left_over = record invocation {
  task_id = none;
  tool_call_id = "call-9";
  tool_name = "run_command";
  target = ToolInvocationTarget.local;
}

abbrev left_session : Session
left_session = record session {
  store = record turn_running { tool_invocations = (80, left_over) ∷ [] };
}

abbrev host_call : ToolCall
host_call = record {
  id = "call-9";
  name = "delegate_host_command";
  arguments =
      field "argv" (arr (cons (text "ls") nil)) (field "reason" (text "List the files") end);
}

command : (s : Session) → IsCommand world claimed_turn 20 host_call "List the files" s
unfolding lookup arguments
command s = record {
  id_fits = refl;
  name_fits = refl;
  has_argv = refl;
  has_cwd = refl;
  has_reason = refl;
}

abbrev first_request : Request
first_request = host_request world claimed_turn 20 host_call "List the files" session

delegate_host_command-raises_example :
    ((delegate_host_command world claimed_turn 20 host_call (hello ∷ []) session).0
      ≡ err (conflict "turn is not actively claimed"))
    × (get
          (delegate_host_command world claimed_turn 20 host_call (hello ∷ []) session).1.store.turns
          60
        ≡ some (waiting_turn first_request))
    × (get
          (delegate_host_command world claimed_turn 20 host_call
            (hello ∷ [])
            session).1.store.approvals
          500
        ≡ some (asked_approval first_request))
unfolding get find values
delegate_host_command-raises_example =
    delegate_host_command-raises world claimed_turn 20 host_call "List the files" session
      (hello ∷ []) (record { unknown = refl; stored = refl }) (command session)
