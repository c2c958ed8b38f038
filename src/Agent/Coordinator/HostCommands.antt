-- ===== src/Agent/Coordinator/HostCommands.antt =====
-- The first call of a host command.
use Prim.Native.String.{◌++◌ as text_append}
use astra_agent.Base.{
  suc, ◌≡◌, refl, String, ◌==◌, ==_refl, true, ◌&&◌, none, some, List, find, find-none,
  All-find-none, All-imp, arith, str_eq,
}
use astra_agent.Base.Dict.{get, values, get-put_self}
use astra_agent.Base.Exec.{err, conflict, ◌>>=◌}
use astra_agent.Base.Text.{take_chars, count-take_chars, count-append}
use astra_agent.Domain.Kinds.{ToolInvocationTarget}
use astra_agent.Domain.Models.{Uuid, ConversationTurn, ToolInvocation}
use astra_agent.Runtime.Invocations.{get_tool_invocation}
use astra_agent.Runtime.Turns.{pause_turn, active_turn}
use astra_agent.Agent.Tools.Paths.{lookup}
use astra_agent.Agent.Coordinator.Messages.{ModelMessage, ToolCall}
use astra_agent.Agent.Coordinator.Session.{World, Session, call, ask, readings, in_length}
use astra_agent.Agent.Coordinator.History.{has_available_host_ara}
use astra_agent.Agent.Coordinator.Calls.{new_invocation, new_approval, as_text}
use astra_agent.Agent.Coordinator.Delegated.{host_command_capability, is_argv, is_directory, pause}
use astra_agent.Agent.Coordinator.Host.{delegate_host_command, request_host}
use astra_agent.Agent.Coordinator.Requesting.{
  Request, IsFirst, asked_approval, after_approval, waiting_turn, request-runs, approval-runs,
}

module _ (world : World) (turn : ConversationTurn) (run_lease_id : Uuid) (tool_call : ToolCall)
    (reason : String) (s : Session) where
  -- The invocation and the approval that a first call would request.
  abbrev pub request : Request
  request = record {
    world = world;
    turn = turn;
    tool_call = tool_call;
    target = ToolInvocationTarget.ara;
    capability = host_command_capability;
    reason = text_append "Host command: " (take_chars 200 reason);
    built_env = world.envs (suc s.steps);
    create_env = world.envs (suc (suc s.steps));
    asked_env = world.envs (suc (suc (suc s.steps)));
    approval_env = world.envs (suc (suc (suc (suc s.steps))));
    store = s.store;
  }

  -- The arguments are those of a host command, under texts of allowed lengths.
  pub record IsCommand : Type 0 where
    pub id_fits : in_length 1 200 tool_call.id ≡ true
    pub name_fits : in_length 1 200 tool_call.name ≡ true
    pub has_argv : is_argv (lookup "argv" tool_call.arguments) ≡ true
    pub has_cwd : is_directory (lookup "cwd" tool_call.arguments) ≡ true
    pub has_reason : as_text (lookup "reason" tool_call.arguments) ≡ some reason

  reason-fits : in_length 1 2000 (text_append "Host command: " (take_chars 200 reason)) ≡ true
  reason-fits =
      rw (count-append "Host command: " (take_chars 200 reason))
        (ground (arith, count-take_chars 200 reason))

  none_on_record :
      IsFirst request
      → find
          (λ (i : ToolInvocation).
            i.tenant_id == turn.tenant_id
            && i.turn_id == turn.id
            && str_eq i.tool_call_id tool_call.id)
          (values s.store.tool_invocations)
        ≡ none
  none_on_record first = All-find-none _ (values s.store.tool_invocations) (
      All-imp _ _ (λ i h. ground (arith, h)) (values s.store.tool_invocations)
        (find-none _ (values s.store.tool_invocations) first.unknown))

  cannot_pause :
      pause_turn
        (world.envs (suc (suc (suc (suc (suc s.steps))))))
        turn.tenant_id
        turn.id
        run_lease_id
        turn.checkpoint
        (after_approval request)
      ≡ (err (conflict "turn is not actively claimed"), after_approval request)
  unfolding pause_turn active_turn ◌>>=◌
  cannot_pause =
      rw (get-put_self s.store.turns turn.id (waiting_turn request), ==_refl turn.tenant_id) refl

  first_call-runs :
      (messages : List ModelMessage)
      → IsFirst request
      → IsCommand
      → delegate_host_command world turn run_lease_id tool_call messages s ≡ (
        err (conflict "turn is not actively claimed"),
        record s {
          store = after_approval request;
          steps = suc (suc (suc (suc (suc (suc s.steps)))));
        },
      )
  unfolding delegate_host_command request_host has_available_host_ara new_invocation new_approval
      readings ask call pause get_tool_invocation ◌>>=◌
  first_call-runs messages first command =
      rw
        (
          command.has_argv,
          command.has_cwd,
          command.has_reason,
          none_on_record first,
          command.id_fits,
          command.name_fits,
          request-runs request first,
          reason-fits,
          approval-runs request first,
          cannot_pause,
        )
        refl

  -- A first call of a host command raises a conflict although it has stored what it asks for: the turn
  -- is paused, and the approval is on record, undecided.
  pub delegate_host_command-raises :
      (messages : List ModelMessage)
      → IsFirst request
      → IsCommand
      → ((delegate_host_command world turn run_lease_id tool_call messages s).0
          ≡ err (conflict "turn is not actively claimed"))
        × (get
              (delegate_host_command world turn run_lease_id tool_call messages s).1.store.turns
              turn.id
            ≡ some (waiting_turn request))
        × (get
              (delegate_host_command world turn run_lease_id tool_call messages s).1.store.approvals
              (asked_approval request).id
            ≡ some (asked_approval request))
  delegate_host_command-raises messages first command =
      rw (first_call-runs messages first command) (
        refl,
        get-put_self s.store.turns turn.id (waiting_turn request),
        get-put_self s.store.approvals (asked_approval request).id (asked_approval request),
      )
