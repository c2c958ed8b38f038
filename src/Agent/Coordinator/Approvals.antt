-- ===== src/Agent/Coordinator/Approvals.antt =====
-- Which tool calls of a turn run, and which wait for an approval.
use mathlib.Core.List.{Memᴰ}
use astra_agent.Base.{
  suc, ◌≡◌, ◌≢◌, refl, String, ==_refl, true, false, none, some, List, find, arith, str_eq,
}
use astra_agent.Base.Dict.{get, get-put_self}
use astra_agent.Base.Exec.{Result, ok, ◌>>=◌}
use astra_agent.Domain.Kinds.{
  is_file_read, CapabilityKind, ConversationTurnState, ToolInvocationState, ToolInvocationTarget,
}
use astra_agent.Domain.Models.{ConversationTurn, ToolInvocation}
use astra_agent.Domain.Capabilities.{is_in, mem-is_in}
use astra_agent.Policy.Capability.{evaluate_capability}
use astra_agent.Policy.Planner.{contains}
use astra_agent.Agent.Tools.Paths.{lookup}
use astra_agent.Agent.Tools.Registry.{LocalTool, TenantWorkspace, dispatch, run_tool}
use astra_agent.Agent.Coordinator.Messages.{ModelMessage, ToolCall}
use astra_agent.Agent.Coordinator.Session.{World, Session, call, ask, readings, in_length}
use astra_agent.Agent.Coordinator.Requesting.{
  Request, IsFirst, requested, asked_approval, after_request, after_approval, waiting_invocation,
  waiting_turn, request-runs, approval-runs, turn-waits,
}
use astra_agent.Agent.Coordinator.Calls.{
  Outcome, new_invocation, new_approval, await_approval, dispatch_call, execute_local,
  capability_for,
}

module _ (world : World) (turn : ConversationTurn) (tool_call : ToolCall)
    (known_tools : List String) (s : Session) where
  -- The invocation and the approval that this call would request.
  abbrev pub request : Request
  request = record {
    world = world;
    turn = turn;
    tool_call = tool_call;
    target = ToolInvocationTarget.local;
    capability = capability_for tool_call.name;
    reason = "impactful capability requires approval";
    built_env = world.envs s.steps;
    create_env = world.envs (suc s.steps);
    asked_env = world.envs (suc (suc (suc s.steps)));
    approval_env = world.envs (suc (suc (suc (suc s.steps))));
    store = s.store;
  }

  -- The call is of a known tool, whose capability the tenant's grants hold, under texts of allowed lengths.
  pub record IsKnown (tool : LocalTool) (workspace : TenantWorkspace) : Type 0 where
    pub id_fits : in_length 1 200 tool_call.id ≡ true
    pub name_fits : in_length 1 200 tool_call.name ≡ true
    pub known : contains tool_call.name known_tools ≡ true
    pub configured :
        get (world.registry (suc (suc s.steps))).workspaces turn.tenant_id ≡ some workspace
    pub found :
        find (λ t. str_eq t.name tool_call.name) (world.registry (suc (suc s.steps))).tools
        ≡ some tool
    pub granted : Memᴰ tool.capability workspace.grants

  -- The turn is paused without a lease, the invocation waits for the approval, and the approval is
  -- on record, undecided.
  pub record Waits (messages : List ModelMessage) (run : Result Outcome × Session) : Type 0 where
    pub paused : ConversationTurn
    pub invocation : ToolInvocation
    pub returned : run.0 ≡ ok (some paused, messages)
    pub is_paused : paused.state ≡ ConversationTurnState.paused
    pub no_lease : paused.run_lease_id ≡ none
    pub turn_stored : get run.1.store.turns turn.id ≡ some paused
    pub invocation_stored :
        get run.1.store.tool_invocations (requested request).id ≡ some invocation
    pub awaiting : invocation.state ≡ ToolInvocationState.awaiting_approval
    pub approval_stored :
        get run.1.store.approvals (asked_approval request).id ≡ some (asked_approval request)

  waits-runs :
      (tool : LocalTool) (workspace : TenantWorkspace) (messages : List ModelMessage)
      → IsFirst request
      → IsKnown tool workspace
      → tool.capability.kind ≢ CapabilityKind.file_read
      → execute_local world turn tool_call known_tools messages s ≡ (
        ok (some (waiting_turn request), messages),
        record s {
          store = (after_approval request);
          steps = suc (suc (suc (suc (suc (suc s.steps)))));
        },
      )
  unfolding execute_local new_invocation new_approval readings ask call dispatch_call await_approval
      dispatch run_tool evaluate_capability lookup ◌>>=◌
  waits-runs tool workspace messages first k impactful =
      let granted : is_in tool.capability workspace.grants ≡ true =
        mem-is_in tool.capability workspace.grants k.granted in
      let other : is_file_read tool.capability.kind ≡ false = ground (arith, impactful) in
      rw
        (
          k.id_fits,
          k.name_fits,
          request-runs request first,
          k.known,
          ==_refl (requested request).id,
          k.configured,
          k.found,
          granted,
          other,
          approval-runs request first,
          turn-waits request,
        )
        refl

  -- A first call of a known tool whose capability is granted and is no file read does not run the
  -- tool: the stored turn is paused without a lease, its invocation awaits approval, an undecided
  -- approval of it is on record, and the messages stay as they are.
  pub execute_local-Waits :
      (tool : LocalTool) (workspace : TenantWorkspace) (messages : List ModelMessage)
      → IsFirst request
      → IsKnown tool workspace
      → tool.capability.kind ≢ CapabilityKind.file_read
      → Waits messages (execute_local world turn tool_call known_tools messages s)
  execute_local-Waits tool workspace messages first k impactful =
      rw (waits-runs tool workspace messages first k impactful) (record {
        paused = (waiting_turn request);
        invocation = (waiting_invocation request);
        returned = refl;
        is_paused = refl;
        no_lease = refl;
        turn_stored = get-put_self s.store.turns turn.id (waiting_turn request);
        invocation_stored =
            get-put_self (after_request request).tool_invocations (requested request).id
              (waiting_invocation request);
        awaiting = refl;
        approval_stored =
            get-put_self s.store.approvals (asked_approval request).id (asked_approval request);
      })
