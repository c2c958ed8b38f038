-- ===== src/Agent/Coordinator/Resumption.antt =====
-- The way of a turn into its checkpoint and out of it.
use astra_agent.Base.{ℕ, ◌≡◌, refl, some, List, arith}
use astra_agent.Base.Dict.{get, get-put_self}
use astra_agent.Base.Exec.{ok, bind-ok, ◌>>=◌}
use astra_agent.Domain.Models.{Uuid, Json, field, arr, num, end, ConversationTurn}
use astra_agent.Runtime.State.{Store, Env}
use astra_agent.Runtime.Turns.{checkpoint_turn, active_turn}
use astra_agent.Agent.Tools.Paths.{lookup}
use astra_agent.Agent.Coordinator.Messages.{
  ModelMessage, ToolCall, dump_message, dump_call, dump_all, validate_all, checkpoint_fields,
}
use astra_agent.Agent.Coordinator.Messages.Roundtrip.{validate_all-dump_all}
use astra_agent.Agent.Coordinator.Session.{World, Session, call}
use astra_agent.Agent.Coordinator.History.{messages_for_turn, restored, pending_from, checkpoint}

-- What is stored by a checkpoint that returns.
checkpoint_turn-stores :
    (env : Env) (t k l : Uuid) (c : Json) (s : Store) {turn : ConversationTurn}
    → (checkpoint_turn env t k l c s).0 ≡ ok turn
    → (turn.checkpoint ≡ c) × (get (checkpoint_turn env t k l c s).1.turns k ≡ some turn)
unfolding checkpoint_turn ◌>>=◌
checkpoint_turn-stores env t k l c s {turn} h =
    let (active, found, rest) = bind-ok (active_turn env t k l) _ s h in
    let same = rw rest at h in
    rw rest (
      ground (arith, same),
      ground (arith, same, get-put_self (active_turn env t k l s).1.turns k turn),
    )

module _ (world : World) where
  restored-start :
      (messages : List ModelMessage) (iterations : ℕ) (calls : List ToolCall) (s : Session)
      → validate_all world.validate_message (dump_all dump_message messages) ≡ some messages
      → validate_all world.validate_call (dump_all dump_call calls) ≡ some calls
      → restored world
          (field "messages" (arr (dump_all dump_message messages)) (
            field "iterations"
              (num iterations)
              (field "pending_calls" (arr (dump_all dump_call calls)) end)))
          (dump_all dump_message messages)
          s
        ≡ (ok (messages, iterations, calls), s)
  unfolding restored pending_from lookup ◌>>=◌
  restored-start messages iterations calls s em ec = rw (em, ec) refl

  -- A checkpoint that returns stores the turn with its messages, its count of requests and its
  -- pending calls, and a run of the stored turn starts from exactly these and leaves the session as
  -- it is, where pydantic's validation accepts a dumped message or call and gives it back.
  pub checkpoint-messages_for_turn :
      (turn : ConversationTurn) (run_lease_id : Uuid) (messages : List ModelMessage)
      (iterations : ℕ) (calls : List ToolCall) (s : Session) {updated : ConversationTurn}
      → ((message : ModelMessage) → world.validate_message (dump_message message) ≡ some message)
      → ((tool_call : ToolCall) → world.validate_call (dump_call tool_call) ≡ some tool_call)
      → (checkpoint world turn run_lease_id messages iterations calls s).0 ≡ ok updated
      → (get (checkpoint world turn run_lease_id messages iterations calls s).1.store.turns turn.id
          ≡ some updated)
        × ((later : Session)
            → messages_for_turn world updated later ≡ (ok (messages, iterations, calls), later))
  unfolding checkpoint call messages_for_turn lookup checkpoint_fields
  checkpoint-messages_for_turn turn l messages n calls s read_message read_call h =
      let (kept, stored) =
        checkpoint_turn-stores (world.envs s.steps) turn.tenant_id turn.id l _ s.store h in
      (
        stored,
        λ later. rw kept (
            restored-start messages n calls later
              (validate_all-dump_all dump_message world.validate_message read_message messages)
              (validate_all-dump_all dump_call world.validate_call read_call calls)),
      )
