-- ===== src/Runtime/Approvals/Decisions.antt =====
-- A decision on an approval: made once, and what waited for it goes on.
use astra_agent.Base.{◌≡◌, refl, true, false, Option, none, some, arith}
use astra_agent.Base.Dict.{get, put, get-put_self}
use astra_agent.Base.Exec.{ok, err, conflict, ◌>>=◌}
use astra_agent.Domain.Kinds.{ApprovalState, ConversationTurnState}
use astra_agent.Domain.Models.{Uuid, Approval, ToolInvocation, ConversationTurn}
use astra_agent.Runtime.State.{Store, Env}
use astra_agent.Runtime.Approvals.{
  decide_approval, decide, resume, decided_approval, is_undecided, state_index, invocation_result,
  denied_at,
}

same_state : (a b : ApprovalState) → state_index a ≡ state_index b → a ≡ b
same_state a b h = ground (arith, h)

module _ (env : Env) (t actor : Uuid) (state : ApprovalState) (i : Option Uuid) (s : Store) where
  resume_keeps : (resume env t actor state i s).1.approvals ≡ s.approvals
  unfolding resume ◌>>=◌
  resume_keeps = ground arith

module _ (env : Env) (t k actor : Uuid) (state : ApprovalState) (s : Store) where
  decided_cases :
      (a : Approval)
      → (decide_approval env t k state actor s).0 ≡ ok a
      → (is_undecided state ≡ false)
        × (a.state ≡ state)
        × (a.tenant_id ≡ t)
        × (get (decide_approval env t k state actor s).1.approvals k ≡ some a)
  unfolding decide_approval decide ◌>>=◌
  decided_cases a h = inspect (get s.approvals k) refl
    where
      inspect :
          (o : Option Approval)
          → get s.approvals k ≡ o
          → (is_undecided state ≡ false)
            × (a.state ≡ state)
            × (a.tenant_id ≡ t)
            × (get (decide_approval env t k state actor s).1.approvals k ≡ some a)
      inspect none e = ground (arith, h, e)
      inspect (some b) e =
          let frame = resume_keeps env t actor state b.tool_invocation_id (record s {
            approvals = put s.approvals k (decided_approval (env.now 0) state actor b);
          }) in
          (
            ground (arith, h, e),
            ground (arith, h, e, same_state b.state state),
            ground (arith, h, e),
            ground (
              arith,
              h,
              e,
              frame,
              get-put_self s.approvals k (decided_approval (env.now 0) state actor b),
            ),
          )

-- The other of the two decisions.
abbrev pub opposite : ApprovalState → ApprovalState
opposite ApprovalState.granted = ApprovalState.denied
opposite _ = ApprovalState.granted

again :
    (env : Env) (t k actor : Uuid) (state : ApprovalState) (s : Store) (a : Approval)
    → get s.approvals k ≡ some a
    → a.tenant_id ≡ t
    → is_undecided state ≡ false
    → a.state ≡ state
    → decide_approval env t k state actor s ≡ (ok a, s)
unfolding decide_approval decide ◌>>=◌
again env t k actor state s a stored owner decision same = ground arith

against :
    (env : Env) (t k actor : Uuid) (state : ApprovalState) (s : Store) (a : Approval)
    → get s.approvals k ≡ some a
    → a.tenant_id ≡ t
    → is_undecided state ≡ false
    → a.state ≡ state
    → decide_approval env t k (opposite state) actor s
      ≡ (err (conflict "approval is already decided"), s)
unfolding decide_approval decide ◌>>=◌
against env t k actor state s a stored owner decision same = ground arith

-- A decision stands: the returned approval has the decided state and is stored. Taking the same
-- decision again, by whomever and whenever, returns it and changes nothing; the opposite decision
-- raises a conflict and changes nothing.
pub decide_approval-final :
    (env : Env) (t k actor : Uuid) (state : ApprovalState) (s : Store) (a : Approval)
    → (decide_approval env t k state actor s).0 ≡ ok a
    → (a.state ≡ state)
      × (get (decide_approval env t k state actor s).1.approvals k ≡ some a)
      × ((later : Env) (other : Uuid)
          → decide_approval later t k state other (decide_approval env t k state actor s).1
            ≡ (ok a, (decide_approval env t k state actor s).1))
      × ((later : Env) (other : Uuid)
          → decide_approval later t k
              (opposite state)
              other
              (decide_approval env t k state actor s).1
            ≡ (
              err (conflict "approval is already decided"),
              (decide_approval env t k state actor s).1,
            ))
decide_approval-final env t k actor state s a h =
    let (decision, same, owner, stored) = decided_cases env t k actor state s a h in
    (
      same,
      stored,
      λ later other.
          again later t k other state (decide_approval env t k state actor s).1 a stored owner
            decision same,
      λ later other.
          against later t k other state (decide_approval env t k state actor s).1 a stored owner
            decision same,
    )

-- The invocation and the turn as a decision leaves them.
abbrev pub resumed_invocation : Env → ApprovalState → ToolInvocation → ToolInvocation
resumed_invocation env state inv = record inv {
  state = invocation_result state;
  updated_at = env.now 1;
  completed_at = denied_at state (env.now 2);
}

abbrev pub resumed_turn : Env → ConversationTurn → ConversationTurn
resumed_turn env turn = record turn {
  state = ConversationTurnState.pending;
  updated_at = env.now 3;
}

module _ (env : Env) (t k actor i : Uuid) (s : Store) (a : Approval) (inv : ToolInvocation)
    (turn : ConversationTurn) where
  -- An undecided approval of the tenant that a tool invocation of a turn waits for.
  pub record IsAwaited : Type 0 where
    pub stored : get s.approvals k ≡ some a
    pub owner : a.tenant_id ≡ t
    pub undecided : is_undecided a.state ≡ true
    pub waits : a.tool_invocation_id ≡ some i
    pub invocation : get s.tool_invocations i ≡ some inv
    pub invocation_id : inv.id ≡ i
    pub turn_stored : get s.turns inv.turn_id ≡ some turn
    pub turn_id : turn.id ≡ inv.turn_id
