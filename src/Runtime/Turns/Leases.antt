-- ===== src/Runtime/Turns/Leases.antt =====
-- Who may write to a turn, and what the holder of its lease can do.
use astra_agent.Base.{
  ◌≡◌, ◌⊎◌, ◌==◌, inl, inr, refl, Bool-cases, false, true, Option, none, some, arith,
}
use astra_agent.Base.Dict.{get}
use astra_agent.Base.Exec.{ok, err, conflict, not_found, Failure, ◌>>=◌}
use astra_agent.Domain.Models.{Uuid, Json, Conversation, ConversationMessage, ConversationTurn}
use astra_agent.Runtime.State.{Store, Env}
use astra_agent.Runtime.Turns.{
  checkpoint_turn, pause_turn, complete_turn, active_turn, is_claimed, is_user,
}

-- The turn under `k` cannot be written to under the lease `l`: a checkpoint, a pause and a
-- completion raise a conflict and leave the store as it is.
abbrev pub Refuses : Json → ConversationMessage → Env → Uuid → Uuid → Uuid → Store → Type 0
Refuses checkpoint message env t k l s =
    (checkpoint_turn env t k l checkpoint s ≡ (err (conflict "turn is not actively claimed"), s))
    × (pause_turn env t k l checkpoint s ≡ (err (conflict "turn is not actively claimed"), s))
    × (complete_turn env t k l message s ≡ (err (conflict "turn is not actively claimed"), s))

-- A turn that does not run, runs under another lease, or whose lease has ended, cannot be written
-- to by a caller with this lease.
pub active_turn-refused :
    (env : Env) (t k l : Uuid) (s : Store) (turn : ConversationTurn)
    → get s.turns k ≡ some turn
    → turn.tenant_id ≡ t
    → is_claimed (env.now 0) l turn ≡ false
    → (checkpoint : Json) (message : ConversationMessage) → Refuses checkpoint message env t k l s
unfolding checkpoint_turn pause_turn complete_turn active_turn ◌>>=◌
active_turn-refused env t k l s turn found owner h checkpoint message =
    (ground arith, ground arith, ground arith)

module _ (env : Env) (t k l : Uuid) (s : Store) (turn : ConversationTurn)
    (message : ConversationMessage) (c : Conversation) where
  -- The turn under the key is the tenant's and runs under a lease that has not ended, and the
  -- message is an assistant's in its conversation, which is stored.
  pub record CanComplete : Type 0 where
    pub stored : get s.turns k ≡ some turn
    pub owner : turn.tenant_id ≡ t
    pub claimed : is_claimed (env.now 0) l turn ≡ true
    pub message_owner : message.tenant_id ≡ t
    pub conversation : message.conversation_id ≡ turn.conversation_id
    pub assistant : is_user message.role ≡ false
    pub open_conversation : get s.conversations turn.conversation_id ≡ some c

-- The check that a turn is claimed only reads, and passes on the stored turn of the lease's holder.
pub active_turn-cases :
    (env : Env) (t k l : Uuid) (s : Store)
    → ((turn : ConversationTurn) × (active_turn env t k l s ≡ (ok turn, s))
        × (get s.turns k ≡ some turn)
        × (is_claimed (env.now 0) l turn ≡ true))
      ⊎ ((e : Failure) × (active_turn env t k l s ≡ (err e, s)))
unfolding active_turn ◌>>=◌
active_turn-cases env t k l s = inspect (get s.turns k) refl
  where
    inspect :
        (o : Option ConversationTurn)
        → get s.turns k ≡ o
        → ((turn : ConversationTurn) × (active_turn env t k l s ≡ (ok turn, s))
            × (get s.turns k ≡ some turn)
            × (is_claimed (env.now 0) l turn ≡ true))
          ⊎ ((e : Failure) × (active_turn env t k l s ≡ (err e, s)))
    inspect none e = inr (not_found "turn not found", ground (arith, e))
    inspect (some turn) e = elim (Bool-cases (turn.tenant_id == t)) [
      | inr other ↦ inr (not_found "turn not found", ground (arith, e, other))
      | inl own ↦ elim (Bool-cases (is_claimed (env.now 0) l turn)) [
        | inl claimed ↦ inl (turn, ground (arith, e, own, claimed), e, claimed)
        | inr lost ↦ inr (conflict "turn is not actively claimed", ground (arith, e, own, lost))
      ]
    ]
