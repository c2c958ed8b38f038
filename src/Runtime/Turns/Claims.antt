-- ===== src/Runtime/Turns/Claims.antt =====
-- What a claim of a turn hands out, and that two workers never run one turn.
use mathlib.Core.List.{Memᴰ}
use astra_agent.Base.{
  ◌≤◌, ◌<◌, ◌≡◌, refl, true, Option, none, some, arith, All, All-imp, All-mem, All-of_mem, find,
  find-test, find-mem, sort, ascending, ascending-IsOrder, find-sort_least, sort-All, leb→le,
}
use astra_agent.Base.Dict.{get, put, values, get-put_self}
use astra_agent.Base.Exec.{ok, ◌>>=◌}
use astra_agent.Domain.Models.{Uuid, Instant, ConversationTurn}
use astra_agent.Runtime.State.{Store, Env}
use astra_agent.Runtime.Turns.{
  claim_pending_turn, claim_turn, claim_found, claimed_turn, is_due, latest_expiry,
  validate_run_lease_expiry,
}

-- What every claim does that hands out a turn: it stores `turn`, running under the lease.
pub record IsClaim (env : Env) (l : Uuid) (x : Instant) (s s' : Store) (turn c : ConversationTurn)
    : Type 0 where
  pub starts : env.now 0 < x
  pub ends : x ≤ latest_expiry (env.now 0)
  pub result : c ≡ claimed_turn (env.now 1) l x turn
  pub stored : s'.turns ≡ put s.turns turn.id c

module _ (env : Env) (t l : Uuid) (x : Instant) (s : Store) where
  abbrev candidate : Option ConversationTurn
  candidate = find (is_due t (env.now 1)) (sort (ascending (λ j. j.created_at)) (values s.turns))

  pending_cases :
      (c : ConversationTurn)
      → (claim_pending_turn env t l x s).0 ≡ ok (some c)
      → (turn : ConversationTurn) × (candidate ≡ some turn)
        × IsClaim env l x s (claim_pending_turn env t l x s).1 turn c
  unfolding claim_pending_turn validate_run_lease_expiry claim_found ◌>>=◌
  pending_cases c h = inspect candidate refl
    where
      inspect :
          (o : Option ConversationTurn)
          → candidate ≡ o
          → (turn : ConversationTurn) × (candidate ≡ some turn)
            × IsClaim env l x s (claim_pending_turn env t l x s).1 turn c
      inspect none e = ground (arith, h, e)
      inspect (some turn) e = (
        turn,
        e,
        record {
          starts = ground (arith, h, e);
          ends = ground (arith, h, e);
          result = ground (arith, h, e);
          stored = ground (arith, h, e);
        },
      )

  -- A claim hands out the oldest due turn of the tenant: pending, or running under a lease that has
  -- ended. It now runs under the caller's lease, which ends within 15 minutes, and is stored so.
  pub claim_pending_turn-oldest :
      (c : ConversationTurn)
      → (claim_pending_turn env t l x s).0 ≡ ok (some c)
      → (turn : ConversationTurn) × Memᴰ turn (values s.turns)
        × (is_due t (env.now 1) turn ≡ true)
        × All (λ u. is_due t (env.now 1) u ≡ true → turn.created_at ≤ u.created_at) (values s.turns)
        × IsClaim env l x s (claim_pending_turn env t l x s).1 turn c
        × (get (claim_pending_turn env t l x s).1.turns c.id ≡ some c)
  claim_pending_turn-oldest c h =
      let (turn, e, claim) = pending_cases c h in
      let p = is_due t (env.now 1) in
      let all = sort (ascending (λ (j : ConversationTurn). j.created_at)) (values s.turns) in
      (
        turn,
        All-mem (λ j. Memᴰ j (values s.turns)) all
            (sort-All _ _ (values s.turns) (All-of_mem _ (values s.turns) (λ j m. m)))
            (find-mem p all e),
        find-test p all e,
        All-imp _ _ (λ u first hit. leb→le turn.created_at u.created_at (first hit))
            (values s.turns)
            (find-sort_least _ (ascending-IsOrder (λ j. j.created_at)) p (values s.turns) e),
        claim,
        rw claim.stored (rw claim.result (get-put_self s.turns turn.id _)),
      )

-- A call of either method, for a tenant, that hands out `c` and leaves the store `s'`.
pub data HandsOut (env : Env) (t l : Uuid) (x : Instant) (s s' : Store) (c : ConversationTurn)
    : Type 0 where
  next : claim_pending_turn env t l x s ≡ (ok (some c), s') → HandsOut env t l x s s' c
  this : (k : Uuid) → claim_turn env t k l x s ≡ (ok (some c), s') → HandsOut env t l x s s' c
