-- ===== src/Runtime/Delegation/Outcomes.antt =====
-- What a plan's delegation leaves behind when it returns and when it raises.
use astra_agent.Base.{
  ◌≡◌, ◌⊎◌, inl, inr, ap, sym, length, not, is_empty, ◌∙◌, Bool-cases, refl, ℕ, ◌+◌, true, some,
  List, [], ◌∷◌, arith, ◌&&◌, ◌==◌, holds,
}
use astra_agent.Base.Dict.{get, get-put_self}
use astra_agent.Base.Exec.{ok, err, conflict, Failure, Result, ◌>>=◌}
use astra_agent.Domain.Models.{Uuid, Json, Task, ToolInvocation, ConversationTurn}
use astra_agent.Runtime.State.{Store, Env}
use astra_agent.Runtime.Turns.{active_turn, paused_turn, is_claimed}
use astra_agent.Runtime.Turns.Leases.{active_turn-cases}
use astra_agent.Runtime.Delegation.{create_delegated_tasks, assign, store_delegations}
use astra_agent.Runtime.Delegation.Targets.{Assigned, assign-Assigned, assign_keeps}

module _ (env : Env) (t k : Uuid) where
  stores_turns :
      (n : ℕ) (tasks : List Task) (invocations : List ToolInvocation) (s : Store)
      → (store_delegations env t k n tasks invocations s).1.turns ≡ s.turns
  unfolding store_delegations ◌>>=◌
  stores_turns n [] invocations s = refl
  stores_turns n (x ∷ tasks) [] s = refl
  stores_turns n (x ∷ tasks) (i ∷ invocations) s =
      elim (Bool-cases (holds i.task_id x.id && i.turn_id == k)) [
        | inl hit ↦ rw hit (stores_turns (n + 2) tasks invocations _)
        | inr miss ↦ rw miss refl
      ]

  stores_raises :
      (n : ℕ) (tasks : List Task) (invocations : List ToolInvocation) (s : Store) (e : Failure)
      → (store_delegations env t k n tasks invocations s).0 ≡ err e
      → e ≡ conflict "delegation invocation ownership mismatch"
  unfolding store_delegations ◌>>=◌
  stores_raises n [] invocations s e h = ground (arith, h)
  stores_raises n (x ∷ tasks) [] s e h = ground (arith, h)
  stores_raises n (x ∷ tasks) (i ∷ invocations) s e h =
      elim (Bool-cases (holds i.task_id x.id && i.turn_id == k)) [
        | inl hit ↦ stores_raises (n + 2) tasks invocations _ e (rw hit at h)
        | inr miss ↦ ground (arith, miss, h)
      ]

module _ (env : Env) (t k l : Uuid) (tasks : List Task) (invocations : List ToolInvocation)
    (checkpoint : Json) (s : Store) where
  abbrev run : Result (List Task) × Store
  run = create_delegated_tasks env t k l tasks invocations checkpoint s

  -- The cases of a delegation: it is refused before anything is written, or a task is refused, or it
  -- goes through.
  data Outcome : Result (List Task) × Store → Type 0 where
    refused : (e : Failure) → Outcome (err e, s)
    mismatch :
        (s' : Store) → Outcome (err (conflict "delegation invocation ownership mismatch"), s')
    delegated :
        (given : List Task) (turn : ConversationTurn) (s' : Store)
        → (assign env t 0 [] tasks s).0 ≡ ok given
        → get s.turns k ≡ some turn
        → is_claimed (env.now 0) l turn ≡ true
        → get s'.turns k ≡ some (paused_turn (env.now 1) checkpoint turn)
        → Outcome (ok given, s')

  stored-Outcome :
      (given : List Task) (turn : ConversationTurn)
      → (length tasks == length invocations && not (is_empty tasks)) ≡ true
      → active_turn env t k l s ≡ (ok turn, s)
      → get s.turns k ≡ some turn
      → is_claimed (env.now 0) l turn ≡ true
      → assign env t 0 [] tasks s ≡ (ok given, s)
      → (r : Result ℕ) (s' : Store) → store_delegations env t k 0 given invocations s ≡ (r, s')
      → Outcome run
  unfolding create_delegated_tasks ◌>>=◌
  stored-Outcome given turn test active found claimed targets (err e) s' stored =
      let bad = stores_raises env t k 0 given invocations s e (ap (λ p. p.0) stored) in
      rw (test, active, targets, stored, bad) (mismatch s')
  stored-Outcome given turn test active found claimed targets (ok n) s' stored =
      let same : s'.turns ≡ s.turns =
        ap (λ p. p.1.turns) (sym stored) ∙ stores_turns env t k 0 given invocations s in
      rw (test, active, targets, stored, same, found)
        (delegated given turn _ (ap (λ p. p.0) targets) found claimed (get-put_self s.turns k _))

  targets-Outcome :
      (turn : ConversationTurn)
      → (length tasks == length invocations && not (is_empty tasks)) ≡ true
      → active_turn env t k l s ≡ (ok turn, s)
      → get s.turns k ≡ some turn
      → is_claimed (env.now 0) l turn ≡ true
      → (r : Result (List Task)) → assign env t 0 [] tasks s ≡ (r, s)
      → Outcome run
  unfolding create_delegated_tasks ◌>>=◌
  targets-Outcome turn test active found claimed (err e) targets =
      rw (test, active, targets) (refused e)
  targets-Outcome turn test active found claimed (ok given) targets =
      stored-Outcome given turn test active found claimed targets
        (store_delegations env t k 0 given invocations s).0 _ refl

  outcome : Outcome run
  unfolding create_delegated_tasks ◌>>=◌
  outcome = elim (Bool-cases (length tasks == length invocations && not (is_empty tasks))) [
    | inr bad ↦ rw bad (refused _)
    | inl test ↦ elim (active_turn-cases env t k l s) [
      | inr (e, inactive) ↦ rw (test, inactive) (refused e)
      | inl (turn, active, found, claimed) ↦
          targets-Outcome turn test active found claimed (assign env t 0 [] tasks s).0
            (λ i. ((assign env t 0 [] tasks s).0, assign_keeps env t s 0 [] tasks i))
    ]
  ]

  -- A delegation that returns was asked for by the holder of the turn's lease. It has given each task
  -- a target, the most trusted eligible agent that was not chosen for an earlier task, and has
  -- paused the turn.
  pub create_delegated_tasks-Assigned :
      (assigned : List Task)
      → run.0 ≡ ok assigned
      → Assigned env t s 0 [] tasks assigned
        × (turn : ConversationTurn) × (get s.turns k ≡ some turn)
        × (is_claimed (env.now 0) l turn ≡ true)
        × (get run.1.turns k ≡ some (paused_turn (env.now 1) checkpoint turn))
  create_delegated_tasks-Assigned assigned h = read run outcome h
    where
      read :
          (r : Result (List Task) × Store)
          → Outcome r
          → r.0 ≡ ok assigned
          → Assigned env t s 0 [] tasks assigned
            × (turn : ConversationTurn) × (get s.turns k ≡ some turn)
            × (is_claimed (env.now 0) l turn ≡ true)
            × (get r.1.turns k ≡ some (paused_turn (env.now 1) checkpoint turn))
      read _ (refused e) h = cc h
      read _ (mismatch s') h = cc h
      read _ (delegated given turn s' targets found claimed paused) h =
          (assign-Assigned env t s 0 [] tasks assigned (targets ∙ h), turn, found, claimed, paused)

  -- A delegation that raises has changed nothing, unless it met an invocation that does not belong
  -- to its task or to the turn.
  pub create_delegated_tasks-refused :
      (e : Failure)
      → run.0 ≡ err e
      → (run.1 ≡ s) ⊎ (e ≡ conflict "delegation invocation ownership mismatch")
  create_delegated_tasks-refused e h = read run outcome h
    where
      read :
          (r : Result (List Task) × Store)
          → Outcome r
          → r.0 ≡ err e
          → (r.1 ≡ s) ⊎ (e ≡ conflict "delegation invocation ownership mismatch")
      read _ (refused f) h = inl refl
      read _ (mismatch s') h = inr (cc h)
      read _ (delegated given turn s' targets found claimed paused) h = cc h
