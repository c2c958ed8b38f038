-- ===== src/Runtime/Turns/Requests.antt =====
-- A client that repeats a request: the turn is created once.
use astra_agent.Base.{◌≡◌, ◌==◌, ◌&&◌, refl, Bool, some, none, List, arith, find, Option}
use astra_agent.Base.Dict.{values, find-put}
use astra_agent.Base.Exec.{ok, ◌>>=◌}
use astra_agent.Domain.Models.{
  Uuid, ConversationMessage, ConversationTurn, AuditEvent, BackgroundJob,
}
use astra_agent.Runtime.State.{Store}
use astra_agent.Runtime.Turns.{create_turn, create_new, same_request}

abbrev is_request : Uuid → Uuid → ConversationTurn → Bool
is_request tenant_id request_id item =
    item.tenant_id == tenant_id && item.client_request_id == request_id

repeat_found :
    (m : ConversationMessage) (t : ConversationTurn) (evs : List AuditEvent) (j : BackgroundJob)
    (s : Store) (first r : ConversationTurn)
    → same_request t ≡ same_request first
    → find (same_request first) (values s.turns) ≡ some r
    → create_turn m t evs j s ≡ (ok r, s)
unfolding create_turn create_new ◌>>=◌
repeat_found m t evs j s first r same e = rw same (rw e refl)

module _ (m : ConversationMessage) (t : ConversationTurn) (evs : List AuditEvent)
    (j : BackgroundJob) (s : Store) where
  create_cases :
      (r : ConversationTurn)
      → (create_turn m t evs j s).0 ≡ ok r
      → find (same_request t) (values (create_turn m t evs j s).1.turns) ≡ some r
  unfolding create_turn create_new ◌>>=◌
  create_cases r h = inspect (find (same_request t) (values s.turns)) refl
    where
      inspect :
          (o : Option ConversationTurn)
          → find (same_request t) (values s.turns) ≡ o
          → find (same_request t) (values (create_turn m t evs j s).1.turns) ≡ some r
      inspect none e = ground (arith, h, e, find-put (same_request t) s.turns t.id t)
      inspect (some x) e = ground (arith, h, e)

  -- Once a turn was created or found, a repeated request of the same tenant under the same request
  -- id returns that turn, whatever new ids, message, events and job it brings, and changes nothing.
  pub create_turn-repeat :
      (r : ConversationTurn)
      → (create_turn m t evs j s).0 ≡ ok r
      → (m' : ConversationMessage) (t' : ConversationTurn) (evs' : List AuditEvent)
        (j' : BackgroundJob)
      → t'.tenant_id ≡ t.tenant_id
      → t'.client_request_id ≡ t.client_request_id
      → create_turn m' t' evs' j' (create_turn m t evs j s).1 ≡ (ok r, (create_turn m t evs j s).1)
  create_turn-repeat r h m' t' evs' j' owner request =
      repeat_found m' t' evs' j' (create_turn m t evs j s).1 t r
        (λ i. is_request (owner i) (request i)) (create_cases r h)
