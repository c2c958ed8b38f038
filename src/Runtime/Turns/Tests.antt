-- ===== src/Runtime/Turns/Tests.antt =====
-- Runs of the turns, and their theorems at them.
use astra_agent.Base.{◌≡◌, refl, some, [], ◌∷◌, find, sort}
use astra_agent.Base.Dict.{get, put, values}
use astra_agent.Base.Exec.{ok, ◌>>=◌}
use astra_agent.Domain.Models.{ConversationTurn}
use astra_agent.Runtime.State.{Store}
use astra_agent.Runtime.Samples.{
  env, env_at, job, user_message, assistant_message, turn, late_turn, two_turns, conversation_open,
}
use astra_agent.Runtime.Turns.{
  claim_pending_turn, claim_turn, claim_found, validate_run_lease_expiry, claimed_turn, create_turn,
  create_new,
}
use astra_agent.Runtime.Turns.Requests.{create_turn-repeat}

abbrev claimed : ConversationTurn
claimed = claimed_turn 1000 20 5000 turn

abbrev one_claimed : Store
one_claimed = record conversation_open { turns = (61, late_turn) ∷ (60, claimed) ∷ [] }

claims_first : (claim_pending_turn env 1 20 5000 two_turns).0 ≡ ok (some claimed)
unfolding claim_pending_turn validate_run_lease_expiry claim_found find sort values put get ◌>>=◌
claims_first = refl

abbrev claimed_second : ConversationTurn
claimed_second = claimed_turn 1500 21 6000 late_turn

abbrev after_first : Store
after_first = (claim_pending_turn env 1 20 5000 two_turns).1

abbrev after_second : Store
after_second = (claim_turn (env_at 1500) 1 61 21 6000 after_first).1

creates : (create_turn user_message turn [] job conversation_open).0 ≡ ok turn
unfolding create_turn create_new find values get ◌>>=◌
creates = refl

create_turn-repeat_example :
    create_turn assistant_message
      (record turn { id = 99 })
      []
      job
      (create_turn user_message turn [] job conversation_open).1
    ≡ (ok turn, (create_turn user_message turn [] job conversation_open).1)
create_turn-repeat_example =
    create_turn-repeat user_message turn [] job conversation_open turn creates assistant_message
      (record turn { id = 99 }) [] job refl refl
