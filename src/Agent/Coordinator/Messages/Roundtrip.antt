-- ===== src/Agent/Coordinator/Messages/Roundtrip.antt =====
-- What is read back from a checkpoint of messages and tool calls.
use astra_agent.Base.{◌≡◌, refl, List, [], ◌∷◌, Option, some}
use astra_agent.Domain.Models.{Json}
use astra_agent.Agent.Coordinator.Messages.{dump_all, validate_all}

-- A validation that accepts what was dumped gives the list back.
pub validate_all-dump_all :
    {A : Type 0} (dump : A → Json) (validate : Json → Option A)
    → ((item : A) → validate (dump item) ≡ some item)
    → (items : List A) → validate_all validate (dump_all dump items) ≡ some items
unfolding validate_all dump_all
validate_all-dump_all dump validate back [] = refl
validate_all-dump_all dump validate back (item ∷ items) =
    rw (validate_all-dump_all dump validate back items, back item) refl
