-- ===== src/Runtime/Memories/Tests.antt =====
-- A candidate that replaces a promoted memory, and the theorems at it.
use astra_agent.Base.{◌≡◌, refl, true, some, none, List, [], ◌∷◌}
use astra_agent.Base.Dict.{get}
use astra_agent.Base.Exec.{ok, err, conflict, ◌>>=◌}
use astra_agent.Domain.Models.{MemoryRecord}
use astra_agent.Runtime.State.{init}
use astra_agent.Runtime.Samples.{env, fact, old_fact, two_facts}
use astra_agent.Runtime.Memories.{
  review_memory, find_replacement, retire_replacement, reviewed_memory,
}
use astra_agent.Runtime.Memories.Unique.{
  Call, upsert, review, delete, calls, IsUnique, calls-IsUnique,
}

abbrev new_fact : MemoryRecord
new_fact = reviewed_memory 1000 true 2 (some 101) fact

replaces : (review_memory env 1 100 true 2 (some 101) two_facts).0 ≡ ok new_fact
unfolding review_memory find_replacement retire_replacement get ◌>>=◌
replaces = refl

-- A promoted memory is not reviewed again.
refuses :
    (review_memory env 1 101 true 2 none two_facts).0
    ≡ err (conflict "only candidate memories can be reviewed")
unfolding review_memory get ◌>>=◌
refuses = refl

abbrev history : List Call
history =
    upsert old_fact []
    ∷ upsert fact []
    ∷ upsert (record fact { id = 102 }) []
    ∷ review env 1 100 true 2 (some 101)
    ∷ delete env 1 100 2
    ∷ []

no_memories : IsUnique init.memories
unfolding get
no_memories j k a b at_j at_k clash = cc at_j

calls-IsUnique_example : IsUnique (calls history init).memories
calls-IsUnique_example = calls-IsUnique history init no_memories
