-- ===== src/Memory/Recall/Tests.antt =====
-- A recall of two memories, and the theorems at it.
use mathlib.Core.List.{Memᴰ}
use astra_agent.Base.{
  ◌≤◌, ◌≡◌, ◌⊎◌, refl, arith, String, true, List, [], ◌∷◌, length, All, filter, sort, any,
}
use astra_agent.Base.Dict.{get, put, values}
use astra_agent.Base.Exec.{ok, ◌>>=◌}
use astra_agent.Domain.Models.{MemoryRecord}
use astra_agent.Policy.Planner.{contains}
use astra_agent.Runtime.State.{Store, init}
use astra_agent.Runtime.Samples.{old_fact}
use astra_agent.Runtime.Memories.{list_memories}
use astra_agent.Memory.Compiler.{ContextBriefing}
use astra_agent.Memory.Compiler.Bounds.{IsWithin}
use astra_agent.Memory.Recall.{
  recall, select, relevance, hits, words, runs, split_runs, distinct, by_id, compile_memories,
}
use astra_agent.Memory.Recall.Order.{IsAuthorized, goes_before, recall-selects}
use astra_agent.Memory.Recall.Briefings.{IsSource, compile_memories-IsWithin}

abbrev same : String → String
same s = s

abbrev python : MemoryRecord
python = record old_fact { visibility = "private"; content = "uses python" }

abbrev rust : MemoryRecord
rust = record python { id = 100; content = "uses rust" }

abbrev store : Store
store = record init { memories = (100, rust) ∷ (101, python) ∷ [] }

-- The memory with the objective's word goes first.
recalls_python : (recall same 1 1 "which python?" store).0 ≡ ok (python ∷ [])
unfolding recall list_memories select relevance hits words runs split_runs distinct by_id filter
    sort any contains put values ◌>>=◌
recalls_python = refl

recall-selects_example :
    (r : List MemoryRecord) × (recall same 1 1 "which python?" store ≡ (ok r, store))
    × (length r ≤ 1)
    × All (IsAuthorized 1 store) r
    × ((m : MemoryRecord)
        → IsAuthorized 1 store m
        → Memᴰ m r ⊎ ((length r ≡ 1) × All (λ x. goes_before same "which python?" x m ≡ true) r))
unfolding get
recall-selects_example =
    recall-selects same 1 1 "which python?" store (refl, refl, (refl, refl, tt))

compile_memories-IsWithin_example :
    (b : ContextBriefing) × (compile_memories same "kernel" 100 1 1 "which python?" store
      ≡ (ok b, store))
    × (b.tenant_id ≡ 1)
    × IsWithin 100 b
    × All (IsSource same "kernel" 100 1 1 "which python?" store b) b.source_memory_ids
unfolding get
compile_memories-IsWithin_example =
    compile_memories-IsWithin same "kernel" 100 1 1 "which python?" store (omega arith)
      (refl, refl, (refl, refl, tt))
