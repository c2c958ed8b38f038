-- ===== src/Runtime/Memories/Listing.antt =====
-- What `list_memories` shows.
use mathlib.Core.List.{Memᴰ}
use astra_agent.Base.{
  ◌≡◌, refl, Bool, true, List, All, All-mem, All-of_mem, All-filter, filter, filter-All,
  filter-test, sort, sort-All, All-sort, ascending, IsSorted, sort-IsSorted, ascending-IsOrder,
  filter-IsSorted,
}
use astra_agent.Base.Dict.{values}
use astra_agent.Base.Exec.{ok, ◌>>=◌}
use astra_agent.Domain.Models.{Uuid, MemoryRecord}
use astra_agent.Runtime.State.{Store}
use astra_agent.Runtime.Memories.{list_memories, is_listed}

module _ (t : Uuid) (candidates : Bool) (s : Store) where
  -- The list holds exactly the tenant's stored memories that stand, without the candidates and the
  -- rejected ones unless they are asked for, from the longest unchanged to the latest.
  pub list_memories-lists :
      (r : List MemoryRecord) × (list_memories t candidates s ≡ (ok r, s))
      × All (λ m. Memᴰ m (values s.memories) × (is_listed t candidates m ≡ true)) r
      × All (λ m. is_listed t candidates m ≡ true → Memᴰ m r) (values s.memories)
      × IsSorted (ascending (λ m. m.updated_at)) r
  unfolding list_memories ◌>>=◌
  list_memories-lists =
      let le = ascending (λ (m : MemoryRecord). m.updated_at) in
      let p = is_listed t candidates in
      let all = sort le (values s.memories) in
      let kept = filter p all in
      let from_store : All (λ m. Memᴰ m (values s.memories)) kept =
        filter-All p _ all
          (sort-All le _ (values s.memories) (All-of_mem _ (values s.memories) (λ m here. here))) in
      (
        kept,
        refl,
        All-of_mem _ kept (λ m here. (
          All-mem (λ x. Memᴰ x (values s.memories)) kept from_store here,
          All-mem (λ x. p x ≡ true) kept (filter-test p all) here,
        )),
        All-sort le _ (values s.memories)
            (All-filter p (λ m. Memᴰ m kept) all (All-of_mem _ kept (λ m here. here))),
        filter-IsSorted le p all
            (sort-IsSorted le (ascending-IsOrder (λ m. m.updated_at)) (values s.memories)),
      )
