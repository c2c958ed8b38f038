-- ===== src/Memory/Recall/Order.antt =====
-- Which memories are recalled, and in which order.
use mathlib.Core.List.{Memᴰ}
use astra_agent.Base.{
  ℕ, ◌≤◌, ◌≡◌, ◌⊎◌, refl, ap, String, Bool, true, false, some, List, [], ◌∷◌, arith, filter, sort,
  take, length, All, All-mem, All-of_mem, IsOrder, sort-IsSorted, All-sort, sort-All, filter-mem,
  mem-filter, first_by, sort-first_by, first_by-IsOrder, take-All, length-take_le, take-sorted,
}
use astra_agent.Base.Dict.{
  Dict, get, put, values, Each, Each-put, values-All, get-put, get-put_self, get-mem, IsIndex,
  mem-get,
}
use astra_agent.Base.Exec.{ok, ◌>>=◌}
use astra_agent.Domain.Models.{Uuid, MemoryRecord}
use astra_agent.Runtime.State.{Store}
use astra_agent.Runtime.Memories.{is_listed}
use astra_agent.Runtime.Memories.Listing.{list_memories-lists}
use astra_agent.Memory.Recall.{ranks_before, select, recall, by_id, is_private}

module _ (casefold : String → String) (objective : String) where
  ranks_before-IsOrder : IsOrder (ranks_before casefold objective)
  ranks_before-IsOrder = record {
    total = λ a b h. ground arith;
    trans = λ a b c h k. ground arith;
    self = λ a. ground arith;
  }

  -- A pinned memory goes before one that is not, else by rank.
  abbrev pub goes_before : MemoryRecord → MemoryRecord → Bool
  goes_before = first_by (ranks_before casefold objective) (λ item. item.pinned)

  -- The recalled memories are the first `memory_limit` of one sort: pinned ones first, then by the
  -- number of the objective's words that they hold, the highest first, then by id.
  pub select-sorts :
      (memory_limit : ℕ) (items : List MemoryRecord)
      → select casefold memory_limit objective items ≡ take memory_limit (sort goes_before items)
  unfolding select
  select-sorts n items = ap (take n) (
      sort-first_by (ranks_before casefold objective) ranks_before-IsOrder (λ item. item.pinned)
        items)

  select-mem :
      (n : ℕ) (items : List MemoryRecord) {m : MemoryRecord}
      → Memᴰ m items
      → Memᴰ m (select casefold n objective items)
        ⊎ ((length (select casefold n objective items) ≡ n)
            × All (λ x. goes_before x m ≡ true) (select casefold n objective items))
  select-mem n items {m} there =
      let order =
        first_by-IsOrder (ranks_before casefold objective) ranks_before-IsOrder
          (λ item. item.pinned) in
      let ranked = sort goes_before items in
      let in_ranked : Memᴰ m ranked =
        All-mem (λ x. Memᴰ x ranked) items
          (All-sort goes_before _ items (All-of_mem _ ranked (λ x here. here))) there in
      rw (select-sorts n items)
        (take-sorted goes_before n ranked {v = m} (sort-IsSorted goes_before order items) in_ranked)

-- The dictionary of a list by id holds only the list's elements, and each of them that is the only
-- one of the list under its id.
by_id-All :
    (P : MemoryRecord → Type 0) (items : List MemoryRecord) (d : Dict MemoryRecord)
    → All P items
    → Each (λ _ v. P v) d
    → Each (λ _ v. P v) (by_id items d)
unfolding by_id
by_id-All P [] d h e = e
by_id-All P (item ∷ items) d h e =
    by_id-All P items (put d item.id item) h.1 (Each-put (λ _ v. P v) d item.id item h.0 e)

by_id-keeps :
    (items : List MemoryRecord) (d : Dict MemoryRecord) (m : MemoryRecord)
    → get d m.id ≡ some m
    → All (λ x. x.id ≡ m.id → x ≡ m) items
    → get (by_id items d) m.id ≡ some m
unfolding by_id
by_id-keeps [] d m e h = e
by_id-keeps (item ∷ items) d m e h =
    by_id-keeps items (put d item.id item) m (ground (arith, get-put d item.id m.id item, e, h.0))
      h.1

by_id-get :
    (items : List MemoryRecord) (d : Dict MemoryRecord) (m : MemoryRecord)
    → Memᴰ m items
    → All (λ x. x.id ≡ m.id → x ≡ m) items
    → get (by_id items d) m.id ≡ some m
unfolding by_id
by_id-get [] d m there h = elim there [ ]
by_id-get (item ∷ items) d m (Memᴰ.head e) h =
    by_id-keeps items (put d item.id item) m (rw e (get-put_self d item.id item)) h.1
by_id-get (item ∷ items) d m (Memᴰ.tail later) h = by_id-get items (put d item.id item) m later h.1

module _ (t : Uuid) (s : Store) where
  -- What may be recalled: a stored, promoted, private memory of the tenant.
  abbrev pub IsAuthorized : MemoryRecord → Type 0
  IsAuthorized m = Memᴰ m (values s.memories) × (is_listed t false m ≡ true) × (is_private m ≡ true)

  -- The private ones of a list, by id.
  abbrev candidates : List MemoryRecord → List MemoryRecord
  candidates listed = values (by_id (filter is_private listed) [])

  candidates-IsAuthorized :
      (listed : List MemoryRecord)
      → All (λ m. Memᴰ m (values s.memories) × (is_listed t false m ≡ true)) listed
      → All IsAuthorized (candidates listed)
  candidates-IsAuthorized listed sound =
      values-All IsAuthorized (by_id (filter is_private listed) []) (
        by_id-All IsAuthorized (filter is_private listed) []
          (All-of_mem IsAuthorized (filter is_private listed) λ m here.
            let (there, hit) = filter-mem is_private listed here in
            let (stored, standing) = All-mem _ listed sound there in (stored, standing, hit))
          tt)

  candidates-mem :
      (listed : List MemoryRecord) (m : MemoryRecord)
      → IsIndex (λ (x : MemoryRecord). x.id) s.memories
      → All (λ x. Memᴰ x (values s.memories) × (is_listed t false x ≡ true)) listed
      → Memᴰ m listed
      → is_private m ≡ true
      → Memᴰ m (candidates listed)
  candidates-mem listed m index sound there hit =
      let here = mem-filter is_private listed there hit in
      let stored_at : (x : MemoryRecord)
          → Memᴰ x (values s.memories)
          → get s.memories x.id ≡ some x =
        λ x y. mem-get (λ (v : MemoryRecord). v.id) s.memories {v = x} index y in
      let mine = stored_at m (All-mem _ listed sound there).0 in
      get-mem (by_id (filter is_private listed) []) m.id (
        by_id-get (filter is_private listed) [] m here (
          All-of_mem _ (filter is_private listed) λ x at same_id.
            let theirs =
              stored_at x (All-mem _ listed sound (filter-mem is_private listed at).0).0 in
            cc (mine, theirs, same_id)))

module _ (casefold : String → String) (n : ℕ) (t : Uuid) (objective : String) (s : Store) where
  -- In a store whose memories stand under their own ids, a recall returns at most `memory_limit`
  -- memories, all of them stored, promoted, private and the tenant's, and leaves the store as it is.
  -- Such a memory is left out only when the limit is reached by memories that go before it: pinned
  -- ones before others, then those with more of the objective's words, then by id.
  pub recall-selects :
      IsIndex (λ (x : MemoryRecord). x.id) s.memories
      → (r : List MemoryRecord) × (recall casefold n t objective s ≡ (ok r, s))
        × (length r ≤ n)
        × All (IsAuthorized t s) r
        × ((m : MemoryRecord)
            → IsAuthorized t s m
            → Memᴰ m r ⊎ ((length r ≡ n) × All (λ x. goes_before casefold objective x m ≡ true) r))
  unfolding recall ◌>>=◌
  recall-selects index =
      let (listed, run, sound, complete, ordered) = list_memories-lists t false s in
      let items = candidates t s listed in
      let sorted = select-sorts casefold objective n items in
      (
        select casefold n objective items,
        rw run refl,
        rw sorted (length-take_le n (sort (goes_before casefold objective) items)),
        rw sorted (
            take-All (IsAuthorized t s) n (sort (goes_before casefold objective) items) (
              sort-All (goes_before casefold objective) (IsAuthorized t s) items
                (candidates-IsAuthorized t s listed sound))),
        λ m authorized.
            let (stored, standing, hit) = authorized in
            select-mem casefold objective n items (
              candidates-mem t s listed m index sound
                (All-mem _ (values s.memories) complete stored standing) hit),
      )
