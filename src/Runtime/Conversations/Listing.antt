-- ===== src/Runtime/Conversations/Listing.antt =====
-- What `list_messages` shows.
use mathlib.Core.List.{Memᴰ}
use astra_agent.Base.{
  ◌≡◌, ◌≤◌, ◌==◌, ◌-◌, refl, true, false, some, List, arith, All, All-of_mem, All-mem, All-sort,
  filter, filter-mem, mem-filter, drop, take, take-drop, take-drop_rest, length, ◌⊎◌, ◌++◌, [],
  sort, sort-All, ascending, ascending-IsOrder, IsSorted, sort-IsSorted, ==_refl, ℕ,
}
use astra_agent.Base.Dict.{get, values}
use astra_agent.Base.Exec.{ok, ◌>>=◌}
use astra_agent.Domain.Models.{Uuid, Conversation, ConversationMessage}
use astra_agent.Runtime.State.{Store}
use astra_agent.Runtime.Conversations.{list_messages, in_conversation}

module _ (t c : Uuid) (limit : ℕ) (s : Store) (conversation : Conversation) where
  -- With a limit that is not 0 the list of a conversation of the tenant ends the sequence of all its
  -- stored messages from the oldest to the latest: it has as many as the limit, or at most as many
  -- and no message is left out.
  pub list_messages-lists :
      get s.conversations c ≡ some conversation
      → conversation.tenant_id ≡ t
      → 1 ≤ limit
      → (earlier r : List ConversationMessage) × (list_messages t c limit s ≡ (ok r, s))
        × ((length r ≡ limit) ⊎ ((length r ≤ limit) × (earlier ≡ [])))
        × All (λ m. Memᴰ m (values s.messages) × (in_conversation t c m ≡ true)) (earlier ++ r)
        × All (λ m. in_conversation t c m ≡ true → Memᴰ m (earlier ++ r)) (values s.messages)
        × IsSorted (ascending (λ m. m.created_at)) (earlier ++ r)
  unfolding list_messages ◌>>=◌
  list_messages-lists found owner positive =
      let le = ascending (λ (m : ConversationMessage). m.created_at) in
      let p = in_conversation t c in
      let own : (conversation.tenant_id == t) ≡ true =
        rw (← owner) (==_refl conversation.tenant_id) in
      let some_limit : (limit == 0) ≡ false = ground (arith, positive) in
      let kept = filter p (values s.messages) in
      let all = sort le kept in
      let n = length all - limit in
      let whole = take-drop n all in
      let all_kept : All (λ m. Memᴰ m kept) kept = All-of_mem _ kept (λ m here. here) in
      let kept_all : All (λ m. Memᴰ m all) kept =
        All-sort le _ kept (All-of_mem _ all (λ m here. here)) in
      (
        take n all,
        drop n all,
        rw (found, own, some_limit) refl,
        take-drop_rest limit all,
        rw whole (
            sort-All le _ kept
              (All-of_mem _ kept (λ m here. filter-mem p (values s.messages) here))),
        rw whole (
            All-of_mem _ (values s.messages) (λ m here hit.
              All-mem (λ x. Memᴰ x all) kept kept_all (mem-filter p (values s.messages) here hit))),
        rw whole (sort-IsSorted le (ascending-IsOrder (λ m. m.created_at)) kept),
      )
