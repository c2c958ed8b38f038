-- ===== src/Agent/Recollection/Sessions.antt =====
-- What a search of the earlier sessions finds.
use mathlib.Core.List.{Memᴰ}
use astra_agent.Base.{
  ℕ, Bool, ◌≡◌, ◌≤◌, ◌==◌, ◌⊎◌, inl, inr, refl, true, false, List, [], ◌∷◌, ◌++◌, arith, All,
  All-append, All-mem, All-of_mem, All-sort, filter, filter-mem, mem-filter, sort, sort-All,
  sort-IsSorted, descending, IsOrder, ap, take, take-All, take-sorted, length, length-take_le,
  Bool-cases, ==→eq, ==_refl,
}
use Prim.Native.String.{String}
use astra_agent.Base.Dict.{values, IsIndex, mem-get}
use astra_agent.Base.Exec.{ok, ◌>>=◌}
use astra_agent.Base.Text.{text_leb_total, text_leb_trans, text_leb_self}
use astra_agent.Domain.Models.{Uuid, Instant, Conversation, ConversationMessage}
use astra_agent.Runtime.State.{Store}
use astra_agent.Runtime.Conversations.{list_conversations, list_messages, in_conversation}
use astra_agent.Runtime.Conversations.Listing.{list_messages-lists}
use astra_agent.Memory.Recall.{words, distinct}
use astra_agent.Agent.Recollection.{
  Match, goes_first, score, match_of, scan_messages, scan_conversations, session_matches,
}

-- The words of a query.
abbrev pub terms_of : (String → String) → String → List String
terms_of casefold query = distinct (words (casefold query))

goes_first-IsOrder : IsOrder goes_first
goes_first-IsOrder = record {
  total = λ a b h. ground (arith, text_leb_total a.created_at b.created_at);
  trans = λ a b c h k. ground (arith, text_leb_trans a.created_at b.created_at c.created_at);
  self = λ a. ground (arith, text_leb_self a.created_at);
}

mem-left : {A : Type 0} {x : A} (xs ys : List A) → Memᴰ x xs → Memᴰ x (xs ++ ys)
mem-left [] ys m = elim m [ ]
mem-left (y ∷ xs) ys (Memᴰ.head e) = Memᴰ.head e
mem-left (y ∷ xs) ys (Memᴰ.tail m) = Memᴰ.tail (mem-left xs ys m)

mem-right : {A : Type 0} {x : A} (xs ys : List A) → Memᴰ x ys → Memᴰ x (xs ++ ys)
mem-right [] ys m = m
mem-right (y ∷ xs) ys m = Memᴰ.tail (mem-right xs ys m)

All-right : {A : Type 0} (P : A → Type 0) (xs ys : List A) → All P (xs ++ ys) → All P ys
All-right P [] ys h = h
All-right P (x ∷ xs) ys h = All-right P xs ys h.1

-- A conversation of the user.
abbrev pub IsOwn : Uuid → Uuid → Store → Conversation → Type 0
IsOwn t u s c = Memᴰ c (values s.conversations) × (c.tenant_id ≡ t) × (c.user_id ≡ u)

module _ (casefold : String → String) (isoformat : Instant → String) (t u : Uuid)
    (terms : List String) (s : Store) where
  -- A match is a stored message of a conversation of the user that has one of the words.
  abbrev pub IsHit : Match → Type 0
  IsHit x =
      (c : Conversation) × (m : ConversationMessage) × IsOwn t u s c
      × Memᴰ m (values s.messages)
      × (in_conversation t c.id m ≡ true)
      × (1 ≤ score casefold isoformat terms m)
      × (x ≡ match_of casefold isoformat terms c m)

  scan_messages-All :
      (c : Conversation) (ms : List ConversationMessage)
      → IsOwn t u s c
      → All (λ m. Memᴰ m (values s.messages) × (in_conversation t c.id m ≡ true)) ms
      → All IsHit (scan_messages casefold isoformat terms c ms)
  unfolding scan_messages
  scan_messages-All c [] own h = tt
  scan_messages-All c (m ∷ ms) own h = elim (Bool-cases (score casefold isoformat terms m == 0)) [
    | inl nothing ↦ rw nothing (scan_messages-All c ms own h.1)
    | inr hit ↦
        rw hit
          ((c, m, own, h.0.0, h.0.1, ground (arith, hit), refl), scan_messages-All c ms own h.1)
  ]

  scan_messages-mem :
      (c : Conversation) (ms : List ConversationMessage) {m : ConversationMessage}
      → Memᴰ m ms
      → 1 ≤ score casefold isoformat terms m
      → Memᴰ (match_of casefold isoformat terms c m) (scan_messages casefold isoformat terms c ms)
  unfolding scan_messages
  scan_messages-mem c [] there h = elim there [ ]
  scan_messages-mem c (x ∷ ms) {m} (Memᴰ.head e) h =
      let hit : (score casefold isoformat terms x == 0) ≡ false = rw (← e) (ground (arith, h)) in
      rw hit (Memᴰ.head (ap (match_of casefold isoformat terms c) e))
  scan_messages-mem c (x ∷ ms) {m} (Memᴰ.tail later) h =
      elim (Bool-cases (score casefold isoformat terms x == 0)) [
        | inl nothing ↦ rw nothing (scan_messages-mem c ms later h)
        | inr hit ↦ rw hit (Memᴰ.tail (scan_messages-mem c ms later h))
      ]

  shown-All :
      (c : Conversation)
      → IsIndex (λ (x : Conversation). x.id) s.conversations
      → IsOwn t u s c
      → (ms : List ConversationMessage) × (list_messages t c.id 200 s ≡ (ok ms, s))
        × All (λ m. Memᴰ m (values s.messages) × (in_conversation t c.id m ≡ true)) ms
  shown-All c index own =
      let there = mem-get (λ (x : Conversation). x.id) s.conversations {v = c} index own.0 in
      let (earlier, ms, listed, _, sound, _, _) =
        list_messages-lists t c.id 200 s c there own.1 (omega arith) in
      (ms, listed, All-right _ earlier ms sound)

  -- Every match of a conversation of the user is found.
  abbrev FindsAll : List Conversation → List Match → Type 0
  FindsAll cs r =
      (c : Conversation) (ms : List ConversationMessage) (m : ConversationMessage)
      → Memᴰ c cs
      → c.user_id ≡ u
      → list_messages t c.id 200 s ≡ (ok ms, s)
      → Memᴰ m ms
      → 1 ≤ score casefold isoformat terms m
      → Memᴰ (match_of casefold isoformat terms c m) r

  scan-finds :
      (cs : List Conversation)
      → IsIndex (λ (x : Conversation). x.id) s.conversations
      → All (λ c. Memᴰ c (values s.conversations) × (c.tenant_id ≡ t)) cs
      → (r : List Match) × (scan_conversations casefold isoformat terms t u cs s ≡ (ok r, s))
        × All IsHit r
        × FindsAll cs r
  unfolding scan_conversations ◌>>=◌
  scan-finds [] index h = ([], refl, tt, λ c ms m there. elim there [ ])
  scan-finds (c ∷ cs) index h =
      let (rest, ran, sound, complete) = scan-finds cs index h.1 in
      elim (Bool-cases (c.user_id == u)) [
        | inr other ↦ (
          rest,
          rw (other, ran) refl,
          sound,
          λ d ms m there mine shown at hit. elim there [
            | Memᴰ.head e ↦ absurd (ground (arith, e, mine, other, ==_refl u))
            | Memᴰ.tail later ↦ complete d ms m later mine shown at hit
          ],
        )
        | inl mine ↦
            let own : IsOwn t u s c = (h.0.0, h.0.1, ==→eq c.user_id u mine) in
            let (ms, listed, messages) = shown-All c index own in
            let found = scan_messages casefold isoformat terms c ms in
            (
              found ++ rest,
              rw (mine, listed, ran) refl,
              All-append IsHit found rest (scan_messages-All c ms own messages) sound,
              λ d ds m there yours shown at hit. elim there [
                | Memᴰ.head e ↦
                    let same : ds ≡ ms = cc (e, shown, listed) in
                    rw e (mem-left found rest (scan_messages-mem c ms (rw same at at) hit))
                | Memᴰ.tail later ↦ mem-right found rest (complete d ds m later yours shown at hit)
              ],
            )
      ]

module _ (casefold : String → String) (isoformat : Instant → String) (t u : Uuid) (query : String)
    (limit : ℕ) (s : Store) where
  -- In a store whose conversations stand under their own ids, a search of the earlier sessions leaves
  -- the store as it is and returns at most `limit` matches, each of a stored message of a conversation
  -- of the user in the tenant, with a word of the query. A message with a word of the query among the
  -- latest 200 of such a conversation is left out only when the limit is reached by matches with more
  -- of the words, or as many and a printed time that is no later.
  pub session_matches-finds :
      IsIndex (λ (x : Conversation). x.id) s.conversations
      → (r : List Match) × (session_matches casefold isoformat t u query limit s ≡ (ok r, s))
        × (length r ≤ limit)
        × All (IsHit casefold isoformat t u (terms_of casefold query) s) r
        × ((c : Conversation) (ms : List ConversationMessage) (m : ConversationMessage)
            → IsOwn t u s c
            → list_messages t c.id 200 s ≡ (ok ms, s)
            → Memᴰ m ms
            → 1 ≤ score casefold isoformat (terms_of casefold query) m
            → Memᴰ (match_of casefold isoformat (terms_of casefold query) c m) r
              ⊎ ((length r ≡ limit)
                  × All
                      (λ x.
                        goes_first x (match_of casefold isoformat (terms_of casefold query) c m)
                        ≡ true)
                      r))
  unfolding session_matches list_conversations ◌>>=◌
  session_matches-finds index =
      let newest = descending (λ (c : Conversation). c.updated_at) in
      let all = sort newest (values s.conversations) in
      let p : Conversation → Bool = λ c. c.tenant_id == t in
      let cs = filter p all in
      let stored : All (λ c. Memᴰ c (values s.conversations)) all =
        sort-All newest _ (values s.conversations) (All-of_mem _ _ (λ c here. here)) in
      let listed : All (λ c. Memᴰ c all) (values s.conversations) =
        All-sort newest _ (values s.conversations) (All-of_mem _ all (λ c here. here)) in
      let ours : All (λ c. Memᴰ c (values s.conversations) × (c.tenant_id ≡ t)) cs =
        All-of_mem _ cs (λ c here.
          let (there, mine) = filter-mem p all here in
          (All-mem _ all stored there, ==→eq c.tenant_id t mine)) in
      let (found, ran, sound, complete) =
        scan-finds casefold isoformat t u (terms_of casefold query) s cs index ours in
      let sorted = sort goes_first found in
      let found_in : All (λ x. Memᴰ x sorted) found =
        All-sort goes_first _ found (All-of_mem _ sorted (λ x here. here)) in
      (
        take limit sorted,
        rw ran refl,
        length-take_le limit sorted,
        take-All (IsHit casefold isoformat t u (terms_of casefold query) s) limit sorted (
            sort-All goes_first (IsHit casefold isoformat t u (terms_of casefold query) s) found
              sound),
        λ c ms m own shown at hit.
            let here =
              complete c ms m
                (mem-filter p all (All-mem _ (values s.conversations) listed own.0)
                  (rw own.1 (==_refl t)))
                own.2 shown at hit in
            take-sorted goes_first limit sorted (sort-IsSorted goes_first goes_first-IsOrder found)
              (All-mem _ found found_in here),
      )
