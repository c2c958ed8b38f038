-- ===== src/Runtime/Memories/Unique.antt =====
-- A tenant's standing memories differ in their normalised texts.
use astra_agent.Base.{
  ◌≡◌, inl, inr, refl, sym, subst, ◌∙◌, Bool, Bool-cases, true, false, Option, none, some, List, [],
  ◌∷◌, arith, find, find-none, All-mem, ◌==◌, str_eq_iff,
}
use astra_agent.Base.Dict.{Dict, get, put, values, get-put, get-mem}
use astra_agent.Base.Exec.{Result, ◌>>=◌}
use astra_agent.Domain.Models.{Uuid, MemoryRecord, AuditEvent}
use astra_agent.Runtime.State.{Store, Env}
use astra_agent.Runtime.Memories.Reviews.{Outcome, refused, reviewed, replaced, outcome}
use astra_agent.Runtime.Memories.{
  upsert_memory, upsert_new, delete_memory, review_memory, pin_memory, duplicates, is_deleted,
  is_promoted,
}

-- Two standing memories of one tenant with one normalised text.
pub record Clash (a b : MemoryRecord) : Type 0 where
  pub owner : a.tenant_id ≡ b.tenant_id
  pub content : a.normalized_content ≡ b.normalized_content
  pub left_stands : is_deleted a.state ≡ false
  pub right_stands : is_deleted b.state ≡ false

-- Two entries that clash are one.
abbrev pub IsUnique : Dict MemoryRecord → Type 0
IsUnique d =
    (j k : Uuid) (a b : MemoryRecord) → get d j ≡ some a → get d k ≡ some b → Clash a b → j ≡ k

Clash-sym : (a b : MemoryRecord) → Clash a b → Clash b a
Clash-sym a b c = record {
  owner = sym c.owner;
  content = sym c.content;
  left_stands = c.right_stands;
  right_stands = c.left_stands;
}

put-IsUnique :
    (d : Dict MemoryRecord) (k : Uuid) (m : MemoryRecord)
    → IsUnique d
    → ((j : Uuid) (a : MemoryRecord) → get d j ≡ some a → Clash m a → j ≡ k)
    → IsUnique (put d k m)
put-IsUnique d k m unique alone i j a b at_i at_j clash = elim (Bool-cases (k == i)) [
  | inl hit_i ↦ elim (Bool-cases (k == j)) [
    | inl hit_j ↦ ground (arith, hit_i, hit_j)
    | inr miss_j ↦
        let same : m ≡ a = ground (arith, get-put d k i m, at_i, hit_i) in
        let old : get d j ≡ some b = ground (arith, get-put d k j m, at_j, miss_j) in
        ground (arith, hit_i, alone j b old (subst (λ x. Clash x b) (sym same) clash))
  ]
  | inr miss_i ↦
      let old_i : get d i ≡ some a = ground (arith, get-put d k i m, at_i, miss_i) in
      elim (Bool-cases (k == j)) [
        | inl hit_j ↦
            let same : m ≡ b = ground (arith, get-put d k j m, at_j, hit_j) in
            ground (
              arith,
              hit_j,
              alone i a old_i (subst (λ x. Clash x a) (sym same) (Clash-sym a b clash)),
            )
        | inr miss_j ↦ unique i j a b old_i (ground (arith, get-put d k j m, at_j, miss_j)) clash
      ]
]

-- Writing over an entry, with its text and its tenant, one that stands only if the entry stood.
update-IsUnique :
    (d : Dict MemoryRecord) (k : Uuid) (old new : MemoryRecord)
    → IsUnique d
    → get d k ≡ some old
    → new.tenant_id ≡ old.tenant_id
    → new.normalized_content ≡ old.normalized_content
    → is_deleted old.state ≡ false
    → IsUnique (put d k new)
update-IsUnique d k old new unique found owner content stood =
    put-IsUnique d k new unique λ j a at_j clash. unique j k a old at_j found (record {
      owner = sym clash.owner ∙ owner;
      content = sym clash.content ∙ content;
      left_stands = clash.right_stands;
      right_stands = stood;
    })

-- A deleted entry clashes with none.
put_deleted-IsUnique :
    (d : Dict MemoryRecord) (k : Uuid) (new : MemoryRecord)
    → IsUnique d
    → is_deleted new.state ≡ true
    → IsUnique (put d k new)
put_deleted-IsUnique d k new unique gone =
    put-IsUnique d k new unique (λ j a at_j clash. ground (arith, gone, clash.left_stands))

no_duplicate :
    (d : Dict MemoryRecord) (m a : MemoryRecord) (j : Uuid)
    → find (duplicates m) (values d) ≡ none
    → get d j ≡ some a
    → Clash m a
    → ⊥
no_duplicate d m a j nothing at_j clash =
    let clear : duplicates m a ≡ false =
      All-mem (λ x. duplicates m x ≡ false) (values d) (find-none (duplicates m) (values d) nothing)
        (get-mem d j at_j) in
    let same_text = (str_eq_iff a.normalized_content m.normalized_content).1 (sym clash.content) in
    ground (arith, clear, same_text, clash.owner, clash.right_stands)

-- What one call does to the memories: nothing, an update of a standing record, or that and the
-- deletion of the memory that the updated one replaces.
data Change (d : Dict MemoryRecord) : Dict MemoryRecord → Type 0 where
  same : Change d d
  add : (m : MemoryRecord) → find (duplicates m) (values d) ≡ none → Change d (put d m.id m)
  update :
      (k : Uuid) (old new : MemoryRecord)
      → get d k ≡ some old
      → new.tenant_id ≡ old.tenant_id
      → new.normalized_content ≡ old.normalized_content
      → is_deleted old.state ≡ false
      → Change d (put d k new)
  retire :
      (e : Dict MemoryRecord) (k : Uuid) (new : MemoryRecord)
      → Change d e
      → is_deleted new.state ≡ true
      → Change d (put e k new)

Change-IsUnique : (d e : Dict MemoryRecord) → Change d e → IsUnique d → IsUnique e
Change-IsUnique d _ same unique = unique
Change-IsUnique d _ (add m nothing) unique =
    put-IsUnique d m.id m unique
      (λ j a at_j clash. absurd (no_duplicate d m a j nothing at_j clash))
Change-IsUnique d _ (update k old new found owner content stood) unique =
    update-IsUnique d k old new unique found owner content stood
Change-IsUnique d _ (retire e k new change gone) unique =
    put_deleted-IsUnique e k new (Change-IsUnique d e change unique) gone

module _ (s : Store) where
  upsert-Change :
      (m : MemoryRecord) (events : List AuditEvent)
      → Change s.memories (upsert_memory m events s).1.memories
  unfolding upsert_memory upsert_new ◌>>=◌
  upsert-Change m events = inspect (find (duplicates m) (values s.memories)) refl
    where
      inspect :
          (o : Option MemoryRecord)
          → find (duplicates m) (values s.memories) ≡ o
          → Change s.memories (upsert_memory m events s).1.memories
      inspect none e = rw e (add m e)
      inspect (some x) e = rw e same

  delete-Change :
      (env : Env) (t k actor : Uuid) → Change s.memories (delete_memory env t k actor s).1.memories
  unfolding delete_memory ◌>>=◌
  delete-Change env t k actor = inspect (get s.memories k) refl
    where
      inspect :
          (o : Option MemoryRecord)
          → get s.memories k ≡ o
          → Change s.memories (delete_memory env t k actor s).1.memories
      inspect none e = rw e same
      inspect (some m) e = elim (Bool-cases (m.tenant_id == t)) [
        | inr other ↦ rw (e, other) same
        | inl own ↦ elim (Bool-cases (is_deleted m.state)) [
          | inl gone ↦ rw (e, own, gone) same
          | inr stands ↦ rw (e, own, stands) (retire s.memories k _ same refl)
        ]
      ]

  pin-Change :
      (env : Env) (t k actor : Uuid) (pinned : Bool)
      → Change s.memories (pin_memory env t k pinned actor s).1.memories
  unfolding pin_memory ◌>>=◌
  pin-Change env t k actor pinned = inspect (get s.memories k) refl
    where
      inspect :
          (o : Option MemoryRecord)
          → get s.memories k ≡ o
          → Change s.memories (pin_memory env t k pinned actor s).1.memories
      inspect none e = rw e same
      inspect (some m) e = elim (Bool-cases (m.tenant_id == t)) [
        | inr other ↦ rw (e, other) same
        | inl own ↦ elim (Bool-cases (is_promoted m.state)) [
          | inr out ↦ rw (e, own, out) same
          | inl promoted ↦
              rw (e, own, promoted) (update k m _ e refl refl (ground (arith, promoted)))
        ]
      ]

  review-Change :
      (env : Env) (t k actor : Uuid) (promote : Bool) (o : Option Uuid)
      → Change s.memories (review_memory env t k promote actor o s).1.memories
  review-Change env t k actor promote o = read _ (outcome env t k actor promote o s)
    where
      read :
          (r : Result MemoryRecord × Store)
          → Outcome env t k actor promote o s r
          → Change s.memories r.1.memories
      read _ (refused e) = same
      read _ (reviewed m s' found own candidate _ after) =
          rw after (update k m _ found refl refl (ground (arith, candidate)))
      read _ (replaced m r i s' found own candidate _ _ _ _ _ after) =
          rw after (retire _ r.id _ (update k m _ found refl refl (ground (arith, candidate))) refl)

-- A call of a method of the memory records.
pub data Call : Type 0 where
  upsert : MemoryRecord → List AuditEvent → Call
  review : Env → Uuid → Uuid → Bool → Uuid → Option Uuid → Call
  pin : Env → Uuid → Uuid → Bool → Uuid → Call
  delete : Env → Uuid → Uuid → Uuid → Call

call : Call → Store → Store
call (upsert m events) s = (upsert_memory m events s).1
call (review env t k promote actor o) s = (review_memory env t k promote actor o s).1
call (pin env t k pinned actor) s = (pin_memory env t k pinned actor s).1
call (delete env t k actor) s = (delete_memory env t k actor s).1

unfoldable pub calls : List Call → Store → Store
unfolding call
calls [] s = s
calls (c ∷ cs) s = calls cs (call c s)

call-Change : (c : Call) (s : Store) → Change s.memories (call c s).memories
unfolding call
call-Change (upsert m events) s = upsert-Change s m events
call-Change (review env t k promote actor o) s = review-Change s env t k actor promote o
call-Change (pin env t k pinned actor) s = pin-Change s env t k actor pinned
call-Change (delete env t k actor) s = delete-Change s env t k actor

-- Over any history of upserts, reviews, pins and deletions, returning or raising, two standing
-- memories of one tenant have different normalised texts, if they do at its start.
pub calls-IsUnique :
    (cs : List Call) (s : Store) → IsUnique s.memories → IsUnique (calls cs s).memories
unfolding calls
calls-IsUnique [] s unique = unique
calls-IsUnique (c ∷ cs) s unique =
    calls-IsUnique cs (call c s)
      (Change-IsUnique s.memories (call c s).memories (call-Change c s) unique)
