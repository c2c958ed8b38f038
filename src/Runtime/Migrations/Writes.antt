-- ===== src/Runtime/Migrations/Writes.antt =====
-- A loop that writes changed records back under their ids.
use mathlib.Core.List.{Memᴰ}
use astra_agent.Base.{
  ◌≡◌, ◌==◌, ◌⊎◌, inl, inr, refl, ap, ◌∙◌, Bool, Bool-cases, true, false, some, List, [], ◌∷◌, map,
  arith, if◌then◌else◌, ==→eq,
}
use astra_agent.Base.Dict.{Dict, get, put, values, get-put, get-mem, IsIndex, mem-get, get-IsIndex}
use astra_agent.Domain.Models.{Uuid, MemoryRecord}
use astra_agent.Runtime.Migrations.{put_each}

module _ (f : MemoryRecord → MemoryRecord) where
  -- What stands under a key afterwards comes from an item with that id, or was there before.
  put_each-cases :
      (items : List MemoryRecord) (d : Dict MemoryRecord) (k : Uuid)
      → ((x : MemoryRecord) × Memᴰ x items × (x.id ≡ k) × (get (put_each f items d) k ≡ some (f x)))
        ⊎ (((x : MemoryRecord) → Memᴰ x items → x.id ≡ k → ⊥)
            × (get (put_each f items d) k ≡ get d k))
  unfolding put_each
  put_each-cases [] d k = inr ((λ x m e. elim m [ ]), refl)
  put_each-cases (y ∷ ys) d k = elim (put_each-cases ys (put d y.id (f y)) k) [
    | inl (x, m, e, found) ↦ inl (x, Memᴰ.tail m, e, found)
    | inr (none_of, found) ↦ elim (Bool-cases (y.id == k)) [
      | inl hit ↦
          inl (
            y,
            Memᴰ.head refl,
            ==→eq y.id k hit,
            ground (arith, found, hit, get-put d y.id k (f y)),
          )
      | inr miss ↦
          inr (none_here y ys k miss none_of, ground (arith, found, miss, get-put d y.id k (f y)))
    ]
  ]
    where
      none_here :
          (y : MemoryRecord) (ys : List MemoryRecord) (k : Uuid)
          → (y.id == k) ≡ false
          → ((x : MemoryRecord) → Memᴰ x ys → x.id ≡ k → ⊥)
          → (x : MemoryRecord) → Memᴰ x (y ∷ ys)
          → x.id ≡ k
          → ⊥
      none_here y ys k miss none_of x (Memᴰ.head e) same =
          ground (arith, miss, ap (λ (z : MemoryRecord). z.id) e, same)
      none_here y ys k miss none_of x (Memᴰ.tail m) same = none_of x m same

  -- Where the items are the stored records that pass a test, each of these is changed and the others
  -- stay.
  pub put_each-get :
      (q : MemoryRecord → Bool) (items : List MemoryRecord) (d : Dict MemoryRecord)
      → IsIndex (λ m. m.id) d
      → ((x : MemoryRecord) → Memᴰ x items → Memᴰ x (values d) × (q x ≡ true))
      → ((x : MemoryRecord) → Memᴰ x (values d) → q x ≡ true → Memᴰ x items)
      → (k : Uuid) (m : MemoryRecord) → get d k ≡ some m
      → get (put_each f items d) k ≡ some (if q m then f m else m)
  put_each-get q items d index sound complete k m at_k = elim (put_each-cases items d k) [
    | inl (x, here, e, found) ↦
        let (stored, hit) = sound x here in
        let at_x = mem-get (λ (z : MemoryRecord). z.id) d {v = x} index stored in
        let same : m ≡ x = cc (at_k, at_x, ap (get d) e) in ground (arith, found, hit, same)
    | inr (none_of, found) ↦ elim (Bool-cases (q m)) [
      | inl hit ↦ absurd (
          none_of m (complete m (get-mem d k at_k) hit)
            (get-IsIndex (λ (z : MemoryRecord). z.id) d k index at_k))
      | inr miss ↦ rw miss (found ∙ at_k)
    ]
  ]

  -- Changing the items first comes to the same.
  pub put_each-map :
      (items : List MemoryRecord) (d : Dict MemoryRecord)
      → ((x : MemoryRecord) → (f x).id ≡ x.id)
      → put_each (λ m. m) (map f items) d ≡ put_each f items d
  unfolding put_each
  put_each-map [] d keeps = refl
  put_each-map (y ∷ ys) d keeps =
      put_each-map ys (put d (f y).id (f y)) keeps
      ∙ ap (λ i. put_each f ys (put d i (f y))) (keeps y)
