-- ===== src/Base/Sorting/Parts.antt =====
-- A sorted list cut by a test into two parts is one sort by a test that puts the first part first.
use Prim.Native.Nat.{ℕ, zero, suc, ◌≤◌}
use mathlib.Core.Path.{◌≡◌, refl}
use mathlib.Core.Logic.{◌⊎◌, inl, inr}
use mathlib.Core.Bool.{Bool, true, false, ◌&&◌, ◌||◌, not}
use mathlib.Core.List.{List, [], ◌∷◌, ◌++◌, Memᴰ}
use native.Mathlib.Omega.{arith}
use astra_agent.Base.Tests.{if◌then◌else◌, Bool-cases}
use astra_agent.Base.Lists.{All, All-imp, filter, filter-test, filter-All, All-mem, length, take}
use astra_agent.Base.Sorting.{IsOrder, IsSorted, insert, sort, sort-IsSorted}

module _ {ℓ} {A : Type ℓ} (le : A → A → Bool) (p : A → Bool) where
  -- The elements that pass `p` before the others, each part by `le`.
  unfoldable pub first_by : A → A → Bool
  first_by a b = p a && not (p b) || (p a && p b || not (p a) && not (p b)) && le a b

  insert-head : (x : A) (ys : List A) → All (λ y. le x y ≡ true) ys → insert le x ys ≡ x ∷ ys
  unfolding insert
  insert-head x [] h = refl
  insert-head x (y ∷ ys) h = rw h.0 refl

  insert-first :
      (x : A) (us vs : List A)
      → p x ≡ true
      → All (λ a. p a ≡ true) us
      → All (λ b. not (p b) ≡ true) vs
      → insert le x us ++ vs ≡ insert first_by x (us ++ vs)
  unfolding insert first_by
  insert-first x [] [] px ha hb = refl
  insert-first x [] (b ∷ vs) px ha hb = ground (arith, px, hb.0)
  insert-first x (a ∷ us) vs px ha hb = ground (arith, px, ha.0, insert-first x us vs px ha.1 hb)

  insert-second :
      (x : A) (us vs : List A)
      → p x ≡ false
      → All (λ a. p a ≡ true) us
      → All (λ b. not (p b) ≡ true) vs
      → us ++ insert le x vs ≡ insert first_by x (us ++ vs)
  unfolding insert first_by
  insert-second x [] [] px ha hb = refl
  insert-second x [] (b ∷ vs) px ha hb = ground (arith, px, hb.0, insert-second x [] vs px tt hb.1)
  insert-second x (a ∷ us) vs px ha hb = ground (arith, px, ha.0, insert-second x us vs px ha.1 hb)

module _ {ℓ} {A : Type ℓ} (le : A → A → Bool) (order : IsOrder le) where
  filter-insert :
      (q : A → Bool) (x : A) (ys : List A)
      → IsSorted le ys
      → filter q (insert le x ys) ≡ (if q x then insert le x (filter q ys) else filter q ys)
  unfolding insert filter
  filter-insert q x [] s = ground arith
  filter-insert q x (y ∷ ys) s = elim (Bool-cases (le x y)) [
    | inl first ↦
        let before : All (λ z. le x z ≡ true) (y ∷ ys) =
          (first, All-imp _ _ (λ z h. order.trans x y z first h) ys s.0) in
        let head = insert-head le q x (filter q (y ∷ ys)) (filter-All q _ (y ∷ ys) before) in
        rw first (ground (arith, head))
    | inr later ↦ ground (arith, later, filter-insert q x ys s.1)
  ]

  -- The two parts of the sorted list, one after the other, are the list sorted by both tests.
  pub sort-first_by :
      (p : A → Bool) (xs : List A)
      → filter p (sort le xs) ++ filter (λ x. not (p x)) (sort le xs) ≡ sort (first_by le p) xs
  unfolding sort filter
  sort-first_by p [] = refl
  sort-first_by p (x ∷ xs) =
      let ranked = sort le xs in
      let sorted = sort-IsSorted le order xs in
      let ha = filter-test p ranked in
      let hb = filter-test (λ y. not (p y)) ranked in
      let taken = filter-insert p x ranked sorted in
      let left = filter-insert (λ y. not (p y)) x ranked sorted in
      let ih = sort-first_by p xs in
      elim (Bool-cases (p x)) [
        | inl hit ↦
            let step =
              insert-first le p x (filter p ranked) (filter (λ y. not (p y)) ranked) hit ha hb in
            rw (taken, left, hit, ← ih) step
        | inr miss ↦
            let step =
              insert-second le p x (filter p ranked) (filter (λ y. not (p y)) ranked) miss ha hb in
            rw (taken, left, miss, ← ih) step
      ]

  pub first_by-IsOrder : (p : A → Bool) → IsOrder (first_by le p)
  unfolding first_by
  first_by-IsOrder p = record {
    total = λ a b h. ground (arith, h, order.total a b);
    trans = λ a b c h k. ground (arith, h, k, order.trans a b c);
    self = λ a. ground (arith, order.self a);
  }

module _ {ℓ} {A : Type ℓ} where
  pub take-All {κ} : (P : A → Type κ) (n : ℕ) (xs : List A) → All P xs → All P (take n xs)
  take-All P zero xs h = tt
  take-All P (suc n) [] h = tt
  take-All P (suc n) (x ∷ xs) h = (h.0, take-All P n xs h.1)

  pub length-take_le : (n : ℕ) (xs : List A) → length (take n xs) ≤ n
  length-take_le zero xs = omega arith
  length-take_le (suc n) [] = omega arith
  length-take_le (suc n) (x ∷ xs) = omega (arith, length-take_le n xs)

  -- An element of a sorted list is among the first `n`, or these are `n` and stand before it.
  pub take-sorted :
      (le : A → A → Bool) (n : ℕ) (xs : List A) {v : A}
      → IsSorted le xs
      → Memᴰ v xs
      → Memᴰ v (take n xs) ⊎ ((length (take n xs) ≡ n) × All (λ x. le x v ≡ true) (take n xs))
  take-sorted le zero xs s m = inr (refl, tt)
  take-sorted le (suc n) [] s m = elim m [ ]
  take-sorted le (suc n) (x ∷ xs) s (Memᴰ.head e) = inl (Memᴰ.head e)
  take-sorted le (suc n) (x ∷ xs) {v} s (Memᴰ.tail m) = elim (take-sorted le n xs {v = v} s.1 m) [
    | inl kept ↦ inl (Memᴰ.tail kept)
    | inr (full, before) ↦
        inr (omega (arith, full), (All-mem (λ y. le x y ≡ true) xs s.0 m, before))
  ]
