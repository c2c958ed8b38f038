-- ===== src/Base/Sorting.antt =====
-- `sorted(xs, key=…)`: a stable sort by a test that says which of two elements may stand first.
pub mod Parts
use Prim.Native.Nat.{ℕ}
use mathlib.Core.Path.{◌≡◌, subst}
use mathlib.Core.Logic.{inl, inr}
use mathlib.Core.Bool.{Bool, true, false}
use mathlib.Core.Option.{some}
use mathlib.Core.List.{List, [], ◌∷◌}
use native.Mathlib.Omega.{arith}
use astra_agent.Base.Tests.{if◌then◌else◌, Bool-cases, leb}
use astra_agent.Base.Lists.{All, All-imp, find, filter, filter-All}

-- `le a b` says that `a` may stand before `b`.
pub record IsOrder {ℓ} {A : Type ℓ} (le : A → A → Bool) : Type ℓ where
  pub total : (a b : A) → le a b ≡ false → le b a ≡ true
  pub trans : (a b c : A) → le a b ≡ true → le b c ≡ true → le a c ≡ true
  pub self : (a : A) → le a a ≡ true

module _ {ℓ} {A : Type ℓ} (le : A → A → Bool) where
  insert : A → List A → List A
  insert x [] = x ∷ []
  insert x (y ∷ ys) = if le x y then x ∷ y ∷ ys else y ∷ insert x ys

  unfoldable pub sort : List A → List A
  unfolding insert
  sort [] = []
  sort (x ∷ xs) = insert x (sort xs)

  abbrev pub IsSorted : List A → Type ℓ
  IsSorted [] = Unit
  IsSorted (x ∷ xs) = All (λ y. le x y ≡ true) xs × IsSorted xs

  insert-All {κ} : (P : A → Type κ) (x : A) (xs : List A) → P x → All P xs → All P (insert x xs)
  unfolding insert
  insert-All P x [] px h = (px, tt)
  insert-All P x (y ∷ ys) px h = elim (Bool-cases (le x y)) [
    | inl first ↦ rw first (px, h)
    | inr later ↦ rw later (h.0, insert-All P x ys px h.1)
  ]

  All-insert {κ} : (P : A → Type κ) (x : A) (xs : List A) → All P (insert x xs) → P x × All P xs
  unfolding insert
  All-insert P x [] h = h
  All-insert P x (y ∷ ys) h = elim (Bool-cases (le x y)) [
    | inl first ↦ rw first at h
    | inr later ↦
        let h' : P y × All P (insert x ys) = rw later at h in
        let (px, rest) = All-insert P x ys h'.1 in (px, (h'.0, rest))
  ]

  -- Sorting keeps the elements, seen by every predicate.
  pub sort-All {κ} : (P : A → Type κ) (xs : List A) → All P xs → All P (sort xs)
  unfolding sort
  sort-All P [] h = tt
  sort-All P (x ∷ xs) h = insert-All P x (sort xs) h.0 (sort-All P xs h.1)

  pub All-sort {κ} : (P : A → Type κ) (xs : List A) → All P (sort xs) → All P xs
  unfolding sort
  All-sort P [] h = tt
  All-sort P (x ∷ xs) h = let (px, rest) = All-insert P x (sort xs) h in (px, All-sort P xs rest)

  pub filter-IsSorted : (p : A → Bool) (xs : List A) → IsSorted xs → IsSorted (filter p xs)
  unfolding filter
  filter-IsSorted p [] s = tt
  filter-IsSorted p (x ∷ xs) s = elim (Bool-cases (p x)) [
    | inl hit ↦ rw hit (filter-All p _ xs s.0, filter-IsSorted p xs s.1)
    | inr miss ↦ rw miss (filter-IsSorted p xs s.1)
  ]

module _ {ℓ} {A : Type ℓ} (le : A → A → Bool) (order : IsOrder le) where
  insert-IsSorted : (x : A) (xs : List A) → IsSorted le xs → IsSorted le (insert le x xs)
  unfolding insert
  insert-IsSorted x [] s = (tt, tt)
  insert-IsSorted x (y ∷ ys) s = elim (Bool-cases (le x y)) [
    | inl first ↦ rw first ((first, All-imp _ _ (λ z h. order.trans x y z first h) ys s.0), s)
    | inr later ↦ rw later (
      insert-All le (λ z. le y z ≡ true) x ys (order.total x y later) s.0,
      insert-IsSorted x ys s.1,
    )
  ]

  pub sort-IsSorted : (xs : List A) → IsSorted le (sort le xs)
  unfolding sort
  sort-IsSorted [] = tt
  sort-IsSorted (x ∷ xs) = insert-IsSorted x (sort le xs) (sort-IsSorted xs)

  first_match :
      (p : A → Bool) (xs : List A) {v : A}
      → IsSorted le xs
      → find p xs ≡ some v
      → All (λ u. p u ≡ true → le v u ≡ true) xs
  unfolding find
  first_match p [] s e = tt
  first_match p (x ∷ xs) {v} s e = elim (Bool-cases (p x)) [
    | inl hit ↦
        let same : x ≡ v = cc (hit, e) in
        subst (λ w. All (λ u. p u ≡ true → le w u ≡ true) (x ∷ xs)) same
          ((λ _. order.self x), All-imp _ _ (λ u h _. h) xs s.0)
    | inr miss ↦ ((λ h. cc (miss, h)), first_match p xs s.1 (rw miss at e))
  ]

  -- The first match in sorted order stands before every other match.
  pub find-sort_least :
      (p : A → Bool) (xs : List A) {v : A}
      → find p (sort le xs) ≡ some v
      → All (λ u. p u ≡ true → le v u ≡ true) xs
  find-sort_least p xs e = All-sort le _ xs (first_match p (sort le xs) (sort-IsSorted xs) e)

module _ {ℓ} {A : Type ℓ} (key : A → ℕ) where
  -- `sorted(xs, key=key)`
  abbrev pub ascending : A → A → Bool
  ascending a b = leb (key a) (key b)

  -- `sorted(xs, key=key, reverse=True)`, which is stable too
  abbrev pub descending : A → A → Bool
  descending a b = leb (key b) (key a)

  pub ascending-IsOrder : IsOrder ascending
  ascending-IsOrder = record {
    total = λ a b h. ground arith;
    trans = λ a b c h k. ground arith;
    self = λ a. ground arith;
  }

  pub descending-IsOrder : IsOrder descending
  descending-IsOrder = record {
    total = λ a b h. ground arith;
    trans = λ a b c h k. ground arith;
    self = λ a. ground arith;
  }
