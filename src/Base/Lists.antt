-- ===== src/Base/Lists.antt =====
-- Lists as the program scans them: the first match, the filter, a test of all or of any element.
use Prim.Native.Nat.{ℕ, zero, suc, ◌+◌, ◌-◌, ◌≤◌}
use mathlib.Core.Path.{◌≡◌, refl, sym, ap, ◌∙◌}
use mathlib.Core.Logic.{inl, inr, ◌⊎◌}
use mathlib.Core.Bool.{Bool, true, false, ◌&&◌, ◌||◌}
use mathlib.Core.Option.{Option, none, some}
use mathlib.Core.List.{List, [], ◌∷◌, ◌++◌, Memᴰ, append-nil, append_assoc}
use native.Mathlib.Omega.{arith}
use astra_agent.Base.Tests.{if◌then◌else◌, Bool-cases, leb}

module _ {ℓ} {A : Type ℓ} where
  abbrev pub length : List A → ℕ
  length [] = 0
  length (x ∷ xs) = suc (length xs)

  abbrev pub drop : ℕ → List A → List A
  drop zero xs = xs
  drop (suc n) [] = []
  drop (suc n) (x ∷ xs) = drop n xs

  pub length-append : (xs ys : List A) → length (xs ++ ys) ≡ length xs + length ys
  length-append [] ys = omega arith
  length-append (x ∷ xs) ys = omega (arith, length-append xs ys)

  -- `next((x for x in xs if p(x)), None)`
  unfoldable pub find : (A → Bool) → List A → Option A
  find p [] = none
  find p (x ∷ xs) = if p x then some x else find p xs

  -- `[x for x in xs if p(x)]`
  unfoldable pub filter : (A → Bool) → List A → List A
  filter p [] = []
  filter p (x ∷ xs) = let rest = filter p xs in if p x then x ∷ rest else rest

  unfoldable pub all : (A → Bool) → List A → Bool
  all p [] = true
  all p (x ∷ xs) = p x && all p xs

  unfoldable pub any : (A → Bool) → List A → Bool
  any p [] = false
  any p (x ∷ xs) = p x || any p xs

  abbrev pub is_empty : List A → Bool
  is_empty [] = true
  is_empty (x ∷ xs) = false

  -- `P` holds of every element.
  abbrev pub All {κ} : (A → Type κ) → List A → Type κ
  All P [] = Unit
  All P (x ∷ xs) = P x × All P xs

module _ {ℓ} {A : Type ℓ} where
  pub All-mem {κ} : (P : A → Type κ) {x : A} (xs : List A) → All P xs → Memᴰ x xs → P x
  All-mem P [] h m = elim m [ ]
  All-mem P (y ∷ ys) h (Memᴰ.head e) = rw e h.0
  All-mem P (y ∷ ys) h (Memᴰ.tail m) = All-mem P ys h.1 m

  pub All-imp {κ μ} :
      (P : A → Type κ) (Q : A → Type μ)
      → ((x : A) → P x → Q x)
      → (xs : List A) → All P xs
      → All Q xs
  All-imp P Q f [] h = tt
  All-imp P Q f (x ∷ xs) h = (f x h.0, All-imp P Q f xs h.1)

  pub All-append {κ} : (P : A → Type κ) (xs ys : List A) → All P xs → All P ys → All P (xs ++ ys)
  All-append P [] ys hx hy = hy
  All-append P (x ∷ xs) ys hx hy = (hx.0, All-append P xs ys hx.1 hy)

  pub All-of_mem {κ} : (P : A → Type κ) (xs : List A) → ((x : A) → Memᴰ x xs → P x) → All P xs
  All-of_mem P [] h = tt
  All-of_mem P (x ∷ xs) h = (h x (Memᴰ.head refl), All-of_mem P xs (λ y m. h y (Memᴰ.tail m)))

module _ {ℓ} {A : Type ℓ} (p : A → Bool) where
  pub find-test : (xs : List A) {v : A} → find p xs ≡ some v → p v ≡ true
  unfolding find
  find-test [] e = cc
  find-test (x ∷ xs) {v} e = ground (arith, find-test xs {v = v})

  pub find-mem : (xs : List A) {v : A} → find p xs ≡ some v → Memᴰ v xs
  unfolding find
  find-mem [] e = cc
  find-mem (x ∷ xs) {v} e = elim (Bool-cases (p x)) [
    | inl hit ↦ Memᴰ.head (cc (e, hit))
    | inr miss ↦ Memᴰ.tail (find-mem xs (rw miss at e))
  ]

  pub find-none : (xs : List A) → find p xs ≡ none → All (λ x. p x ≡ false) xs
  unfolding find
  find-none [] e = tt
  find-none (x ∷ xs) e = ground (arith, find-none xs)

  pub filter-All {κ} : (P : A → Type κ) (xs : List A) → All P xs → All P (filter p xs)
  unfolding filter
  filter-All P [] h = tt
  filter-All P (x ∷ xs) h = elim (Bool-cases (p x)) [
    | inl hit ↦ rw hit (h.0, filter-All P xs h.1)
    | inr miss ↦ rw miss (filter-All P xs h.1)
  ]

  pub filter-test : (xs : List A) → All (λ x. p x ≡ true) (filter p xs)
  unfolding filter
  filter-test [] = tt
  filter-test (x ∷ xs) = elim (Bool-cases (p x)) [
    | inl hit ↦ rw hit (hit, filter-test xs)
    | inr miss ↦ rw miss (filter-test xs)
  ]

  pub All-filter {κ} :
      (P : A → Type κ) (xs : List A) → All P (filter p xs) → All (λ x. p x ≡ true → P x) xs
  unfolding filter
  All-filter P [] h = tt
  All-filter P (x ∷ xs) h = elim (Bool-cases (p x)) [
    | inl hit ↦
        let h' : P x × All P (filter p xs) = rw hit at h in ((λ _. h'.0), All-filter P xs h'.1)
    | inr miss ↦ ((λ k. cc (miss, k)), All-filter P xs (rw miss at h))
  ]

  pub filter-find : (xs : List A) {y : A} {ys : List A} → filter p xs ≡ y ∷ ys → find p xs ≡ some y
  unfolding filter find
  filter-find [] e = cc
  filter-find (x ∷ xs) {y} {ys} e = ground (arith, filter-find xs {y = y} {ys = ys})

  pub mem-filter : (xs : List A) {v : A} → Memᴰ v xs → p v ≡ true → Memᴰ v (filter p xs)
  mem-filter xs {v} m hit =
      All-mem (λ x. p x ≡ true → Memᴰ x (filter p xs)) xs
        (All-filter (λ x. Memᴰ x (filter p xs)) xs (All-of_mem _ (filter p xs) (λ x here. here))) m
        hit

  pub filter-mem : (xs : List A) {v : A} → Memᴰ v (filter p xs) → Memᴰ v xs × (p v ≡ true)
  filter-mem xs m = (
    All-mem (λ x. Memᴰ x xs) (filter p xs)
        (filter-All (λ x. Memᴰ x xs) xs (All-of_mem _ xs (λ x here. here))) m,
    All-mem (λ x. p x ≡ true) (filter p xs) (filter-test xs) m,
  )

  pub all-All : (xs : List A) → all p xs ≡ true → All (λ x. p x ≡ true) xs
  unfolding all
  all-All [] e = tt
  all-All (x ∷ xs) e = ground (arith, all-All xs)

  pub All-all : (xs : List A) → All (λ x. p x ≡ true) xs → all p xs ≡ true
  unfolding all
  All-all [] h = refl
  All-all (x ∷ xs) h = ground (arith, All-all xs h.1)

  pub any_of_mem : (xs : List A) {v : A} → Memᴰ v xs → p v ≡ true → any p xs ≡ true
  unfolding any
  any_of_mem [] m h = elim m [ ]
  any_of_mem (x ∷ xs) {v} (Memᴰ.head e) h = rw (← e) (rw h)
  any_of_mem (x ∷ xs) (Memᴰ.tail m) h = ground (arith, any_of_mem xs m h)

  pub All-find-none : (xs : List A) → All (λ x. p x ≡ false) xs → find p xs ≡ none
  unfolding find
  All-find-none [] h = refl
  All-find-none (x ∷ xs) h = rw h.0 (All-find-none xs h.1)

module _ {ℓ} {A : Type ℓ} where
  abbrev pub take : ℕ → List A → List A
  take zero xs = []
  take (suc n) [] = []
  take (suc n) (x ∷ xs) = x ∷ take n xs

  -- `new` is `old` with something appended.
  abbrev pub Extends : List A → List A → Type ℓ
  Extends old new = (rest : List A) × (new ≡ old ++ rest)

  pub Extends-refl : (xs : List A) → Extends xs xs
  Extends-refl xs = ([], sym (append-nil xs))

  pub Extends-append : (xs ys : List A) → Extends xs (xs ++ ys)
  Extends-append xs ys = (ys, refl)

  pub Extends-trans : (xs ys zs : List A) → Extends xs ys → Extends ys zs → Extends xs zs
  Extends-trans xs ys zs (r, e) (q, f) = (r ++ q, f ∙ ap (λ l. l ++ q) e ∙ append_assoc xs r q)

module _ {ℓ} {A : Type ℓ} where
  length-drop : (n : ℕ) (xs : List A) → length (drop n xs) ≡ length xs - n
  length-drop zero xs = omega arith
  length-drop (suc n) [] = omega arith
  length-drop (suc n) (x ∷ xs) = omega (arith, length-drop n xs)

  pub take-drop : (n : ℕ) (xs : List A) → take n xs ++ drop n xs ≡ xs
  take-drop zero xs = refl
  take-drop (suc n) [] = refl
  take-drop (suc n) (x ∷ xs) = ap (λ ys. x ∷ ys) (take-drop n xs)

  -- The last `n` elements of a list are `n`, or the list has none before them.
  pub take-drop_rest :
      (n : ℕ) (xs : List A)
      → (length (drop (length xs - n) xs) ≡ n)
        ⊎ ((length (drop (length xs - n) xs) ≤ n) × (take (length xs - n) xs ≡ []))
  take-drop_rest n xs = elim (Bool-cases (leb n (length xs))) [
    | inl many ↦ inl (ground (arith, length-drop (length xs - n) xs, many))
    | inr few ↦
        let none_before : length xs - n ≡ 0 = ground (arith, few) in
        inr (ground (arith, length-drop (length xs - n) xs, few), rw none_before refl)
  ]
