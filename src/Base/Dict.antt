-- ===== src/Base/Dict.antt =====
-- Python's `dict` with ids as keys. Iteration follows the order of insertion, and writing to a
-- key that is there keeps its place, so a dictionary is the list of its items.
use mathlib.Core.List.{Memᴰ}
use Prim.Native.Nat.{ℕ}
use mathlib.Core.Path.{◌≡◌, refl, ap, subst}
use mathlib.Core.Logic.{inl, inr, ◌⊎◌}
use mathlib.Core.Bool.{Bool, true, false}
use mathlib.Core.Option.{Option, none, some}
use mathlib.Core.List.{List, [], ◌∷◌}
use native.Mathlib.Omega.{arith}
use astra_agent.Base.Tests.{if◌then◌else◌, Bool-cases, ◌==◌, ==→eq}
use astra_agent.Base.Lists.{All, find}

abbrev pub Dict {ℓ} : Type ℓ → Type ℓ
Dict V = List (ℕ × V)

module _ {ℓ} {V : Type ℓ} where
  -- `d.get(k)`
  unfoldable pub get : Dict V → ℕ → Option V
  get [] k = none
  get ((j, v) ∷ d) k = if j == k then some v else get d k

  -- `d[k] = v`
  unfoldable pub put : Dict V → ℕ → V → Dict V
  put [] k v = (k, v) ∷ []
  put ((j, w) ∷ d) k v = let rest = put d k v in if j == k then (k, v) ∷ d else (j, w) ∷ rest

  -- `d.values()`
  unfoldable pub values : Dict V → List V
  values [] = []
  values ((j, v) ∷ d) = v ∷ values d

  -- The loop that deletes each item whose value passes a test.
  unfoldable pub discard : (V → Bool) → Dict V → Dict V
  discard p [] = []
  discard p ((j, v) ∷ d) = let rest = discard p d in if p v then rest else (j, v) ∷ rest

  pub get-put :
      (d : Dict V) (k j : ℕ) (v : V) → get (put d k v) j ≡ (if k == j then some v else get d j)
  unfolding get put
  get-put [] k j v = refl
  get-put ((i, w) ∷ d) k j v = ground (arith, get-put d k j v)

  pub get-put_self : (d : Dict V) (k : ℕ) (v : V) → get (put d k v) k ≡ some v
  get-put_self d k v = ground (arith, get-put d k k v)

  -- What is found after a write is what was written, or was there under another key.
  pub get-put_cases :
      (d : Dict V) (k j : ℕ) (v w : V)
      → get (put d k v) j ≡ some w
      → ((k ≡ j) × (v ≡ w)) ⊎ (((k == j) ≡ false) × (get d j ≡ some w))
  get-put_cases d k j v w e = elim (Bool-cases (k == j)) [
    | inl hit ↦ inl (==→eq k j hit, ground (arith, get-put d k j v, e, hit))
    | inr miss ↦ inr (miss, ground (arith, get-put d k j v, e, miss))
  ]

  -- `P` holds of every item, its key included.
  abbrev pub Each {κ} : (ℕ → V → Type κ) → Dict V → Type κ
  Each P [] = Unit
  Each P ((j, v) ∷ d) = P j v × Each P d

  pub Each-get {κ} :
      (P : ℕ → V → Type κ) (d : Dict V) (k : ℕ) {v : V} → Each P d → get d k ≡ some v → P k v
  unfolding get
  Each-get P [] k h e = cc
  Each-get P ((j, w) ∷ d) k {v} h e = elim (Bool-cases (j == k)) [
    | inl hit ↦ subst (λ i. P i v) (==→eq j k hit) (subst (P j) (cc (e, hit)) h.0)
    | inr miss ↦ Each-get P d k h.1 (rw miss at e)
  ]

  pub Each-put {κ} :
      (P : ℕ → V → Type κ) (d : Dict V) (k : ℕ) (v : V) → P k v → Each P d → Each P (put d k v)
  unfolding put
  Each-put P [] k v pv h = (pv, tt)
  Each-put P ((j, w) ∷ d) k v pv h = elim (Bool-cases (j == k)) [
    | inl hit ↦ rw hit (pv, h.1)
    | inr miss ↦ rw miss (h.0, Each-put P d k v pv h.1)
  ]

  pub Each-discard {κ} :
      (P : ℕ → V → Type κ) (p : V → Bool) (d : Dict V) → Each P d → Each P (discard p d)
  unfolding discard
  Each-discard P p [] h = tt
  Each-discard P p ((j, w) ∷ d) h = elim (Bool-cases (p w)) [
    | inl out ↦ rw out (Each-discard P p d h.1)
    | inr kept ↦ rw kept (h.0, Each-discard P p d h.1)
  ]

  pub discard-test : (p : V → Bool) (d : Dict V) → Each (λ _ v. p v ≡ false) (discard p d)
  unfolding discard
  discard-test p [] = tt
  discard-test p ((j, w) ∷ d) = elim (Bool-cases (p w)) [
    | inl out ↦ rw out (discard-test p d)
    | inr kept ↦ rw kept (kept, discard-test p d)
  ]

  pub values-All {κ} : (P : V → Type κ) (d : Dict V) → Each (λ _ v. P v) d → All P (values d)
  unfolding values
  values-All P [] h = tt
  values-All P ((j, v) ∷ d) h = (h.0, values-All P d h.1)

  pub get-mem : (d : Dict V) (k : ℕ) {v : V} → get d k ≡ some v → Memᴰ v (values d)
  unfolding get values
  get-mem [] k e = cc
  get-mem ((j, w) ∷ d) k e = elim (Bool-cases (j == k)) [
    | inl hit ↦ Memᴰ.head (cc (e, hit))
    | inr miss ↦ Memᴰ.tail (get-mem d k (rw miss at e))
  ]

-- A dictionary whose values are stored under their own id, one for each.
module _ {ℓ} {V : Type ℓ} (id : V → ℕ) where
  abbrev pub IsIndex : Dict V → Type ℓ
  IsIndex [] = Unit
  IsIndex ((j, v) ∷ d) = (id v ≡ j) × (get d j ≡ none) × IsIndex d

  pub put-IsIndex : (d : Dict V) (k : ℕ) (v : V) → id v ≡ k → IsIndex d → IsIndex (put d k v)
  unfolding put get
  put-IsIndex [] k v e h = (e, refl, tt)
  put-IsIndex ((j, w) ∷ d) k v e h = elim (Bool-cases (j == k)) [
    | inl hit ↦ rw hit (e, ground arith, h.2)
    | inr miss ↦ rw miss (h.0, ground (arith, get-put d k j v), put-IsIndex d k v e h.2)
  ]

  pub mem-get : (d : Dict V) {v : V} → IsIndex d → Memᴰ v (values d) → get d (id v) ≡ some v
  unfolding get values
  mem-get [] h m = elim m [ ]
  mem-get ((j, w) ∷ d) h (Memᴰ.head e) = rw e (ground arith)
  mem-get ((j, w) ∷ d) {v} h (Memᴰ.tail m) =
      let ih = mem-get d {v = v} h.2 m in
      elim (Bool-cases (j == id v)) [
        | inl same ↦ cc (ih, ap (get d) (==→eq j (id v) same), h.1)
        | inr other ↦ rw other ih
      ]

  pub get-IsIndex : (d : Dict V) (k : ℕ) {v : V} → IsIndex d → get d k ≡ some v → id v ≡ k
  unfolding get
  get-IsIndex [] k h e = cc
  get-IsIndex ((j, w) ∷ d) k {v} h e = elim (Bool-cases (j == k)) [
    | inl hit ↦ ground (arith, hit, h.0, e, ==→eq j k hit)
    | inr miss ↦ get-IsIndex d k h.2 (rw miss at e)
  ]

module _ {ℓ} {V : Type ℓ} where
  pub Each-imp {κ μ} :
      (P : ℕ → V → Type κ) (Q : ℕ → V → Type μ)
      → ((k : ℕ) (v : V) → P k v → Q k v)
      → (d : Dict V) → Each P d
      → Each Q d
  Each-imp P Q f [] h = tt
  Each-imp P Q f ((j, v) ∷ d) h = (f j v h.0, Each-imp P Q f d h.1)

  -- Where no value passed a test, a written value that passes it is the one found.
  pub find-put :
      (p : V → Bool) (d : Dict V) (k : ℕ) (v : V)
      → find p (values d) ≡ none
      → p v ≡ true
      → find p (values (put d k v)) ≡ some v
  unfolding find values put
  find-put p [] k v h hit = rw hit refl
  find-put p ((j, w) ∷ d) k v h hit = ground (arith, find-put p d k v)
