-- ===== src/Domain/Capabilities.antt =====
-- Equality of capabilities, and the membership tests `capability in capabilities`.
use mathlib.Core.List.{Memᴰ}
use astra_agent.Base.{
  ◌≡◌, ◌↔◌, Bool, true, false, ◌&&◌, ◌||◌, List, [], ◌∷◌, arith, ◌==◌, str_eq, str_eq_iff, all,
  Bool-cases, inl, inr, All, All-imp, all-All,
}
use astra_agent.Domain.Kinds.{CapabilityKind, kind_index, file_read}
use astra_agent.Domain.Models.{Capability}

unfoldable pub same_capability : Capability → Capability → Bool
same_capability a b = kind_index a.kind == kind_index b.kind && str_eq a.scope b.scope

-- `capability in capabilities`
unfoldable pub is_in : Capability → List Capability → Bool
is_in c [] = false
is_in c (d ∷ ds) = same_capability c d || is_in c ds

-- `all(capability in granted for capability in required)`
unfoldable pub covers : List Capability → List Capability → Bool
covers granted required = all (λ c. is_in c granted) required

kind_index-injective : (a b : CapabilityKind) → kind_index a ≡ kind_index b → a ≡ b
kind_index-injective file_read b h = ground arith
kind_index-injective _ b h = ground arith

pub same_capability_iff : (a b : Capability) → (same_capability a b ≡ true) ↔ (a ≡ b)
unfolding same_capability
same_capability_iff a b = (
  λ h. ground (arith, kind_index-injective a.kind b.kind, str_eq_iff a.scope b.scope),
  λ h. ground (arith, str_eq_iff a.scope b.scope),
)

pub is_in-mem : (c : Capability) (ds : List Capability) → is_in c ds ≡ true → Memᴰ c ds
unfolding is_in
is_in-mem c [] h = cc
is_in-mem c (d ∷ ds) h = elim (Bool-cases (same_capability c d)) [
  | inl hit ↦ Memᴰ.head ((same_capability_iff c d).0 hit)
  | inr miss ↦ Memᴰ.tail (is_in-mem c ds (rw miss at h))
]

pub mem-is_in : (c : Capability) (ds : List Capability) → Memᴰ c ds → is_in c ds ≡ true
unfolding is_in
mem-is_in c [] m = elim m [ ]
mem-is_in c (d ∷ ds) (Memᴰ.head e) = rw ((same_capability_iff c d).1 e)
mem-is_in c (d ∷ ds) (Memᴰ.tail m) = ground (arith, mem-is_in c ds m)

-- `covers` holds exactly of a list whose every capability is granted.
pub covers-All :
    (granted required : List Capability)
    → covers granted required ≡ true
    → All (λ c. Memᴰ c granted) required
unfolding covers
covers-All granted required h =
    All-imp _ _ (λ c e. is_in-mem c granted e) required (all-All _ required h)
