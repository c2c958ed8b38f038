-- ===== src/Runtime/Personas/Versions.antt =====
-- The versions of a tenant's persona profiles, and the profile that is active.
use mathlib.Core.List.{Memᴰ}
use astra_agent.Base.{
  ◌≡◌, ◌≤◌, ◌<◌, ◌==◌, inl, inr, refl, sym, ap, ◌∙◌, ℕ, Bool-cases, true, none, some, List, [], ◌∷◌,
  map, arith, filter,
}
use astra_agent.Base.Dict.{
  get, put, values, get-put, get-put_self, get-put_cases, get-mem, IsIndex, put-IsIndex,
}
use astra_agent.Domain.Models.{Uuid, PersonaProfile}
use astra_agent.Runtime.State.{Store}
use astra_agent.Runtime.Personas.{next_version, max_or_zero, versions}

max_or_zero-bound : (xs : List ℕ) (x : ℕ) → Memᴰ x xs → x ≤ max_or_zero xs
unfolding max_or_zero
max_or_zero-bound [] x m = elim m [ ]
max_or_zero-bound (y ∷ ys) x (Memᴰ.head e) = ground (arith, e)
max_or_zero-bound (y ∷ ys) x (Memᴰ.tail m) = ground (arith, max_or_zero-bound ys x m)

versions-mem :
    (t : Uuid) (p : PersonaProfile) (ps : List PersonaProfile)
    → Memᴰ p ps
    → p.tenant_id ≡ t
    → Memᴰ p.version (map (λ (q : PersonaProfile). q.version) (filter (λ q. q.tenant_id == t) ps))
unfolding filter
versions-mem t p [] m own = elim m [ ]
versions-mem t p (q ∷ ps) (Memᴰ.head e) own =
    let hit : (q.tenant_id == t) ≡ true = ground (arith, e, own) in
    rw hit (Memᴰ.head (ap (λ (x : PersonaProfile). x.version) e))
versions-mem t p (q ∷ ps) (Memᴰ.tail m) own = elim (Bool-cases (q.tenant_id == t)) [
  | inl hit ↦ rw hit (Memᴰ.tail (versions-mem t p ps m own))
  | inr miss ↦ rw miss (versions-mem t p ps m own)
]

-- The next version is above every version that the tenant has.
next_version-above :
    (t k : Uuid) (s : Store) (p : PersonaProfile)
    → get s.personas k ≡ some p
    → p.tenant_id ≡ t
    → p.version < next_version t s
unfolding next_version
next_version-above t k s p at_k own = omega (
  arith,
  max_or_zero-bound (versions t s) p.version
      (versions-mem t p (values s.personas) (get-mem s.personas k at_k) own),
)

-- Profiles are stored under their own ids, a tenant's profiles have different versions, and the profile that is active for a tenant is stored
-- and its own.
pub record IsVersioned (s : Store) : Type 0 where
  pub keyed : IsIndex (λ p. p.id) s.personas
  pub unique :
      (j k : Uuid) (p q : PersonaProfile)
      → get s.personas j ≡ some p
      → get s.personas k ≡ some q
      → p.tenant_id ≡ q.tenant_id
      → p.version ≡ q.version
      → j ≡ k
  pub active :
      (t k : Uuid)
      → get s.active_persona_ids t ≡ some k
      → (p : PersonaProfile) × (get s.personas k ≡ some p) × (p.tenant_id ≡ t)

-- Storing a profile under a new id, with a version that its tenant does not have, and making it the
-- active one.
pub activate-IsVersioned :
    (s s' : Store) (p : PersonaProfile)
    → IsVersioned s
    → get s.personas p.id ≡ none
    → p.version ≡ next_version p.tenant_id s
    → s'.personas ≡ put s.personas p.id p
    → s'.active_persona_ids ≡ put s.active_persona_ids p.tenant_id p.id
    → IsVersioned s'
activate-IsVersioned s s' p v fresh next stored made_active = record {
  keyed = rw stored (put-IsIndex (λ (x : PersonaProfile). x.id) s.personas p.id p refl v.keyed);
  unique = unique;
  active = active;
}
  where
    no_other :
        (k : Uuid) (q : PersonaProfile)
        → get s.personas k ≡ some q
        → p.tenant_id ≡ q.tenant_id
        → p.version ≡ q.version
        → ⊥
    no_other k q at_k own same =
        let below = next_version-above p.tenant_id k s q at_k (sym own) in
        omega (arith, below, next, same)

    unique :
        (j k : Uuid) (q r : PersonaProfile)
        → get s'.personas j ≡ some q
        → get s'.personas k ≡ some r
        → q.tenant_id ≡ r.tenant_id
        → q.version ≡ r.version
        → j ≡ k
    unique j k q r at_j at_k own same =
        elim (get-put_cases s.personas p.id j p q (rw stored at at_j)) [
          | inl (key_j, new_j) ↦ elim (get-put_cases s.personas p.id k p r (rw stored at at_k)) [
            | inl (key_k, new_k) ↦ sym key_j ∙ key_k
            | inr (_, old_k) ↦ absurd (
                no_other k r old_k (ap (λ (x : PersonaProfile). x.tenant_id) new_j ∙ own)
                  (ap (λ (x : PersonaProfile). x.version) new_j ∙ same))
          ]
          | inr (_, old_j) ↦ elim (get-put_cases s.personas p.id k p r (rw stored at at_k)) [
            | inl (key_k, new_k) ↦ absurd (
                no_other j q old_j (ap (λ (x : PersonaProfile). x.tenant_id) new_k ∙ sym own)
                  (ap (λ (x : PersonaProfile). x.version) new_k ∙ sym same))
            | inr (_, old_k) ↦ v.unique j k q r old_j old_k own same
          ]
        ]

    active :
        (t k : Uuid)
        → get s'.active_persona_ids t ≡ some k
        → (q : PersonaProfile) × (get s'.personas k ≡ some q) × (q.tenant_id ≡ t)
    active t k e =
        elim (get-put_cases s.active_persona_ids p.tenant_id t p.id k (rw made_active at e)) [
          | inl (tenant, id) ↦ (p, rw (stored, ← id) (get-put_self s.personas p.id p), tenant)
          | inr (_, old) ↦
              let (q, at_k, own) = v.active t k old in
              (q, ground (arith, stored, at_k, fresh, get-put s.personas p.id k p), own)
        ]

-- Making a stored profile of a tenant its active one.
pub revert-IsVersioned :
    (s s' : Store) (t : Uuid) (p : PersonaProfile)
    → IsVersioned s
    → get s.personas p.id ≡ some p
    → p.tenant_id ≡ t
    → s'.personas ≡ s.personas
    → s'.active_persona_ids ≡ put s.active_persona_ids t p.id
    → IsVersioned s'
revert-IsVersioned s s' t p v at_p own stored made_active = record {
  keyed = rw stored v.keyed;
  unique = λ j k q r at_j at_k. v.unique j k q r (rw stored at at_j) (rw stored at at_k);
  active = λ u k e. elim (get-put_cases s.active_persona_ids t u p.id k (rw made_active at e)) [
    | inl (tenant, id) ↦ (p, rw (stored, ← id) at_p, own ∙ tenant)
    | inr (_, old) ↦ let (q, at_k, own_q) = v.active u k old in (q, rw stored at_k, own_q)
  ];
}
