-- ===== src/Runtime/Personas/Histories.antt =====
-- The persona profiles over a history of calls that create, revert and activate them.
use astra_agent.Base.{
  ◌≡◌, ◌==◌, ◌&&◌, ◌||◌, refl, ℕ, Bool-cases, inl, inr, not, Option, none, some, List, [], ◌∷◌,
  arith, find, find-test, find-mem, ==→eq, filter, any, is_empty,
}
use astra_agent.Base.Dict.{get, values, mem-get}
use astra_agent.Base.Exec.{◌>>=◌}
use astra_agent.Domain.Models.{Uuid, PersonaProfile, PersonaCore, MigrationBatch, MemoryRecord}
use astra_agent.Runtime.State.{Store, Env}
use astra_agent.Runtime.Personas.{create_persona_profile, revert_persona_profile, next_version}
use astra_agent.Runtime.Migrations.{activate_migration_batch, is_staged, in_batch}
use astra_agent.Runtime.Memories.{is_candidate, is_promoted}
use astra_agent.Runtime.Personas.Versions.{IsVersioned, activate-IsVersioned, revert-IsVersioned}

pub data Call : Type 0 where
  create : Env → PersonaProfile → Uuid → Call
  revert : Env → Uuid → ℕ → Uuid → Call
  activate : Env → Uuid → Uuid → Uuid → Option PersonaCore → Call

unfoldable pub call : Call → Store → Store
call (create env p actor) s = (create_persona_profile env p actor s).1
call (revert env t version actor) s = (revert_persona_profile env t version actor s).1
call (activate env t batch actor core) s = (activate_migration_batch env t batch actor core s).1

unfoldable pub calls : List Call → Store → Store
unfolding call
calls [] s = s
calls (c ∷ cs) s = calls cs (call c s)

-- A call that makes a profile makes it under an id that no profile has.
abbrev pub IsFresh : Call → Store → Type 0
IsFresh (create env p actor) s = get s.personas p.id ≡ none
IsFresh (revert env t version actor) s = Unit
IsFresh (activate env t batch actor core) s = get s.personas (env.fresh 0) ≡ none

abbrev pub AllFresh : List Call → Store → Type 0
AllFresh [] s = Unit
AllFresh (c ∷ cs) s = IsFresh c s × AllFresh cs (call c s)

keep-IsVersioned :
    (s s' : Store)
    → s'.personas ≡ s.personas
    → s'.active_persona_ids ≡ s.active_persona_ids
    → IsVersioned s
    → IsVersioned s'
keep-IsVersioned s s' same same_active v = record {
  keyed = rw same v.keyed;
  unique = λ j k p q at_j at_k. v.unique j k p q (rw same at at_j) (rw same at at_k);
  active =
      λ t k e. let (p, at_k, own) = v.active t k (rw same_active at e) in (p, rw same at_k, own);
}

create-IsVersioned :
    (env : Env) (p : PersonaProfile) (actor : Uuid) (s : Store)
    → get s.personas p.id ≡ none
    → IsVersioned s
    → IsVersioned (create_persona_profile env p actor s).1
unfolding create_persona_profile ◌>>=◌
create-IsVersioned env p actor s fresh v =
    elim (Bool-cases (p.version == next_version p.tenant_id s)) [
      | inl next ↦ rw next (
          activate-IsVersioned s _ p v fresh (==→eq p.version (next_version p.tenant_id s) next)
            refl refl)
      | inr other ↦ rw other v
    ]

revert_call-IsVersioned :
    (env : Env) (t version actor : Uuid) (s : Store)
    → IsVersioned s
    → IsVersioned (revert_persona_profile env t version actor s).1
unfolding revert_persona_profile ◌>>=◌
revert_call-IsVersioned env t version actor s v =
    inspect
      (find (λ (p : PersonaProfile). p.tenant_id == t && p.version == version) (values s.personas))
      refl
  where
    inspect :
        (o : Option PersonaProfile)
        → find
            (λ (p : PersonaProfile). p.tenant_id == t && p.version == version)
            (values s.personas)
          ≡ o
        → IsVersioned (revert_persona_profile env t version actor s).1
    inspect none e = rw e v
    inspect (some p) e =
        let hit =
          find-test (λ (p : PersonaProfile). p.tenant_id == t && p.version == version)
            (values s.personas) e in
        let at_p =
          mem-get (λ (p : PersonaProfile). p.id) s.personas {v = p} v.keyed
            (find-mem (λ (p : PersonaProfile). p.tenant_id == t && p.version == version)
              (values s.personas) e) in
        rw e (revert-IsVersioned s _ t p v at_p (ground (arith, hit)) refl refl)

activate_call-IsVersioned :
    (env : Env) (t batch actor : Uuid) (core : Option PersonaCore) (s : Store)
    → get s.personas (env.fresh 0) ≡ none
    → IsVersioned s
    → IsVersioned (activate_migration_batch env t batch actor core s).1
unfolding activate_migration_batch next_version ◌>>=◌
activate_call-IsVersioned env t batch actor none s fresh v = v
activate_call-IsVersioned env t batch actor (some core) s fresh v =
    inspect (get s.migration_batches batch) refl
  where
    inspect :
        (o : Option MigrationBatch)
        → get s.migration_batches batch ≡ o
        → IsVersioned (activate_migration_batch env t batch actor (some core) s).1
    inspect none e = rw e v
    inspect (some b) e = elim (Bool-cases (b.tenant_id == t)) [
      | inr other ↦ rw (e, other) v
      | inl own ↦ elim (Bool-cases (is_staged b.state)) [
        | inr out ↦ rw (e, own, out) v
        | inl staged ↦
            elim (Bool-cases (
              not (is_empty (filter (in_batch t batch) (values s.memories)))
              && any (λ (m : MemoryRecord). is_candidate m.state || is_promoted m.state)
                  (filter (in_batch t batch) (values s.memories)))) [
                    | inr nothing ↦ rw (e, own, staged, nothing) v
                    | inl facts ↦
                        rw (e, own, staged, facts)
                          (activate-IsVersioned s _ _ v fresh refl refl refl)
                  ]
      ]
    ]

call-IsVersioned : (c : Call) (s : Store) → IsFresh c s → IsVersioned s → IsVersioned (call c s)
unfolding call
call-IsVersioned (create env p actor) s fresh v = create-IsVersioned env p actor s fresh v
call-IsVersioned (revert env t version actor) s fresh v =
    revert_call-IsVersioned env t version actor s v
call-IsVersioned (activate env t batch actor core) s fresh v =
    activate_call-IsVersioned env t batch actor core s fresh v

-- Over any history of calls that create, revert or activate profiles, returning or raising, and make
-- them under new ids, a tenant's profiles have different versions and its active profile is a stored
-- one of its own.
pub calls-IsVersioned :
    (cs : List Call) (s : Store) → AllFresh cs s → IsVersioned s → IsVersioned (calls cs s)
unfolding calls
calls-IsVersioned [] s fresh v = v
calls-IsVersioned (c ∷ cs) s fresh v =
    calls-IsVersioned cs (call c s) fresh.1 (call-IsVersioned c s fresh.0 v)
