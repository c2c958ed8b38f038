-- ===== src/Runtime/Migrations/Activations.antt =====
-- What the activation of an import batch leaves behind.
use mathlib.Core.List.{Memᴰ}
use astra_agent.Base.{
  ◌≡◌, ◌==◌, ◌&&◌, ◌||◌, inl, inr, refl, sym, ap, Bool, ◌∙◌, Bool-cases, true, not, Option, none,
  some, List, arith, if◌then◌else◌, ==→eq, filter, filter-mem, mem-filter, is_empty, any,
}
use astra_agent.Base.Dict.{get, put, values, get-put_self, IsIndex}
use astra_agent.Base.Exec.{ok, err, Failure, Result, ◌>>=◌}
use astra_agent.Domain.Kinds.{MigrationBatchState}
use astra_agent.Domain.Models.{Uuid, MemoryRecord, MigrationBatch, PersonaCore, PersonaProfile}
use astra_agent.Runtime.State.{Store, Env}
use astra_agent.Runtime.Memories.{is_candidate, is_promoted}
use astra_agent.Runtime.Personas.{next_version, get_active_persona}
use astra_agent.Runtime.Migrations.{
  activate_migration_batch, in_batch, is_staged, promoted_memory, put_each,
}
use astra_agent.Runtime.Migrations.Writes.{put_each-get}

module _ (env : Env) (t k actor : Uuid) (core : PersonaCore) (s : Store) where
  abbrev pub promotes : MemoryRecord → Bool
  promotes m = in_batch t k m && is_candidate m.state

  abbrev own_facts : List MemoryRecord
  own_facts = filter (in_batch t k) (values s.memories)

  abbrev candidates : List MemoryRecord
  candidates = filter (λ (m : MemoryRecord). is_candidate m.state) own_facts

  abbrev pub profile : PersonaProfile
  profile = record {
    id = env.fresh 0;
    tenant_id = t;
    version = next_version t s;
    authored_core = core;
    created_at = env.created 0;
  }

  abbrev active : MigrationBatch → MigrationBatch
  active b = record b {
    state = MigrationBatchState.active;
    persona_profile_id = some (env.fresh 0);
    activated_at = some (env.now 0);
  }

  data Activation : Result MigrationBatch × Store → Type 0 where
    kept : (e : Failure) → Activation (err e, s)
    activated :
        (b : MigrationBatch) (s' : Store)
        → get s.migration_batches k ≡ some b
        → b.tenant_id ≡ t
        → is_staged b.state ≡ true
        → s'.memories ≡ put_each (promoted_memory (env.now 0) actor) candidates s.memories
        → s'.personas ≡ put s.personas (env.fresh 0) profile
        → s'.active_persona_ids ≡ put s.active_persona_ids t (env.fresh 0)
        → get s'.migration_batches k ≡ some (active b)
        → Activation (ok (active b), s')

  activation : Activation (activate_migration_batch env t k actor (some core) s)
  unfolding activate_migration_batch next_version ◌>>=◌
  activation = inspect (get s.migration_batches k) refl
    where
      inspect :
          (o : Option MigrationBatch)
          → get s.migration_batches k ≡ o
          → Activation (activate_migration_batch env t k actor (some core) s)
      inspect none e = rw e (kept _)
      inspect (some b) e = elim (Bool-cases (b.tenant_id == t)) [
        | inr other ↦ rw (e, other) (kept _)
        | inl own ↦ elim (Bool-cases (is_staged b.state)) [
          | inr out ↦ rw (e, own, out) (kept _)
          | inl staged ↦
              elim (Bool-cases (
                not (is_empty own_facts)
                && any (λ (m : MemoryRecord). is_candidate m.state || is_promoted m.state)
                    own_facts)) [
                      | inr nothing ↦ rw (e, own, staged, nothing) (kept _)
                      | inl facts ↦
                          rw (e, own, staged, facts)
                            (activated b _ e (==→eq b.tenant_id t own) staged refl refl refl
                              (get-put_self s.migration_batches k (active b)))
                    ]
        ]
      ]

  active_profile :
      (s' : Store)
      → s'.personas ≡ put s.personas (env.fresh 0) profile
      → s'.active_persona_ids ≡ put s.active_persona_ids t (env.fresh 0)
      → (get_active_persona t s').0 ≡ ok (some profile)
  unfolding get_active_persona ◌>>=◌
  active_profile s' stored made_active =
      rw (made_active, get-put_self s.active_persona_ids t (env.fresh 0), stored)
        (ap (λ o. ok o) (get-put_self s.personas (env.fresh 0) profile))

  candidates-mem :
      (x : MemoryRecord) → Memᴰ x candidates → Memᴰ x (values s.memories) × (promotes x ≡ true)
  candidates-mem x m =
      let (own, waits) = filter-mem (λ (z : MemoryRecord). is_candidate z.state) own_facts m in
      let (stored, hit) = filter-mem (in_batch t k) (values s.memories) own in
      (stored, ground (arith, hit, waits))

  mem-candidates :
      (x : MemoryRecord) → Memᴰ x (values s.memories) → promotes x ≡ true → Memᴰ x candidates
  mem-candidates x m hit =
      mem-filter (λ (z : MemoryRecord). is_candidate z.state) own_facts
        (mem-filter (in_batch t k) (values s.memories) m (ground (arith, hit)))
        (ground (arith, hit))

  -- An activation that returns promotes every candidate of the batch and changes no other memory,
  -- gives the tenant the next version of its persona with the authored core and makes it the active
  -- one, and marks the batch, which was the tenant's and staged, as active. The memories are stored
  -- under their own ids.
  pub activate_migration_batch-promotes :
      (b : MigrationBatch)
      → IsIndex (λ m. m.id) s.memories
      → (j : Uuid) (m : MemoryRecord) → get s.memories j ≡ some m
      → (activate_migration_batch env t k actor (some core) s).0 ≡ ok b
      → (b.state ≡ MigrationBatchState.active)
        × (b.tenant_id ≡ t)
        × (get (activate_migration_batch env t k actor (some core) s).1.migration_batches k
            ≡ some b)
        × (get (activate_migration_batch env t k actor (some core) s).1.memories j
            ≡ some (if promotes m then promoted_memory (env.now 0) actor m else m))
        × ((get_active_persona t (activate_migration_batch env t k actor (some core) s).1).0
            ≡ ok (some profile))
  activate_migration_batch-promotes b index j m at_j h = read _ activation h
    where
      read :
          (r : Result MigrationBatch × Store)
          → Activation r
          → r.0 ≡ ok b
          → (b.state ≡ MigrationBatchState.active)
            × (b.tenant_id ≡ t)
            × (get r.1.migration_batches k ≡ some b)
            × (get r.1.memories j
                ≡ some (if promotes m then promoted_memory (env.now 0) actor m else m))
            × ((get_active_persona t r.1).0 ≡ ok (some profile))
      read _ (kept e) h = cc h
      read _ (activated x s' found own staged after stored made_active batch) h =
          let same : active x ≡ b = cc h in
          (
            ap (λ (z : MigrationBatch). z.state) (sym same),
            ap (λ (z : MigrationBatch). z.tenant_id) (sym same) ∙ own,
            batch ∙ ap some same,
            rw after (
                put_each-get (promoted_memory (env.now 0) actor) promotes candidates s.memories
                  index candidates-mem mem-candidates j m at_j),
            active_profile s' stored made_active,
          )
