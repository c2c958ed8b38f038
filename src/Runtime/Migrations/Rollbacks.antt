-- ===== src/Runtime/Migrations/Rollbacks.antt =====
-- What the rollback of an import batch leaves behind.
use astra_agent.Base.{
  ◌≡◌, ◌==◌, inl, inr, refl, sym, ap, ◌∙◌, Bool-cases, false, Option, none, some, List, map,
  if◌then◌else◌, ==→eq, filter, filter-mem, mem-filter,
}
use astra_agent.Base.Dict.{get, values, get-put_self, IsIndex}
use astra_agent.Base.Exec.{ok, err, Failure, Result, ◌>>=◌}
use astra_agent.Domain.Kinds.{MigrationBatchState}
use astra_agent.Domain.Models.{Uuid, MemoryRecord, MigrationBatch}
use astra_agent.Runtime.State.{Store, Env}
use astra_agent.Runtime.Memories.{deleted_memory}
use astra_agent.Runtime.Migrations.{rollback_migration_batch, is_live_in, is_rolled_back, put_each}
use astra_agent.Runtime.Migrations.Writes.{put_each-get, put_each-map}

module _ (env : Env) (t k actor : Uuid) (s : Store) where
  abbrev pub live : List MemoryRecord
  live = filter (is_live_in k) (values s.memories)

  abbrev rolled : MigrationBatch → MigrationBatch
  rolled b = record b { state = MigrationBatchState.rolled_back; rolled_back_at = some (env.now 0) }

  data Rollback : Result (MigrationBatch × List MemoryRecord) × Store → Type 0 where
    kept : (e : Failure) → Rollback (err e, s)
    undone :
        (b : MigrationBatch) (s' : Store)
        → get s.migration_batches k ≡ some b
        → b.tenant_id ≡ t
        → is_rolled_back b.state ≡ false
        → s'.memories ≡ put_each (λ m. m) (map (deleted_memory (env.now 0)) live) s.memories
        → get s'.migration_batches k ≡ some (rolled b)
        → Rollback (ok (rolled b, map (deleted_memory (env.now 0)) live), s')

  rollback : Rollback (rollback_migration_batch env t k actor s)
  unfolding rollback_migration_batch ◌>>=◌
  rollback = inspect (get s.migration_batches k) refl
    where
      inspect :
          (o : Option MigrationBatch)
          → get s.migration_batches k ≡ o
          → Rollback (rollback_migration_batch env t k actor s)
      inspect none e = rw e (kept _)
      inspect (some b) e = elim (Bool-cases (b.tenant_id == t)) [
        | inr other ↦ rw (e, other) (kept _)
        | inl own ↦ elim (Bool-cases (is_rolled_back b.state)) [
          | inl done ↦ rw (e, own, done) (kept _)
          | inr todo ↦
              rw (e, own, todo)
                (undone b _ e (==→eq b.tenant_id t own) todo refl
                  (get-put_self s.migration_batches k (rolled b)))
        ]
      ]

  -- A rollback that returns deletes every standing memory of the batch and changes no other, marks the
  -- batch, which was the tenant's, as rolled back, and returns it with the deleted memories. The
  -- memories are stored under their own ids.
  pub rollback_migration_batch-deletes :
      (b : MigrationBatch) (deleted : List MemoryRecord)
      → IsIndex (λ m. m.id) s.memories
      → (j : Uuid) (m : MemoryRecord) → get s.memories j ≡ some m
      → (rollback_migration_batch env t k actor s).0 ≡ ok (b, deleted)
      → (b.state ≡ MigrationBatchState.rolled_back)
        × (b.tenant_id ≡ t)
        × (get (rollback_migration_batch env t k actor s).1.migration_batches k ≡ some b)
        × (deleted ≡ map (deleted_memory (env.now 0)) live)
        × (get (rollback_migration_batch env t k actor s).1.memories j
            ≡ some (if is_live_in k m then deleted_memory (env.now 0) m else m))
  rollback_migration_batch-deletes b deleted index j m at_j h = read _ rollback h
    where
      read :
          (r : Result (MigrationBatch × List MemoryRecord) × Store)
          → Rollback r
          → r.0 ≡ ok (b, deleted)
          → (b.state ≡ MigrationBatchState.rolled_back)
            × (b.tenant_id ≡ t)
            × (get r.1.migration_batches k ≡ some b)
            × (deleted ≡ map (deleted_memory (env.now 0)) live)
            × (get r.1.memories j
                ≡ some (if is_live_in k m then deleted_memory (env.now 0) m else m))
      read _ (kept e) h = cc h
      read _ (undone x s' found own todo after batch) h =
          let same : rolled x ≡ b = cc h in
          let gone : map (deleted_memory (env.now 0)) live ≡ deleted = cc h in
          let written : s'.memories ≡ put_each (deleted_memory (env.now 0)) live s.memories =
            after ∙ put_each-map (deleted_memory (env.now 0)) live s.memories (λ m. refl) in
          (
            ap (λ (z : MigrationBatch). z.state) (sym same),
            ap (λ (z : MigrationBatch). z.tenant_id) (sym same) ∙ own,
            batch ∙ ap some same,
            sym gone,
            rw written (
                put_each-get (deleted_memory (env.now 0)) (is_live_in k) live s.memories index
                  (λ x. filter-mem (is_live_in k) (values s.memories))
                  (λ x. mem-filter (is_live_in k) (values s.memories)) j m at_j),
          )
