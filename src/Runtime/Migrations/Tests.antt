-- ===== src/Runtime/Migrations/Tests.antt =====
-- A staged batch with one candidate: its activation, its rollback, and the theorems at them.
use astra_agent.Base.{◌≡◌, refl, some, List, [], ◌∷◌, map, filter, any}
use astra_agent.Base.Dict.{get, put, values}
use astra_agent.Base.Exec.{ok, ◌>>=◌}
use astra_agent.Domain.Kinds.{MigrationBatchState}
use astra_agent.Domain.Models.{MigrationBatch, MemoryRecord}
use astra_agent.Runtime.Samples.{env, core, batch, imported_fact, batch_staged}
use astra_agent.Runtime.Memories.{deleted_memory}
use astra_agent.Runtime.Personas.{next_version, max_or_zero, get_active_persona}
use astra_agent.Runtime.Migrations.{
  rollback_migration_batch, activate_migration_batch, promoted_memory, put_each,
}
use astra_agent.Runtime.Migrations.Rollbacks.{live, rollback_migration_batch-deletes}
use astra_agent.Runtime.Migrations.Activations.{profile, activate_migration_batch-promotes}

abbrev undone : MigrationBatch
undone = record batch { state = MigrationBatchState.rolled_back; rolled_back_at = some 1000 }

abbrev gone : List MemoryRecord
gone = deleted_memory 1000 imported_fact ∷ []

rolls_back : (rollback_migration_batch env 1 110 2 batch_staged).0 ≡ ok (undone, gone)
unfolding rollback_migration_batch put_each filter values get put ◌>>=◌
rolls_back = refl

at_fact : get batch_staged.memories 100 ≡ some imported_fact
unfolding get
at_fact = refl

rollback_migration_batch-deletes_example :
    (undone.state ≡ MigrationBatchState.rolled_back)
    × (undone.tenant_id ≡ 1)
    × (get (rollback_migration_batch env 1 110 2 batch_staged).1.migration_batches 110
        ≡ some undone)
    × (gone ≡ map (deleted_memory 1000) (live env 1 110 2 batch_staged))
    × (get (rollback_migration_batch env 1 110 2 batch_staged).1.memories 100
        ≡ some (deleted_memory 1000 imported_fact))
unfolding get
rollback_migration_batch-deletes_example =
    rollback_migration_batch-deletes env 1 110 2 batch_staged undone gone
      (refl, refl, (refl, refl, tt)) 100 imported_fact at_fact rolls_back

abbrev activated : MigrationBatch
activated = record batch {
  state = MigrationBatchState.active;
  persona_profile_id = some 500;
  activated_at = some 1000;
}

activates : (activate_migration_batch env 1 110 2 (some core) batch_staged).0 ≡ ok activated
unfolding activate_migration_batch next_version max_or_zero put_each filter any values get put ◌>>=◌
activates = refl

activate_migration_batch-promotes_example :
    (activated.state ≡ MigrationBatchState.active)
    × (activated.tenant_id ≡ 1)
    × (get (activate_migration_batch env 1 110 2 (some core) batch_staged).1.migration_batches 110
        ≡ some activated)
    × (get (activate_migration_batch env 1 110 2 (some core) batch_staged).1.memories 100
        ≡ some (promoted_memory 1000 2 imported_fact))
    × ((get_active_persona 1 (activate_migration_batch env 1 110 2 (some core) batch_staged).1).0
        ≡ ok (some (profile env 1 110 2 core batch_staged)))
unfolding get
activate_migration_batch-promotes_example =
    activate_migration_batch-promotes env 1 110 2 core batch_staged activated
      (refl, refl, (refl, refl, tt)) 100 imported_fact at_fact activates
