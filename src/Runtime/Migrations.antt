-- ===== src/Runtime/Migrations.antt =====
-- The import batches of memory.py: staged with their memories, activated with a persona, or
-- rolled back.
mod Writes
mod Rollbacks
mod Activations
mod Tests
use Prim.Native.String.{◌++◌ as text_append}
use astra_agent.Base.{
  ℕ, ◌+◌, String, Bool, true, false, ◌&&◌, ◌||◌, not, Option, none, some, List, [], ◌∷◌, map, ◌==◌,
  str_eq, holds, find, filter, any, is_empty,
}
use astra_agent.Base.Dict.{Dict, get, put, values}
use astra_agent.Base.Exec.{
  require_owned, not_found, conflict, pure, gets, modify, require, guard, ◌>>=◌, ◌>>◌,
}
use astra_agent.Domain.Kinds.{MigrationBatchState, MemoryState, EventType, ActorType, MessageRole}
use astra_agent.Domain.Models.{
  Uuid, Instant, uuid, field, end, obj, MemoryRecord, MigrationBatch, AuditEvent, PersonaCore,
  Conversation, ConversationMessage,
}
use astra_agent.Runtime.State.{Env, Method, event, entry, log, log_all, owned}
use astra_agent.Runtime.Memories.{is_candidate, is_promoted, is_deleted, put_memory, deleted_memory}
use astra_agent.Runtime.Personas.{next_version, put_active}

abbrev pub is_staged : MigrationBatchState → Bool
is_staged MigrationBatchState.staged = true
is_staged _ = false

abbrev pub is_rolled_back : MigrationBatchState → Bool
is_rolled_back MigrationBatchState.rolled_back = true
is_rolled_back _ = false

abbrev pub same_text : Option String → Option String → Bool
same_text none none = true
same_text (some a) (some b) = str_eq a b
same_text _ _ = false

abbrev pub put_batch : Uuid → MigrationBatch → Method (Unit {0})
put_batch batch_id batch =
    modify λ s. record s { migration_batches = put s.migration_batches batch_id batch }

abbrev pub same_database : MigrationBatch → MigrationBatch → Bool
same_database batch item =
    item.tenant_id == batch.tenant_id
    && str_eq item.source_system batch.source_system
    && str_eq item.source_database_fingerprint batch.source_database_fingerprint

-- The record that was imported before from the same place.
abbrev pub same_origin : Uuid → MemoryRecord → MemoryRecord → Bool
same_origin tenant_id memory item =
    item.tenant_id == tenant_id
    && same_text item.source_system memory.source_system
    && same_text item.source_database_fingerprint memory.source_database_fingerprint
    && same_text item.source_external_id memory.source_external_id

abbrev pub import_event : Env → ℕ → EventType → Uuid → Uuid → Uuid → Uuid → AuditEvent
import_event env n event_type tenant_id actor_id memory_id batch_id =
    event env n tenant_id event_type ActorType.user (some actor_id) none
      (obj (field "memory_id" (uuid memory_id) (field "import_batch_id" (uuid batch_id) end)))

-- One round of the loop; the result counts the audit events so far.
unfoldable pub stage_memory :
    Env → MigrationBatch → Uuid → Uuid → ℕ → MemoryRecord → Option MemoryRecord → Method ℕ
stage_memory env batch actor_id message_id n memory (some duplicate) = pure n
stage_memory env batch actor_id message_id n memory none = do
  put_memory memory.id (record memory { source_message_id = message_id })
  log (
      import_event env n EventType.memory_candidate_created batch.tenant_id actor_id memory.id
        batch.id)
  pure (n + 1)

unfoldable pub stage_memories :
    Env → MigrationBatch → Uuid → Uuid → ℕ → List MemoryRecord → Method ℕ
stage_memories env batch actor_id message_id n [] = pure n
stage_memories env batch actor_id message_id n (memory ∷ memories) = do
  duplicate ← gets (λ s. find (same_origin batch.tenant_id memory) (values s.memories))
  n' ← stage_memory env batch actor_id message_id n memory duplicate
  stage_memories env batch actor_id message_id n' memories

abbrev pub import_conversation : Env → MigrationBatch → Uuid → Conversation
import_conversation env batch actor_id = record {
  id = env.fresh 0;
  tenant_id = batch.tenant_id;
  user_id = actor_id;
  title = text_append "Imported " (text_append batch.source_system " migration");
  created_at = env.created 0;
  updated_at = env.created 1;
}

abbrev pub import_message : Env → MigrationBatch → ConversationMessage
import_message env batch = record {
  id = env.fresh 1;
  tenant_id = batch.tenant_id;
  conversation_id = env.fresh 0;
  role = MessageRole.user;
  content = "Imported source provenance";
  created_at = env.created 2;
}

unfoldable pub stage_new :
    Env → MigrationBatch → List MemoryRecord → Uuid → Option MigrationBatch → Method MigrationBatch
stage_new env batch memories actor_id (some existing) = pure existing
stage_new env batch memories actor_id none = do
  modify (λ s. record s {
    conversations = put s.conversations (env.fresh 0) (import_conversation env batch actor_id);
    messages = put s.messages (env.fresh 1) (import_message env batch);
  })
  put_batch batch.id batch
  n ← stage_memories env batch actor_id (env.fresh 1) 0 memories
  log (
      event env n batch.tenant_id EventType.migration_staged ActorType.user (some actor_id) none
        (entry "batch_id" (uuid batch.id)))
  pure batch

unfoldable pub stage_migration_batch :
    Env → MigrationBatch → List MemoryRecord → Uuid → Method MigrationBatch
stage_migration_batch env batch memories actor_id = do
  existing ← gets (λ s. find (same_database batch) (values s.migration_batches))
  stage_new env batch memories actor_id existing

unfoldable pub get_migration_batch : Uuid → Uuid → Method (Option MigrationBatch)
get_migration_batch tenant_id batch_id =
    gets
      λ s. owned (λ (b : MigrationBatch). b.tenant_id) (get s.migration_batches batch_id) tenant_id

unfoldable pub list_migration_batches : Uuid → Method (List MigrationBatch)
list_migration_batches tenant_id =
    gets (λ s. filter (λ b. b.tenant_id == tenant_id) (values s.migration_batches))

abbrev pub promoted_memory : Instant → Uuid → MemoryRecord → MemoryRecord
promoted_memory now actor_id memory = record memory {
  state = MemoryState.promoted;
  confirmed = true;
  reviewed_at = some now;
  reviewed_by = some actor_id;
  updated_at = now;
}

-- `for item in items: self._memories[item.id] = change(item)`
unfoldable pub put_each :
    (MemoryRecord → MemoryRecord) → List MemoryRecord → Dict MemoryRecord → Dict MemoryRecord
put_each change [] d = d
put_each change (item ∷ items) d = put_each change items (put d item.id (change item))

unfoldable pub promotion_events : Env → Uuid → Uuid → Uuid → ℕ → List MemoryRecord → List AuditEvent
promotion_events env tenant_id batch_id actor_id n [] =
    event env n tenant_id EventType.migration_activated ActorType.user (some actor_id) none
      (entry "batch_id" (uuid batch_id))
    ∷ []
promotion_events env tenant_id batch_id actor_id n (item ∷ items) =
    import_event env n EventType.memory_promoted tenant_id actor_id item.id batch_id
    ∷ promotion_events env tenant_id batch_id actor_id (n + 1) items

abbrev pub in_batch : Uuid → Uuid → MemoryRecord → Bool
in_batch tenant_id batch_id item =
    item.tenant_id == tenant_id && holds item.import_batch_id batch_id

-- `authored_core` is any object; `none` stands for one that is no PersonaCore.
unfoldable pub activate_migration_batch :
    Env → Uuid → Uuid → Uuid → Option PersonaCore → Method MigrationBatch
activate_migration_batch env tenant_id batch_id actor_id authored_core = do
  core ← require authored_core (conflict "authored persona core is required")
  found ← gets (λ s. get s.migration_batches batch_id)
  batch ← require_owned (λ b. b.tenant_id) found tenant_id (not_found "migration batch not found")
  guard (is_staged batch.state) (conflict "migration batch is not staged")
  memories ← gets (λ s. filter (in_batch tenant_id batch_id) (values s.memories))
  guard
      (not (is_empty memories)
        && any (λ (m : MemoryRecord). is_candidate m.state || is_promoted m.state) memories)
      (conflict "an approved imported fact is required")
  let now = env.now 0
  let promoted = filter (λ (m : MemoryRecord). is_candidate m.state) memories
  modify (λ s. record s { memories = put_each (promoted_memory now actor_id) promoted s.memories })
  version ← gets (next_version tenant_id)
  put_active (record {
    id = env.fresh 0;
    tenant_id = tenant_id;
    version = version;
    authored_core = core;
    created_at = env.created 0;
  })
  let active = record batch {
    state = MigrationBatchState.active;
    persona_profile_id = some (env.fresh 0);
    activated_at = some now;
  }
  put_batch batch_id active
  log_all (promotion_events env tenant_id batch_id actor_id 0 promoted)
  pure active

-- The loop has no test of the tenant.
abbrev pub is_live_in : Uuid → MemoryRecord → Bool
is_live_in batch_id item = holds item.import_batch_id batch_id && not (is_deleted item.state)

unfoldable pub rollback_migration_batch :
    Env → Uuid → Uuid → Uuid → Method (MigrationBatch × List MemoryRecord)
rollback_migration_batch env tenant_id batch_id actor_id = do
  found ← gets (λ s. get s.migration_batches batch_id)
  batch ← require_owned (λ b. b.tenant_id) found tenant_id (not_found "migration batch not found")
  guard (not (is_rolled_back batch.state)) (conflict "migration batch is already rolled back")
  let now = env.now 0
  live ← gets (λ s. filter (is_live_in batch_id) (values s.memories))
  let deleted = map (deleted_memory now) live
  modify (λ s. record s { memories = put_each (λ m. m) deleted s.memories })
  let rolled = record batch { state = MigrationBatchState.rolled_back; rolled_back_at = some now }
  put_batch batch_id rolled
  log (
      event env 0 tenant_id EventType.migration_rolled_back ActorType.user (some actor_id) none
        (entry "batch_id" (uuid batch_id)))
  pure (rolled, deleted)
