-- ===== src/Runtime/Memories.antt =====
-- The memory records of memory.py: upsert, list, review, pin, delete.
mod Unique
mod Reviews
pub mod Listing
mod Tests
use astra_agent.Base.{
  Bool, true, false, ◌&&◌, ◌||◌, not, Option, none, some, List, ◌==◌, str_eq, if◌then◌else◌, find,
  filter, sort, ascending,
}
use astra_agent.Base.Dict.{get, put, values}
use astra_agent.Base.Exec.{
  require_owned, not_found, conflict, pure, gets, modify, guard, ◌>>=◌, ◌>>◌,
}
use astra_agent.Domain.Kinds.{MemoryState, EventType, ActorType}
use astra_agent.Domain.Models.{Uuid, Instant, uuid, field, end, obj, MemoryRecord, AuditEvent}
use astra_agent.Runtime.State.{Env, Method, event, entry, log, log_all, owned}

abbrev pub is_candidate : MemoryState → Bool
is_candidate MemoryState.candidate = true
is_candidate _ = false

abbrev pub is_promoted : MemoryState → Bool
is_promoted MemoryState.promoted = true
is_promoted _ = false

abbrev pub is_deleted : MemoryState → Bool
is_deleted MemoryState.deleted = true
is_deleted _ = false

abbrev pub put_memory : Uuid → MemoryRecord → Method (Unit {0})
put_memory memory_id memory = modify (λ s. record s { memories = put s.memories memory_id memory })

-- A record that still stands with the same normalised text for the same tenant.
abbrev pub duplicates : MemoryRecord → MemoryRecord → Bool
duplicates memory item =
    item.tenant_id == memory.tenant_id
    && str_eq item.normalized_content memory.normalized_content
    && not (is_deleted item.state)

unfoldable pub upsert_new :
    MemoryRecord → List AuditEvent → Option MemoryRecord → Method MemoryRecord
upsert_new memory events (some duplicate) = pure duplicate
upsert_new memory events none = do put_memory memory.id memory; log_all events; pure memory

unfoldable pub upsert_memory : MemoryRecord → List AuditEvent → Method MemoryRecord
upsert_memory memory events = do
  duplicate ← gets (λ s. find (duplicates memory) (values s.memories))
  upsert_new memory events duplicate

unfoldable pub get_memory : Uuid → Uuid → Method (Option MemoryRecord)
get_memory tenant_id memory_id =
    gets (λ s. owned (λ (m : MemoryRecord). m.tenant_id) (get s.memories memory_id) tenant_id)

abbrev pub is_listed : Uuid → Bool → MemoryRecord → Bool
is_listed tenant_id include_candidates item =
    item.tenant_id == tenant_id
    && not (is_deleted item.state)
    && (include_candidates || is_promoted item.state)

unfoldable pub list_memories : Uuid → Bool → Method (List MemoryRecord)
list_memories tenant_id include_candidates = gets λ s.
    filter (is_listed tenant_id include_candidates)
      (sort (ascending (λ m. m.updated_at)) (values s.memories))

abbrev pub deleted_memory : Instant → MemoryRecord → MemoryRecord
deleted_memory now memory = record memory {
  state = MemoryState.deleted;
  deleted_at = some now;
  updated_at = now;
}

unfoldable pub delete_memory : Env → Uuid → Uuid → Uuid → Method MemoryRecord
delete_memory env tenant_id memory_id actor_id = do
  found ← gets (λ s. get s.memories memory_id)
  memory ← require_owned (λ m. m.tenant_id) found tenant_id (not_found "memory not found")
  guard (not (is_deleted memory.state)) (conflict "memory is already deleted")
  let deleted = deleted_memory (env.now 0) memory
  put_memory memory_id deleted
  log (
      event env 0 tenant_id EventType.memory_deleted ActorType.user (some actor_id) none
        (entry "memory_id" (uuid memory_id)))
  pure deleted

-- The checks on the memory that a promoted candidate replaces.
unfoldable pub find_replacement : Uuid → Bool → Option Uuid → Method (Option MemoryRecord)
find_replacement tenant_id promote none = pure none
find_replacement tenant_id promote (some replaces_memory_id) = do
  found ← gets (λ s. get s.memories replaces_memory_id)
  replacement ←
      require_owned (λ m. m.tenant_id) found tenant_id (not_found "replacement memory not found")
  guard (is_promoted replacement.state) (not_found "replacement memory not found")
  guard promote (conflict "rejection cannot replace a memory")
  pure (some replacement)

unfoldable pub retire_replacement :
    Env → Uuid → Uuid → Uuid → Option MemoryRecord → Method (Unit {0})
retire_replacement env tenant_id memory_id actor_id none = pure tt
retire_replacement env tenant_id memory_id actor_id (some replacement) = do
  put_memory replacement.id (deleted_memory (env.now 0) replacement)
  log (
      event env 1 tenant_id EventType.memory_contradiction_resolved ActorType.user (some actor_id)
        none
        (obj (
          field "memory_id" (uuid memory_id)
            (field "replaced_memory_id" (uuid replacement.id) end))))

abbrev pub reviewed_memory : Instant → Bool → Uuid → Option Uuid → MemoryRecord → MemoryRecord
reviewed_memory now promote actor_id replaces_memory_id memory = record memory {
  state = if promote then MemoryState.promoted else MemoryState.rejected;
  confirmed = promote;
  contradiction_of = replaces_memory_id;
  reviewed_at = some now;
  reviewed_by = some actor_id;
  updated_at = now;
}

unfoldable pub review_memory : Env → Uuid → Uuid → Bool → Uuid → Option Uuid → Method MemoryRecord
review_memory env tenant_id memory_id promote actor_id replaces_memory_id = do
  found ← gets (λ s. get s.memories memory_id)
  memory ← require_owned (λ m. m.tenant_id) found tenant_id (not_found "memory not found")
  guard (is_candidate memory.state) (conflict "only candidate memories can be reviewed")
  replacement ← find_replacement tenant_id promote replaces_memory_id
  let reviewed = reviewed_memory (env.now 0) promote actor_id replaces_memory_id memory
  put_memory memory_id reviewed
  log (
      event env 0 tenant_id
        (if promote then EventType.memory_promoted else EventType.memory_rejected) ActorType.user
        (some actor_id) none (entry "memory_id" (uuid memory_id)))
  retire_replacement env tenant_id memory_id actor_id replacement
  pure reviewed

unfoldable pub pin_memory : Env → Uuid → Uuid → Bool → Uuid → Method MemoryRecord
pin_memory env tenant_id memory_id pinned actor_id = do
  found ← gets (λ s. get s.memories memory_id)
  memory ← require_owned (λ m. m.tenant_id) found tenant_id (not_found "promoted memory not found")
  guard (is_promoted memory.state) (not_found "promoted memory not found")
  let updated = record memory { pinned = pinned; updated_at = env.now 0 }
  put_memory memory_id updated
  log (
      event env 0 tenant_id (if pinned then EventType.memory_pinned else EventType.memory_unpinned)
        ActorType.user (some actor_id) none (entry "memory_id" (uuid memory_id)))
  pure updated
