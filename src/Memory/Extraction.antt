-- ===== src/Memory/Extraction.antt =====
-- MemoryPipeline of packages/memory/src/astra_memory/pipeline.py: the facts that an extractor
-- finds in a text are stored as memories, and the vector index follows a memory's state. The
-- extractor and `casefold` are parameters.
pub mod Repeats
mod Tests
use Prim.Native.String.{String, count}
use astra_agent.Base.{
  ℕ, suc, ◌+◌, ◌*◌, Bool, true, false, ◌&&◌, ◌||◌, not, Option, none, some, List, [], ◌∷◌, ◌++◌,
  leb, if◌then◌else◌,
}
use astra_agent.Base.Exec.{validation, pure, guard, ◌>>=◌, ◌>>◌}
use astra_agent.Base.Text.{join, is_space}
use astra_agent.Domain.Kinds.{MemoryKind, MemoryState, EventType, ActorType}
use astra_agent.Domain.Models.{Uuid, Json, obj, field, end, uuid, MemoryRecord, AuditEvent}
use astra_agent.Runtime.State.{Env, Method, event, entry}
use astra_agent.Runtime.Memories.{upsert_memory}
use astra_agent.Memory.Recall.{runs}

-- `confidence` is in millionths.
pub record ExtractedMemory : Type 0 where
  pub kind : MemoryKind
  pub content : String
  pub confidence : ℕ
  pub promoted : Bool

-- `sync_memory`: what it asks of the vector index.
pub data IndexCall : Type 0 where
  upsert : MemoryRecord → IndexCall
  delete : Uuid → IndexCall

abbrev pub sync_state : MemoryRecord → MemoryState → Option IndexCall
sync_state memory MemoryState.promoted = some (upsert memory)
sync_state memory MemoryState.deleted = some (delete memory.id)
sync_state memory _ = none

unfoldable pub sync_memory : MemoryRecord → Option IndexCall
sync_memory memory = sync_state memory memory.state

module _ (casefold : String → String) (extract : String → List ExtractedMemory) where
  -- `" ".join(text.casefold().split())`
  unfoldable pub normalize : String → String
  normalize text = join " " (runs (λ c. not (is_space c)) (casefold text))

  abbrev pub is_promoted : Bool → ExtractedMemory → Bool
  is_promoted promote_all candidate = candidate.promoted || promote_all

  -- The memory of the n-th candidate.
  unfoldable pub candidate_memory :
      Env → ℕ → Uuid → Uuid → Uuid → Bool → ExtractedMemory → MemoryRecord
  candidate_memory env n tenant_id source_event_id source_message_id promote_all candidate =
      record {
        id = env.fresh n;
        tenant_id = tenant_id;
        kind = candidate.kind;
        content = candidate.content;
        normalized_content = normalize candidate.content;
        source_event_id = source_event_id;
        source_message_id = source_message_id;
        confidence = candidate.confidence;
        confirmed = is_promoted promote_all candidate;
        pinned = false;
        state =
            if is_promoted promote_all candidate
            then MemoryState.promoted
            else MemoryState.candidate;
        sensitivity = "normal";
        visibility = "private";
        retention = "durable";
        contradiction_of = none;
        created_at = env.created (2 * n);
        updated_at = env.created (2 * n + 1);
        reviewed_at = none;
        reviewed_by = none;
        deleted_at = none;
        import_batch_id = none;
        source_system = none;
        source_database_fingerprint = none;
        source_external_id = none;
        source_metadata = obj end;
      }

  abbrev pub candidate_events : Env → ℕ → Uuid → Uuid → Bool → Uuid → List AuditEvent
  candidate_events env n tenant_id source_message_id promoted memory_id =
      event env (2 * n) tenant_id EventType.memory_candidate_created ActorType.coordinator none none
        (obj (
          field "memory_id" (uuid memory_id)
            (field "source_message_id" (uuid source_message_id) end)))
      ∷ (if promoted
          then event env (2 * n + 1) tenant_id EventType.memory_promoted ActorType.coordinator none
              none (entry "memory_id" (uuid memory_id))
            ∷ []
          else [])

  -- The lengths and the range that the record's model checks.
  abbrev pub is_valid : MemoryRecord → Bool
  is_valid memory =
      leb 1 (count memory.content)
      && leb (count memory.content) 50000
      && leb 1 (count memory.normalized_content)
      && leb (count memory.normalized_content) 50000
      && leb memory.confidence 1000000

  -- The loop over the candidates, from the n-th.
  unfoldable pub store_candidates :
      Env → Uuid → Uuid → Uuid → Bool → ℕ → List ExtractedMemory → Method (List MemoryRecord)
  store_candidates env tenant_id source_event_id source_message_id promote_all n [] = pure []
  store_candidates env tenant_id source_event_id source_message_id promote_all n
        (candidate ∷ candidates) =
      do
        let memory =
            candidate_memory env n tenant_id source_event_id source_message_id promote_all candidate
        guard (is_valid memory) validation
        stored ← upsert_memory memory (
            candidate_events env n tenant_id source_message_id (is_promoted promote_all candidate)
              memory.id)
        rest ←
            store_candidates env tenant_id source_event_id source_message_id promote_all (suc n)
              candidates
        pure (stored ∷ rest)

  unfoldable pub extract_content :
      Env → Uuid → Uuid → Uuid → String → Bool → Method (List MemoryRecord)
  extract_content env tenant_id source_event_id source_message_id content promote_all =
      store_candidates env tenant_id source_event_id source_message_id promote_all 0
        (extract content)

  unfoldable pub extract_message : Env → Uuid → Uuid → Uuid → String → Method (List MemoryRecord)
  extract_message env tenant_id source_event_id source_message_id content =
      extract_content env tenant_id source_event_id source_message_id content false
