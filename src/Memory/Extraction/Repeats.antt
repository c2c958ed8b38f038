-- ===== src/Memory/Extraction/Repeats.antt =====
-- A text that is extracted again after its facts were stored.
use mathlib.Core.List.{Memᴰ}
use astra_agent.Base.{
  ℕ, suc, ◌+◌, ◌≡◌, String, ◌==◌, Bool, true, false, none, List, str_eq, All, arith,
}
use astra_agent.Base.Dict.{Dict, get, values}
use astra_agent.Base.Exec.{Result}
use astra_agent.Domain.Models.{Uuid, MemoryRecord, AuditEvent}
use astra_agent.Runtime.State.{Store, Env}
use astra_agent.Runtime.Memories.{upsert_memory, is_deleted}
use astra_agent.Memory.Extraction.{
  ExtractedMemory, normalize, candidate_memory, candidate_events, store_candidates, is_promoted,
}

-- A stored memory of the tenant that stands, with this normalised text.
pub record HasTwin (t : Uuid) (text : String) (s : Store) : Type 0 where
  pub twin : MemoryRecord
  pub stored : Memᴰ twin (values s.memories)
  pub owner : (twin.tenant_id == t) ≡ true
  pub same_text : str_eq twin.normalized_content text ≡ true
  pub stands : is_deleted twin.state ≡ false

-- An upsert under a new id returns, keeps what is stored, and leaves a twin of its memory.
module _ (memory : MemoryRecord) (events : List AuditEvent) (s : Store) where
  abbrev after : Store
  after = (upsert_memory memory events s).1

module _ (casefold : String → String) (extract : String → List ExtractedMemory) where
  -- No memory is stored under a new id of the environment, from the n-th on.
  abbrev IsFresh : Env → ℕ → Store → Type 0
  IsFresh env n s = (k : ℕ) → get s.memories (env.fresh (n + k)) ≡ none

  -- New ids differ from each other.
  abbrev pub AllDiffer : Env → Type 0
  AllDiffer env = (i j : ℕ) → env.fresh i ≡ env.fresh j → i ≡ j

  -- Each candidate has a twin on record.
  abbrev AllTwins : Uuid → Store → List ExtractedMemory → Type 0
  AllTwins t s cs = All (λ c. HasTwin t (normalize casefold extract c.content) s) cs

  stands :
      (env : Env) (n : ℕ) (t e m : Uuid) (all : Bool) (c : ExtractedMemory)
      → is_deleted (candidate_memory casefold extract env n t e m all c).state ≡ false
  unfolding candidate_memory
  stands env n t e m all c = ground arith

  module _ (env : Env) (t e m : Uuid) (all : Bool) (differ : AllDiffer env) where
    -- The store after the n-th candidate.
    abbrev next : ℕ → ExtractedMemory → Store → Store
    next n c s =
        (upsert_memory (candidate_memory casefold extract env n t e m all c)
          (candidate_events casefold extract env n t m (is_promoted casefold extract all c)
            (candidate_memory casefold extract env n t e m all c).id)
          s).1

    -- The run from the next candidate on.
    abbrev later :
        ℕ → ExtractedMemory → List ExtractedMemory → Store → Result (List MemoryRecord) × Store
    later n c cs s = store_candidates casefold extract env t e m all (suc n) cs (next n c s)
