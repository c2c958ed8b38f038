-- ===== src/Agent/Recollection.antt =====
-- ControllerMemoryTools of memory_tools.py. `dumps` is the printing of JSON, `dump_memory` is
-- pydantic's `model_dump`, `isoformat` prints an instant. `vector_index` says how an operation of
-- the vector index ends: it returns, or raises what is given.
pub mod Logging
mod Sessions
mod Tests
use Prim.Native.String.{String}
use astra_agent.Base.{
  ℕ, ◌==◌, Bool, true, ◌&&◌, ◌||◌, not, Option, none, some, List, [], ◌∷◌, ◌++◌, suc, take, sort,
  ltb, if◌then◌else◌,
}
use astra_agent.Base.Exec.{Failure, pure, raise, ◌>>=◌, ◌>>◌}
use astra_agent.Base.Text.{text_leb}
use astra_agent.Domain.Models.{
  Uuid, Instant, Json, num, text, uuid, arr, obj, field, end, Conversation, ConversationMessage,
  MemoryRecord,
}
use astra_agent.Runtime.State.{Env, Method}
use astra_agent.Runtime.Conversations.{list_conversations, list_messages}
use astra_agent.Memory.Recall.{recall, words, distinct, hits}
use astra_agent.Memory.Extraction.{ExtractedMemory, IndexCall, sync_memory, extract_content}
use astra_agent.Agent.Coordinator.Messages.{dump_all}
use astra_agent.Agent.Coordinator.History.{role_text}
use astra_agent.Agent.Coordinator.Session.{MemoryTools}

-- An entry of `matches`.
pub record Match : Type 0 where
  pub conversation_id : Uuid
  pub title : String
  pub role : String
  pub content : String
  pub created_at : String
  pub score : ℕ

-- The key `(-score, created_at)`
abbrev pub goes_first : Match → Match → Bool
goes_first a b = ltb b.score a.score || a.score == b.score && text_leb a.created_at b.created_at

abbrev pub dump_match : Match → Json
dump_match item = obj (
    field "conversation_id" (uuid item.conversation_id) (
      field "title" (text item.title) (
        field "role" (text item.role) (
          field "content" (text item.content)
            (field "created_at" (text item.created_at) (field "score" (num item.score) end))))))

abbrev pub raise_if : Option Failure → Method (Unit {0})
raise_if none = pure tt
raise_if (some error) = raise error

module _ (vector_index : IndexCall → Option Failure) where
  -- One operation of the vector index, if there is one to do.
  abbrev pub run_index : Option IndexCall → Method (Unit {0})
  run_index none = pure tt
  run_index (some index_call) = raise_if (vector_index index_call)

  -- `for record in records: await self._pipeline.sync_memory(record)`
  unfoldable pub sync_all : List MemoryRecord → Method (Unit {0})
  sync_all [] = pure tt
  sync_all (memory ∷ memories) = do run_index (sync_memory memory); sync_all memories

module _ (casefold : String → String) (isoformat : Instant → String) where
  unfoldable pub score : List String → ConversationMessage → ℕ
  score terms message = hits terms (distinct (words (casefold message.content)))

  abbrev pub match_of : List String → Conversation → ConversationMessage → Match
  match_of terms conversation message = record {
    conversation_id = conversation.id;
    title = conversation.title;
    role = role_text message.role;
    content = message.content;
    created_at = isoformat message.created_at;
    score = score terms message;
  }

  -- The loop over the messages of a conversation.
  unfoldable pub scan_messages : List String → Conversation → List ConversationMessage → List Match
  scan_messages terms conversation [] = []
  scan_messages terms conversation (message ∷ messages) =
      let rest = scan_messages terms conversation messages in
      if score terms message == 0 then rest else match_of terms conversation message ∷ rest

  -- The loop over the conversations.
  unfoldable pub scan_conversations :
      List String → Uuid → Uuid → List Conversation → Method (List Match)
  scan_conversations terms tenant_id user_id [] = pure []
  scan_conversations terms tenant_id user_id (conversation ∷ conversations) =
      let others = scan_conversations terms tenant_id user_id conversations in
      if not (conversation.user_id == user_id) then others else (do
        messages ← list_messages tenant_id conversation.id 200
        rest ← others
        pure (scan_messages terms conversation messages ++ rest))

  -- `matches[:limit]`, sorted
  unfoldable pub session_matches : Uuid → Uuid → String → ℕ → Method (List Match)
  session_matches tenant_id user_id query limit = do
    conversations ← list_conversations tenant_id
    matches ← scan_conversations (distinct (words (casefold query))) tenant_id user_id conversations
    pure (take limit (sort goes_first matches))

  module _ (dumps : Json → String) (dump_memory : MemoryRecord → Json)
      (extract : String → List ExtractedMemory) (vector_index : IndexCall → Option Failure)
      (memory_limit : ℕ) where
    unfoldable pub get_fact : Uuid → String → Method String
    get_fact tenant_id topic = do
      records ← recall casefold memory_limit tenant_id topic
      pure (
          dumps (
            obj (
              field "topic" (text topic) (field "facts" (arr (dump_all dump_memory records)) end))))

    -- The first new id is that of the source event, the later ones are those of the memories.
    unfoldable pub set_fact : Env → Uuid → Uuid → String → Method String
    set_fact env tenant_id source_message_id content = do
      records ←
          extract_content casefold extract (record env { fresh = λ n. env.fresh (suc n) }) tenant_id
            (env.fresh 0) source_message_id content true
      sync_all vector_index records
      pure (dumps (obj (field "stored" (arr (dump_all dump_memory records)) end)))

    unfoldable pub search_session : Uuid → Uuid → String → ℕ → Method String
    search_session tenant_id user_id query limit = do
      matches ← session_matches tenant_id user_id query limit
      pure (
          dumps (
            obj (
              field "query" (text query)
                (field "matches" (arr (dump_all dump_match matches)) end))))

    abbrev pub controller : MemoryTools
    controller = record {
      get_fact = λ env. get_fact;
      set_fact = set_fact;
      search_session = λ env. search_session;
    }
