-- ===== src/Runtime/Conversations.antt =====
-- The conversations and messages of memory.py.
pub mod Listing
mod Tests
use astra_agent.Base.{
  ℕ, ◌-◌, Bool, ◌&&◌, Option, List, ◌==◌, if◌then◌else◌, filter, sort, ascending, descending,
  length, drop,
}
use astra_agent.Base.Dict.{get, put, values}
use astra_agent.Base.Exec.{require_owned, not_found, pure, gets, modify, ◌>>=◌, ◌>>◌}
use astra_agent.Domain.Models.{Uuid, Instant, Conversation, ConversationMessage, AuditEvent}
use astra_agent.Runtime.State.{Method, log, log_all, owned}

abbrev pub put_conversation : Uuid → Conversation → Method (Unit {0})
put_conversation conversation_id conversation =
    modify λ s. record s { conversations = put s.conversations conversation_id conversation }

abbrev pub put_message : ConversationMessage → Method (Unit {0})
put_message message = modify (λ s. record s { messages = put s.messages message.id message })

-- `conversation.model_copy(update={"updated_at": at})`, stored under its id
abbrev pub touch : Conversation → Instant → Method (Unit {0})
touch conversation at = put_conversation conversation.id (record conversation { updated_at = at })

unfoldable pub create_conversation : Conversation → AuditEvent → Method Conversation
create_conversation conversation event = do
  put_conversation conversation.id conversation
  log event
  pure conversation

unfoldable pub get_conversation : Uuid → Uuid → Method (Option Conversation)
get_conversation tenant_id conversation_id =
    gets
      λ s. owned (λ (c : Conversation). c.tenant_id) (get s.conversations conversation_id) tenant_id

unfoldable pub list_conversations : Uuid → Method (List Conversation)
list_conversations tenant_id = gets λ s.
    filter (λ c. c.tenant_id == tenant_id)
      (sort (descending (λ c. c.updated_at)) (values s.conversations))

unfoldable pub append_message : ConversationMessage → List AuditEvent → Method ConversationMessage
append_message message events = do
  found ← gets (λ s. get s.conversations message.conversation_id)
  conversation ←
      require_owned (λ c. c.tenant_id) found message.tenant_id (not_found "conversation not found")
  put_message message
  touch conversation message.created_at
  log_all events
  pure message

-- `items[-limit:]`, where `-0` is the start of the list
abbrev pub last {ℓ} : {A : Type ℓ} → ℕ → List A → List A
last limit items = if limit == 0 then items else drop (length items - limit) items

abbrev pub in_conversation : Uuid → Uuid → ConversationMessage → Bool
in_conversation tenant_id conversation_id item =
    item.tenant_id == tenant_id && item.conversation_id == conversation_id

unfoldable pub list_messages : Uuid → Uuid → ℕ → Method (List ConversationMessage)
list_messages tenant_id conversation_id limit = do
  found ← gets (λ s. get s.conversations conversation_id)
  require_owned (λ (c : Conversation). c.tenant_id) found tenant_id
      (not_found "conversation not found")
  gets (λ s. last limit (
      sort (ascending (λ m. m.created_at))
        (filter (in_conversation tenant_id conversation_id) (values s.messages))))
