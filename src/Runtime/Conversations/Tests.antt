-- ===== src/Runtime/Conversations/Tests.antt =====
-- The last message of a conversation, and the theorem at it.
use astra_agent.Base.{[], ◌∷◌}
use astra_agent.Runtime.State.{Store}
use astra_agent.Runtime.Samples.{user_message, assistant_message, conversation_open}

abbrev two_messages : Store
two_messages = record conversation_open {
  messages = (52, assistant_message) ∷ (51, user_message) ∷ [];
}
