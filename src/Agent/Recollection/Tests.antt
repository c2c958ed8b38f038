-- ===== src/Agent/Recollection/Tests.antt =====
-- Runs of the memory tools, by themselves and by a coordinator whose model looks up a fact at each
-- request, and the theorems at them.
use astra_agent.Base.{
  ℕ, String, ◌≤◌, ◌≡◌, ◌⊎◌, refl, true, none, some, List, [], ◌∷◌, length, All, any, find, filter,
  sort,
}
use mathlib.Core.List.{Memᴰ}
use astra_agent.Base.Dict.{get, put, values}
use astra_agent.Base.Exec.{ok, ◌>>=◌}
use astra_agent.Base.Text.{join, take_chars, cut}
use astra_agent.Domain.Models.{text, field, end, Conversation, ConversationMessage}
use astra_agent.Runtime.Samples.{conversation, user_message, claimed_turn}
use astra_agent.Runtime.Conversations.{list_messages, list_conversations}
use astra_agent.Memory.Recall.{
  words, distinct, hits, runs, split_runs, recall, select, by_id, relevance,
}
use astra_agent.Policy.Planner.{contains}
use astra_agent.Agent.Coordinator.Messages.{ToolCall, dump_all, checkpoint_fields}
use astra_agent.Agent.Coordinator.Session.{
  World, Session, MemoryTools, call, ask, complete, readings,
}
use astra_agent.Agent.Coordinator.Loop.{
  run_turn, run_calls, log_turn, finish, request_model, model_loop, offered_tools,
}
use astra_agent.Agent.Coordinator.Samples.{world, session}
use astra_agent.Agent.Recollection.{
  Match, goes_first, score, match_of, scan_messages, scan_conversations, session_matches,
  controller, get_fact,
}
use astra_agent.Agent.Coordinator.History.{
  has_available_ara, has_available_host_ara, guidance, compiled, uuid_items, messages_for_turn,
  checkpoint,
}
use astra_agent.Agent.Coordinator.Calls.{
  new_invocation, record_result, run_memory_tool, execute_memory_tool, memory_result,
}
use astra_agent.Agent.Coordinator.Host.{execute_call}
use astra_agent.Agent.Coordinator.Planning.{planning, make_plan}
use astra_agent.Runtime.Memories.{list_memories}
use astra_agent.Runtime.Artifacts.{append_event}
use astra_agent.Runtime.Turns.{checkpoint_turn, complete_turn, active_turn}
use astra_agent.Runtime.Invocations.{
  create_tool_invocation, create_new, complete_tool_invocation, finish_tool_invocation,
  write_finish,
}
use astra_agent.Agent.Tools.Registry.{definitions}
use astra_agent.Agent.Tools.Paths.{lookup}
use astra_agent.Agent.Recollection.Sessions.{IsHit, IsOwn, terms_of, session_matches-finds}

abbrev same : String → String
same s = s

abbrev iso : ℕ → String
iso at = "2024"

abbrev tools : MemoryTools
tools =
    controller same iso (λ json. "{}") (λ memory. text memory.content) (λ content. []) (λ c. none) 8

abbrev look_up : ToolCall
look_up = record { id = "call-1"; name = "get_fact"; arguments = field "topic" (text "rust") end }

-- The session, with the message of the turn in the store.
abbrev told : Session
told = record session { store = record session.store { messages = (51, user_message) ∷ [] } }

abbrev asking : World
asking = record world {
  complete = λ n messages tools. some (record { content = none; tool_calls = look_up ∷ [] });
  memory_tools = some tools;
}

-- The loop makes all the requests that the limit allows.
asks_eight : (run_turn asking claimed_turn 20 told).1.requests ≡ 8
unfolding call ask complete readings dump_all checkpoint_fields has_available_ara
    has_available_host_ara guidance compiled uuid_items messages_for_turn checkpoint new_invocation
    record_result run_memory_tool execute_memory_tool memory_result execute_call planning make_plan
    run_calls log_turn finish request_model model_loop run_turn offered_tools get_fact recall select
    by_id words distinct runs split_runs relevance hits list_memories list_messages append_event
    checkpoint_turn complete_turn active_turn create_tool_invocation create_new
    complete_tool_invocation finish_tool_invocation definitions lookup join take_chars cut sort
    filter find get put values write_finish ◌>>=◌
asks_eight = refl

abbrev found : Match
found = match_of same iso (terms_of same "inspect this") conversation user_message

finds_one : session_matches same iso 1 2 "inspect this" 5 told.store ≡ (ok (found ∷ []), told.store)
unfolding session_matches scan_conversations scan_messages score list_conversations list_messages
    words distinct runs split_runs hits sort filter any contains get values ◌>>=◌
finds_one = refl

session_matches-finds_example :
    (r : List Match) × (session_matches same iso 1 2 "inspect this" 5 told.store
      ≡ (ok r, told.store))
    × (length r ≤ 5)
    × All (IsHit same iso 1 2 (terms_of same "inspect this") told.store) r
    × ((c : Conversation) (ms : List ConversationMessage) (m : ConversationMessage)
        → IsOwn 1 2 told.store c
        → list_messages 1 c.id 200 told.store ≡ (ok ms, told.store)
        → Memᴰ m ms
        → 1 ≤ score same iso (terms_of same "inspect this") m
        → Memᴰ (match_of same iso (terms_of same "inspect this") c m) r
          ⊎ ((length r ≡ 5)
              × All
                  (λ x. goes_first x (match_of same iso (terms_of same "inspect this") c m) ≡ true)
                  r))
unfolding get
session_matches-finds_example =
    session_matches-finds same iso 1 2 "inspect this" 5 told.store (refl, refl, tt)
