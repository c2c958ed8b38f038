-- ===== src/Agent/Recollection/Logging.antt =====
-- The memory tools and the audit log.
use Prim.Native.String.{String}
use astra_agent.Base.{ℕ, suc, Option, none, some, List, [], ◌∷◌, Bool, ◌==◌, not}
use astra_agent.Base.Exec.{Failure}
use astra_agent.Domain.Models.{Uuid, Instant, Json, Conversation, MemoryRecord}
use astra_agent.Runtime.State.{Env}
use astra_agent.Runtime.Memories.{list_memories}
use astra_agent.Runtime.Conversations.{list_conversations}
use astra_agent.Runtime.Audit.Rules.{Logs, Logs-bind, Logs-if, Logs-guard, Logs-pure, log_rules}
use astra_agent.Runtime.Audit.Methods.{upsert_memory-Logs}
use astra_agent.Memory.Recall.{recall}
use astra_agent.Memory.Extraction.{
  ExtractedMemory, IndexCall, store_candidates, extract_content, sync_memory,
}
use astra_agent.Agent.Coordinator.Quiet.Reads.{IsLogging, list_messages-Logs}
use astra_agent.Agent.Recollection.{
  scan_conversations, session_matches, get_fact, raise_if, run_index, sync_all, set_fact,
  search_session, controller,
}

list_memories-Logs : (t : Uuid) (b : Bool) → Logs (list_memories t b)
unfolding list_memories
list_memories-Logs t b = search log_rules

list_conversations-Logs : (t : Uuid) → Logs (list_conversations t)
unfolding list_conversations
list_conversations-Logs t = search log_rules

module _ (casefold : String → String) (isoformat : Instant → String) (dumps : Json → String)
    (dump_memory : MemoryRecord → Json) (extract : String → List ExtractedMemory)
    (vector_index : IndexCall → Option Failure) (memory_limit : ℕ) where
  recall-Logs : (n : ℕ) (t : Uuid) (o : String) → Logs (recall casefold n t o)
  unfolding recall
  recall-Logs n t o = search (log_rules, list_memories-Logs)

  store_candidates-Logs :
      (env : Env) (t e m : Uuid) (b : Bool) (n : ℕ) (cs : List ExtractedMemory)
      → Logs (store_candidates casefold extract env t e m b n cs)
  unfolding store_candidates
  store_candidates-Logs env t e m b n [] = search log_rules
  store_candidates-Logs env t e m b n (c ∷ cs) = Logs-bind _ _ (Logs-guard _ _) λ _.
      Logs-bind _ _ (upsert_memory-Logs _ _)
        λ stored. Logs-bind _ _ (store_candidates-Logs env t e m b (suc n) cs) (λ rest. Logs-pure _)

  raise_if-Logs : (o : Option Failure) → Logs (raise_if o)
  raise_if-Logs none = search log_rules
  raise_if-Logs (some e) = search log_rules

  run_index-Logs : (o : Option IndexCall) → Logs (run_index vector_index o)
  run_index-Logs none = search log_rules
  run_index-Logs (some c) = raise_if-Logs (vector_index c)

  sync_all-Logs : (ms : List MemoryRecord) → Logs (sync_all vector_index ms)
  unfolding sync_all
  sync_all-Logs [] = search log_rules
  sync_all-Logs (m ∷ ms) = Logs-bind _ _ (run_index-Logs (sync_memory m)) (λ _. sync_all-Logs ms)

  scan-Logs :
      (terms : List String) (t u : Uuid) (cs : List Conversation)
      → Logs (scan_conversations casefold isoformat terms t u cs)
  unfolding scan_conversations
  scan-Logs terms t u [] = search log_rules
  scan-Logs terms t u (c ∷ cs) =
      let others = scan-Logs terms t u cs in
      Logs-if (not (c.user_id == u)) _ _ others (
        Logs-bind _ _ (list_messages-Logs t c.id 200)
          λ ms. Logs-bind _ _ others (λ rest. Logs-pure _))

  session_matches-Logs :
      (t u : Uuid) (query : String) (n : ℕ) → Logs (session_matches casefold isoformat t u query n)
  unfolding session_matches
  session_matches-Logs t u query n = search (log_rules, list_conversations-Logs, scan-Logs)

  -- The memory tools of the controller only append to the audit log.
  pub controller-IsLogging :
      IsLogging (controller casefold isoformat dumps dump_memory extract vector_index memory_limit)
  unfolding get_fact set_fact search_session extract_content
  controller-IsLogging = record {
    get_fact = λ env t topic. search (log_rules, recall-Logs);
    set_fact = λ env t m content. search (log_rules, store_candidates-Logs, sync_all-Logs);
    search_session = λ env t u query n. search (log_rules, session_matches-Logs);
  }
