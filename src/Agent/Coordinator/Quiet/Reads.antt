-- ===== src/Agent/Coordinator/Quiet/Reads.antt =====
-- The methods of the store that a coordinator calls, and the audit log, in one rule set.
use astra_agent.Base.{ℕ, String}
use astra_agent.Domain.Models.{Uuid}
use astra_agent.Runtime.State.{Env}
use astra_agent.Runtime.Audit.Rules.{Logs, log_rules}
use astra_agent.Runtime.Audit.Methods.{
  checkpoint_turn-Logs, pause_turn-Logs, complete_turn-Logs, claim_pending_turn-Logs,
  create_tool_invocation-Logs, complete_tool_invocation-Logs, fail_tool_invocation-Logs,
}
use astra_agent.Runtime.Audit.Tasks.{
  add_task-Logs, create_delegated_tasks-Logs, create_coordinator_approval-Logs, append_event-Logs,
}
use astra_agent.Runtime.Agents.{list_remote_agents}
use astra_agent.Runtime.Conversations.{get_conversation, list_messages}
use astra_agent.Runtime.Invocations.{get_tool_invocation}
use astra_agent.Runtime.Tasks.{get_task}
use astra_agent.Runtime.Turns.{get_turn}
use astra_agent.Agent.Coordinator.Session.{MemoryTools}

pub get_turn-Logs : (t k : Uuid) → Logs (get_turn t k)
unfolding get_turn
get_turn-Logs t k = search log_rules

pub get_task-Logs : (t k : Uuid) → Logs (get_task t k)
unfolding get_task
get_task-Logs t k = search log_rules

pub get_tool_invocation-Logs : (t k : Uuid) (c : String) → Logs (get_tool_invocation t k c)
unfolding get_tool_invocation
get_tool_invocation-Logs t k c = search log_rules

pub get_conversation-Logs : (t k : Uuid) → Logs (get_conversation t k)
unfolding get_conversation
get_conversation-Logs t k = search log_rules

pub list_messages-Logs : (t k : Uuid) (n : ℕ) → Logs (list_messages t k n)
unfolding list_messages
list_messages-Logs t k n = search log_rules depth 20

pub list_remote_agents-Logs : (env : Env) (t : Uuid) → Logs (list_remote_agents env t)
unfolding list_remote_agents
list_remote_agents-Logs env t = search log_rules

pub ruleset store_rules = (
  get_turn-Logs, get_task-Logs, get_tool_invocation-Logs, get_conversation-Logs, list_messages-Logs,
  list_remote_agents-Logs, checkpoint_turn-Logs, pause_turn-Logs, complete_turn-Logs,
  claim_pending_turn-Logs, create_tool_invocation-Logs, complete_tool_invocation-Logs,
  fail_tool_invocation-Logs, add_task-Logs, create_delegated_tasks-Logs,
  create_coordinator_approval-Logs, append_event-Logs,
)

-- The memory tools append to the log.
pub record IsLogging (tools : MemoryTools) : Type 0 where
  pub get_fact : (env : Env) (t : Uuid) (topic : String) → Logs (tools.get_fact env t topic)
  pub set_fact : (env : Env) (t m : Uuid) (content : String) → Logs (tools.set_fact env t m content)
  pub search_session :
      (env : Env) (t u : Uuid) (query : String) (n : ℕ)
      → Logs (tools.search_session env t u query n)
