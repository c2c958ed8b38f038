-- ===== src/Agent/Coordinator/Samples.antt =====
-- A coordinator for tests, whose model answers at once and whose sandbox has one tool.
use astra_agent.Base.{true, false, Option, none, some, [], ◌∷◌}
use astra_agent.Domain.Models.{Json, text, obj, field, end}
use astra_agent.Runtime.Samples.{env_at, turn_running}
use astra_agent.Agent.Tools.Registry.{
  LocalTool, LocalToolRegistry, TenantWorkspace, command_execute_capability, arguments,
}
use astra_agent.Agent.Coordinator.Messages.{ModelMessage, ToolCall}
use astra_agent.Agent.Coordinator.Session.{World, Session}

abbrev pub workspace : TenantWorkspace
workspace = record { root = "srv" ∷ []; grants = command_execute_capability ∷ [] }

abbrev pub tool : LocalTool
tool = record {
  name = "run_command";
  capability = command_execute_capability;
  execute = λ params w. record { success = true; content = "ran"; error = none; data_ = end };
}

abbrev pub registry : LocalToolRegistry
registry = record { workspaces = (1, workspace) ∷ []; tools = tool ∷ [] }

abbrev pub read_message : Json → Option ModelMessage
read_message (obj (field _ (text role) (field _ (text content) end))) =
    some (record { role = role; content = content })
read_message _ = none

abbrev pub read_call : Json → Option ToolCall
read_call (obj (field _ (text id) (field _ (text name) (field _ (obj arguments) end)))) =
    some (record { id = id; name = name; arguments = arguments })
read_call _ = none

abbrev pub world : World
world = record {
  envs = λ n. env_at 1000;
  complete = λ n messages tools. some (record { content = some "Done."; tool_calls = [] });
  plan = none;
  compile = λ store tenant_id objective. record {
    tenant_id = tenant_id;
    content = objective;
    source_memory_ids = [];
    estimated_tokens = 1;
  };
  registry = λ n. registry;
  memory_tools = none;
  validate_message = read_message;
  validate_call = read_call;
  validate_capability = λ item. none;
  dumps = λ json. "{}";
  dump_result = λ result. result.content;
  sha256 = λ fields. "0";
  history_limit = 20;
  delegation_enabled = false;
  max_tool_iterations = 8;
  max_delegation_siblings = 2;
}

abbrev pub session : Session
session = record { store = turn_running; steps = 0; requests = 0 }
