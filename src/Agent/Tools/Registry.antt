-- ===== src/Agent/Tools/Registry.antt =====
-- RunCommandTool and LocalToolRegistry of tools.py, and TenantWorkspace of settings.py. The
-- sandbox runner is a parameter, as the class's Protocol has it.
pub mod Gates
pub mod Layout
use Prim.Native.String.{count}
use astra_agent.Base.{
  ℕ, String, ◌==◌, Bool, true, false, ◌&&◌, ◌||◌, not, Option, none, some, List, [], ◌∷◌, ◌++◌, map,
  str_eq, if◌then◌else◌, find, filter,
}
use astra_agent.Base.Dict.{Dict, get}
use astra_agent.Domain.Kinds.{CapabilityKind, ApprovalState}
use astra_agent.Domain.Models.{
  Uuid, Capability, Json, text, flag, arr, Items, nil, cons, Fields, field, end,
}
use astra_agent.Policy.Capability.{PolicyDecision, evaluate_capability}
use astra_agent.Agent.Tools.Paths.{FilePath, Bytes, FileSystem, lookup}
use astra_agent.Agent.Tools.Files.{ToolResult, failure, read_file, list_directory}
use astra_agent.Agent.Tools.Search.{Tree, Limits, search_files}

abbrev pub file_read_capability : Capability
file_read_capability = record { kind = CapabilityKind.file_read; scope = "workspace" }

abbrev pub command_execute_capability : Capability
command_execute_capability = record { kind = CapabilityKind.command_execute; scope = "workspace" }

pub record TenantWorkspace : Type 0 where
  pub root : FilePath
  pub grants : List Capability

-- A tool of the registry under its name.
pub record LocalTool : Type 0 where
  pub name : String
  pub capability : Capability
  pub execute : Fields → TenantWorkspace → ToolResult

pub record LocalToolRegistry : Type 0 where
  pub workspaces : Dict TenantWorkspace
  pub tools : List LocalTool

-- The arguments, if all are non-empty texts.
unfoldable pub arguments : Items → Option (List String)
arguments nil = some []
arguments (cons (text value) items) =
    let rest = arguments items in
    if count value == 0
    then none
    else elim rest [ none ↦ none | some values ↦ some (value ∷ values) ]
arguments (cons _ items) = none

unfoldable pub run_arguments :
    (FilePath → List String → ToolResult) → FilePath → Option (List String) → ToolResult
run_arguments run root (some (value ∷ values)) = run root (value ∷ values)
run_arguments run root _ = failure "argv must be a non-empty array of non-empty strings"

-- `RunCommandTool.execute`
unfoldable pub run_command :
    (FilePath → List String → ToolResult) → Fields → TenantWorkspace → ToolResult
run_command run params workspace = elim (lookup "argv" params) [
  | some (arr items) ↦ run_arguments run workspace.root (arguments items)
  | _ ↦ failure "argv must be a non-empty array of non-empty strings"
]

-- The settings that the registry reads.
pub record ToolSettings : Type 0 where
  pub tenant_workspaces : Dict TenantWorkspace
  pub tool_read_max_bytes : ℕ
  pub tool_search : Limits

module _ (files : FileSystem) (walk : FilePath → Tree) (decode : Bytes → String)
    (casefold : String → String) where
  abbrev pub command_tools : Option (FilePath → List String → ToolResult) → List LocalTool
  command_tools none = []
  command_tools (some run) =
      record {
        name = "run_command";
        capability = command_execute_capability;
        execute = run_command run;
      }
      ∷ []

  -- `LocalToolRegistry.__init__`, with the runner that is passed or configured, if there is one
  unfoldable pub init :
      ToolSettings → Option (FilePath → List String → ToolResult) → LocalToolRegistry
  init settings runner = record {
    workspaces = settings.tenant_workspaces;
    tools =
        record {
          name = "read_file";
          capability = file_read_capability;
          execute = λ params w. read_file files w.root decode settings.tool_read_max_bytes params;
        }
        ∷ record {
          name = "list_directory";
          capability = file_read_capability;
          execute = λ params w.
              list_directory files w.root casefold settings.tool_search.max_files params;
        }
        ∷ record {
          name = "search_files";
          capability = file_read_capability;
          execute = λ params w.
              search_files files walk w.root decode casefold settings.tool_search params;
        }
        ∷ command_tools runner;
  }

-- `tool.capability.kind is CapabilityKind.COMMAND_EXECUTE`
abbrev pub is_command : CapabilityKind → Bool
is_command CapabilityKind.command_execute = true
is_command _ = false

abbrev pub is_offered : List Capability → LocalTool → Bool
is_offered grants tool =
    (evaluate_capability tool.capability grants none).allowed
    || is_command tool.capability.kind
      && (evaluate_capability tool.capability grants (some ApprovalState.granted)).allowed

abbrev pub offered_in : Option TenantWorkspace → List LocalTool → List LocalTool
offered_in none tools = []
offered_in (some workspace) tools = filter (is_offered workspace.grants) tools

-- The tools whose definitions the model is shown.
unfoldable pub definitions : LocalToolRegistry → Uuid → List LocalTool
definitions self tenant_id = offered_in (get self.workspaces tenant_id) self.tools

abbrev pub refusal : PolicyDecision → ToolResult
refusal decision = record {
  success = false;
  content = "";
  error = some decision.reason;
  data_ = field "requires_approval" (flag decision.requires_approval) end;
}

unfoldable pub run_tool :
    Option TenantWorkspace → Option LocalTool → Fields → Option ApprovalState → ToolResult
run_tool (some workspace) (some tool) params approval_state =
    let decision = evaluate_capability tool.capability workspace.grants approval_state in
    if not decision.allowed then refusal decision else tool.execute params workspace
run_tool _ _ params approval_state = failure "local tool is unavailable"

unfoldable pub dispatch :
    LocalToolRegistry → Uuid → String → Fields → Option ApprovalState → ToolResult
dispatch self tenant_id name params approval_state =
    run_tool (get self.workspaces tenant_id) (find (λ tool. str_eq tool.name name) self.tools)
      params approval_state
