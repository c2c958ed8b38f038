-- ===== src/Agent/Tools/Tests.antt =====
-- Runs of the local tools, and their theorems at them.
use astra_agent.Base.{
  ◌≡◌, ◌↔◌, refl, true, false, none, some, List, [], ◌∷◌, ◌++◌, String, arith, find, filter, any,
  str_eq, length, ltb,
}
use astra_agent.Base.Dict.{get, values}
use astra_agent.Base.Text.{
  split, join, splitlines, contains_text, decimal, is_break, is_crlf, take_chars,
}
use astra_agent.Domain.Kinds.{ApprovalState}
use astra_agent.Domain.Models.{text, flag, arr, nil, cons, Fields, field, end}
use astra_agent.Domain.Capabilities.{is_in, same_capability}
use astra_agent.Policy.Capability.{evaluate_capability}
use astra_agent.Agent.Tools.Paths.{
  FilePath, Bytes, done, raised, FileSystem, relative_workspace_path, locate, parts,
  crosses_symlink, is_relative_to, relative_text, lookup,
}
use astra_agent.Agent.Tools.Paths.Inside.{relative_workspace_path-finds, IsPlain}
use astra_agent.Agent.Tools.Files.{ToolResult}
use astra_agent.Agent.Tools.Streams.{read_bounded, contents, read_bounded-contents}
use astra_agent.Agent.Tools.Search.{
  Tree, Trees, node, Limits, search_files, scan_tree, scan_files, scan_lines, read_candidate,
  match_text, output_size,
}
use astra_agent.Agent.Tools.Search.Bounds.{Finds, search_files-Finds}
use astra_agent.Agent.Tools.Registry.{
  LocalToolRegistry, LocalTool, TenantWorkspace, ToolSettings, init, dispatch, run_tool,
  run_command, arguments, run_arguments, file_read_capability, command_execute_capability,
}
use astra_agent.Agent.Tools.Registry.Gates.{Runs, dispatch-Runs}
use astra_agent.Agent.Tools.Registry.Layout.{
  validate_workspace_layout, check_roots, check_against, same_path,
  validate_workspace_layout-separates,
}

abbrev root : FilePath
root = "srv" ∷ "one" ∷ []

-- A workspace with one file, and a link that leaves it.
abbrev files : FileSystem
files = record {
  is_symlink = λ path. any (λ part. str_eq part "link") path;
  is_file = λ path. any (λ part. str_eq part "notes.txt") path;
  is_dir = λ path. ltb (length path) 3;
  resolve = done;
  read = λ path. done (72 ∷ 105 ∷ []);
  iterdir = λ path. done ("notes.txt" ∷ "link" ∷ []);
}

abbrev decode : Bytes → String
decode [] = ""
decode (byte ∷ bytes) = "Hi Bob\nBye"

abbrev same : String → String
same s = s

abbrev limits : Limits
limits = record { max_file_bytes = 10; max_files = 5; max_matches = 5; max_output_bytes = 100 }

abbrev walk : FilePath → Tree
walk path = node "one" ("notes.txt" ∷ []) Trees.nil

finds_notes :
    relative_workspace_path files root (some (text "./notes.txt"))
    ≡ done ("srv" ∷ "one" ∷ "notes.txt" ∷ [])
unfolding relative_workspace_path locate parts split filter any crosses_symlink is_relative_to
finds_notes = refl

no_way_up :
    relative_workspace_path files root (some (text "a/../../two"))
    ≡ raised "path must be workspace-relative and may not contain '..'"
unfolding relative_workspace_path locate parts split filter any
no_way_up = refl

relative_workspace_path-finds_example :
    (relative_workspace_path files root (some (text "notes.txt"))
      ≡ done ("srv" ∷ "one" ∷ "notes.txt" ∷ []))
    ↔ ((name : String) × (some (text "notes.txt") ≡ some (text name))
        × IsPlain files root name
        × ("srv" ∷ "one" ∷ "notes.txt" ∷ [] ≡ root ++ parts name))
relative_workspace_path-finds_example =
    relative_workspace_path-finds files root (λ path a b. refl) (some (text "notes.txt"))
      ("srv" ∷ "one" ∷ "notes.txt" ∷ [])

read_bounded-contents_example :
    read_bounded 3 ((1 ∷ 2 ∷ []) ∷ (3 ∷ 4 ∷ []) ∷ [] ∷ (5 ∷ []) ∷ []) ≡ (1 ∷ 2 ∷ 3 ∷ [], true)
unfolding contents
read_bounded-contents_example =
    read_bounded-contents 3 ((1 ∷ 2 ∷ []) ∷ (3 ∷ 4 ∷ []) ∷ [] ∷ (5 ∷ []) ∷ [])

abbrev query : Fields
query = field "query" (text "Bob") end

search_runs : (search_files files walk root decode same limits query).content ≡ "notes.txt:1:Hi Bob"
unfolding search_files lookup relative_workspace_path locate parts split filter any crosses_symlink
    is_relative_to scan_tree scan_files scan_lines read_candidate match_text output_size splitlines
    contains_text decimal join relative_text is_break is_crlf take_chars
search_runs = refl

search_files-Finds_example :
    Finds files walk root decode same limits query
      (search_files files walk root decode same limits query)
unfolding search_files lookup relative_workspace_path locate parts split filter any crosses_symlink
    is_relative_to
search_files-Finds_example = search_files-Finds files walk root decode same limits query refl

abbrev one : TenantWorkspace
one = record { root = root; grants = file_read_capability ∷ command_execute_capability ∷ [] }

abbrev two : TenantWorkspace
two = record { root = "srv" ∷ "two" ∷ []; grants = [] }

abbrev run : FilePath → List String → ToolResult
run path argv = record { success = true; content = "ran"; error = none; data_ = end }

abbrev settings : ToolSettings
settings = record {
  tenant_workspaces = (1, one) ∷ (2, two) ∷ [];
  tool_read_max_bytes = 10;
  tool_search = limits;
}

abbrev registry : LocalToolRegistry
registry = init files walk decode same settings (some run)

abbrev command : Fields
command = field "argv" (arr (cons (text "ls") nil)) end

needs_approval :
    (dispatch registry 1 "run_command" command none).data_
    ≡ field "requires_approval" (flag true) end
unfolding dispatch run_tool init get find evaluate_capability is_in same_capability
needs_approval = refl

dispatch-Runs_example :
    Runs registry 1 "run_command" command
      (some ApprovalState.granted)
      (dispatch registry 1 "run_command" command (some ApprovalState.granted))
unfolding dispatch run_tool init get find evaluate_capability is_in same_capability run_command
    run_arguments arguments lookup
dispatch-Runs_example =
    dispatch-Runs registry 1 "run_command" command (some ApprovalState.granted) refl

abbrev command_tool : LocalTool
command_tool = record {
  name = "run_command";
  capability = command_execute_capability;
  execute = run_command run;
}

validate_workspace_layout-separates_example :
    is_relative_to ("srv" ∷ "one" ∷ "notes.txt" ∷ []) two.root ≡ false
unfolding validate_workspace_layout check_roots check_against same_path is_relative_to values get
    relative_workspace_path locate parts split filter any crosses_symlink
validate_workspace_layout-separates_example =
    validate_workspace_layout-separates files settings.tenant_workspaces none none 1 2 one two
      (some (text "notes.txt")) ("srv" ∷ "one" ∷ "notes.txt" ∷ []) refl refl refl (omega arith) refl
