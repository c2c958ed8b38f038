-- ===== src/Agent/Tools/Files.antt =====
-- ToolResult, ReadFileTool and ListDirectoryTool of tools.py. The decoding of bytes as UTF-8, with
-- replacement of what is none, and `str.casefold` are parameters.
use Prim.Native.String.{◌++◌ as text_append}
use astra_agent.Base.{
  ℕ, String, Bool, true, false, Option, none, some, List, [], ◌∷◌, ◌++◌, ltb, not, length, take,
  map, filter, sort, if◌then◌else◌, suc,
}
use astra_agent.Base.Text.{join, text_leb}
use astra_agent.Domain.Models.{text, flag, Fields, field, end}
use astra_agent.Agent.Tools.Paths.{
  FilePath, Bytes, Attempt, done, raised, FileSystem, relative_workspace_path, relative_text,
  lookup, or_default,
}

pub record ToolResult : Type 0 where
  pub success : Bool
  pub content : String
  pub error : Option String
  pub data_ : Fields

-- `ToolResult(success=False, error=error)`
abbrev pub failure : String → ToolResult
failure error = record { success = false; content = ""; error = some error; data_ = end }

-- The result of a read: the path as a text, and whether something was left out.
abbrev pub success_at : String → Bool → String → ToolResult
success_at path truncated content = record {
  success = true;
  content = content;
  error = none;
  data_ = field "path" (text path) (field "truncated" (flag truncated) end);
}

module _ (files : FileSystem) (root : FilePath) where
  -- `file.read(max_bytes + 1)`, of which `max_bytes` are kept
  abbrev pub read_result : (Bytes → String) → ℕ → FilePath → Attempt Bytes → ToolResult
  read_result decode max_bytes path (raised error) = failure error
  read_result decode max_bytes path (done bytes) =
      let content = take (suc max_bytes) bytes in
      success_at (relative_text path root) (ltb max_bytes (length content))
        (decode (take max_bytes content))

  abbrev pub read_located : (Bytes → String) → ℕ → Attempt FilePath → ToolResult
  read_located decode max_bytes (raised error) = failure error
  read_located decode max_bytes (done path) =
      if not (files.is_file path)
      then failure "path is not a regular file"
      else read_result decode max_bytes path (files.read path)

  -- `ReadFileTool.execute`
  unfoldable pub read_file : (Bytes → String) → ℕ → Fields → ToolResult
  read_file decode max_bytes params =
      read_located decode max_bytes (relative_workspace_path files root (lookup "path" params))

  abbrev pub entry_text : FilePath → String → String
  entry_text path name = text_append name (if files.is_dir (path ++ name ∷ []) then "/" else "")

  -- The entries that are no symbolic links, a directory with a stroke, by their folded texts.
  unfoldable pub entry_texts : (String → String) → FilePath → List String → List String
  entry_texts casefold path names =
      sort (λ a b. text_leb (casefold a) (casefold b))
        (map (entry_text path) (filter (λ name. not (files.is_symlink (path ++ name ∷ []))) names))

  abbrev pub list_result : (String → String) → ℕ → FilePath → Attempt (List String) → ToolResult
  list_result casefold max_entries path (raised error) = failure error
  list_result casefold max_entries path (done names) =
      let entries = entry_texts casefold path names in
      success_at (relative_text path root) (ltb max_entries (length entries))
        (join "\n" (take max_entries entries))

  abbrev pub list_located : (String → String) → ℕ → Attempt FilePath → ToolResult
  list_located casefold max_entries (raised error) = failure error
  list_located casefold max_entries (done path) =
      if not (files.is_dir path)
      then failure "path is not a directory"
      else list_result casefold max_entries path (files.iterdir path)

  -- `ListDirectoryTool.execute`
  unfoldable pub list_directory : (String → String) → ℕ → Fields → ToolResult
  list_directory casefold max_entries params =
      list_located casefold max_entries
        (relative_workspace_path files root (some (or_default (lookup "path" params) (text "."))))
