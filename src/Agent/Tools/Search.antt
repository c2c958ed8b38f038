-- ===== src/Agent/Tools/Search.antt =====
-- SearchFilesTool of tools.py: a literal search of a tree of files, with limits on files, matches
-- and output. The operations on characters that the tool takes from Python's library and that
-- depend on Unicode's tables, `casefold` and the decoding of bytes, are parameters, as is the
-- walk's order.
pub mod Bounds
use Prim.Native.String.{count, ◌++◌ as text_append}
use astra_agent.Base.{
  ℕ, suc, String, Bool, true, false, ◌&&◌, ◌||◌, not, Option, none, some, List, [], ◌∷◌, ◌++◌, ◌+◌,
  ltb, leb, ◌==◌, length, take, if◌then◌else◌,
}
use astra_agent.Base.Text.{join, splitlines, decimal, contains_text}
use astra_agent.Domain.Models.{Json, text, flag, num, Fields, field, end}
use astra_agent.Agent.Tools.Paths.{
  FilePath, Bytes, Attempt, done, raised, FileSystem, relative_workspace_path, relative_text,
  lookup, or_default,
}
use astra_agent.Agent.Tools.Files.{ToolResult, failure}

-- What `os.walk` sees of a directory: its own name, the names of its files, its subdirectories.
mutual
  pub data Tree : Type 0 where
    node : String → List String → Trees → Tree

  pub data Trees : Type 0 where
    nil : Trees
    cons : Tree → Trees → Trees

pub record Limits : Type 0 where
  pub max_file_bytes : ℕ
  pub max_files : ℕ
  pub max_matches : ℕ
  pub max_output_bytes : ℕ

-- The variables of the search.
pub record Progress : Type 0 where
  pub matches : List String
  pub scanned_files : ℕ

-- A loop runs on, or the method returns with its output cut.
pub data Step : Type 0 where
  going cut : Progress → Step

abbrev pub progress : Step → Progress
progress (going p) = p
progress (cut p) = p

-- `sum(len(item) + 1 for item in matches)`
unfoldable pub output_size : List String → ℕ
output_size [] = 0
output_size (item ∷ items) = count item + 1 + output_size items

unfoldable pub match_text : FilePath → FilePath → ℕ → String → String
match_text root path line_number line =
    text_append (relative_text path root)
      (text_append ":" (text_append (decimal line_number) (text_append ":" line)))

abbrev pub add_match : String → Progress → Progress
add_match added p = record p { matches = p.matches ++ added ∷ [] }

module _ (files : FileSystem) (root : FilePath) (decode : Bytes → String)
    (casefold : String → String) (limits : Limits) (query_folded : String) where
  -- `scanned_files >= self._max_files or len(matches) >= self._max_matches`
  abbrev pub is_full : Progress → Bool
  is_full p = leb limits.max_files p.scanned_files || leb limits.max_matches (length p.matches)

  -- The loop over the lines of a file, from the number of the first.
  unfoldable pub scan_lines : FilePath → ℕ → List String → Progress → Step
  scan_lines path line_number [] p = going p
  scan_lines path line_number (line ∷ lines) p =
      let match = match_text root path line_number line in
      let found = add_match match p in
      let skipped = scan_lines path (suc line_number) lines p in
      let rest = scan_lines path (suc line_number) lines found in
      if not (contains_text query_folded (casefold line))
      then skipped
      else if ltb limits.max_output_bytes (output_size p.matches + count match)
      then cut p
      else if leb limits.max_matches (length found.matches)
      then going found
      else rest

  abbrev pub first_bytes : FilePath → Attempt Bytes → Option (FilePath × Bytes)
  first_bytes path (raised error) = none
  first_bytes path (done bytes) = some (path, take (suc limits.max_file_bytes) bytes)

  abbrev pub read_path : Attempt FilePath → Option (FilePath × Bytes)
  read_path (raised error) = none
  read_path (done path) =
      if not (files.is_file path) then none else first_bytes path (files.read path)

  -- The path of a file of the walk and its first bytes, unless it is no file or cannot be read.
  unfoldable pub read_candidate : FilePath → String → Option (FilePath × Bytes)
  read_candidate directory filename = read_path (
      relative_workspace_path files root
        (some (text (relative_text (directory ++ filename ∷ []) root))))

  abbrev pub scan_candidate : Option (FilePath × Bytes) → Progress → Step
  scan_candidate none p = going p
  scan_candidate (some (path, raw)) p =
      scan_lines path 1 (splitlines (decode (take limits.max_file_bytes raw)))
        (record p { scanned_files = suc p.scanned_files })

  -- What follows a step that does not return.
  abbrev pub follow : Step → (Progress → Step) → Step
  follow (cut p) rest = cut p
  follow (going p) rest = rest p

  -- `if …: break`, before what the loop does else
  abbrev pub unless_full : (Progress → Step) → Progress → Step
  unless_full rest p = if is_full p then going p else rest p

  -- The loop over the files of a directory.
  unfoldable pub scan_files : FilePath → List String → Progress → Step
  scan_files directory [] p = going p
  scan_files directory (filename ∷ filenames) p =
      unless_full
        (λ q.
          follow (scan_candidate (read_candidate directory filename) q)
            (λ r. scan_files directory filenames r))
        p

  unfoldable mutual
    -- The loop over the walk, which takes a directory before those below it, and none that is a
    -- symbolic link.
    pub scan_tree : FilePath → Tree → Progress → Step
    scan_tree directory (node name filenames trees) p =
        follow (scan_files directory filenames p) (unless_full (λ q. scan_trees directory trees q))

    pub scan_trees : FilePath → Trees → Progress → Step
    scan_trees directory nil p = going p
    scan_trees directory (cons (node name filenames below) trees) p =
        let next = directory ++ name ∷ [] in
        if files.is_symlink next
        then scan_trees directory trees p
        else follow (scan_tree next (node name filenames below) p)
            (unless_full (λ q. scan_trees directory trees q))

  abbrev pub report : Step → ToolResult
  report step = record {
    success = true;
    content = join "\n" (progress step).matches;
    error = none;
    data_ =
        field "truncated" (flag (elim step [ cut p ↦ true | going p ↦ is_full p ]))
          (field "scanned_files" (num (progress step).scanned_files) end);
  }

  abbrev pub nothing : Progress
  nothing = record { matches = []; scanned_files = 0 }

module _ (files : FileSystem) (walk : FilePath → Tree) (root : FilePath) (decode : Bytes → String)
    (casefold : String → String) (limits : Limits) where
  abbrev pub search_located : String → Attempt FilePath → ToolResult
  search_located query (raised error) = failure error
  search_located query (done start) =
      let folded = casefold query in
      if not (files.is_dir start)
      then failure "path is not a directory"
      else report files root decode casefold limits folded (
          scan_tree files root decode casefold limits folded start (walk start)
            (nothing files root decode casefold limits folded))

  abbrev pub search_for : Option Json → Fields → ToolResult
  search_for (some (text query)) params =
      if count query == 0
      then failure "query must be a non-empty string"
      else search_located query
          (relative_workspace_path files root (some (or_default (lookup "path" params) (text "."))))
  search_for _ params = failure "query must be a non-empty string"

  -- `SearchFilesTool.execute`
  unfoldable pub search_files : Fields → ToolResult
  search_files params = search_for (lookup "query" params) params
