-- ===== src/Agent/Tools/Paths.antt =====
-- _relative_workspace_path of tools.py, over the operations of pathlib. The file system is a
-- parameter. A path is the list of its components, an absolute one that of those below "/".
pub mod Inside
use Prim.Native.Nat.{ℕ}
use Prim.Native.Char.{code}
use Prim.Native.String.{count, [] as empty, ◌∷◌ as prefix}
use astra_agent.Base.{
  String, ◌==◌, Bool, true, false, ◌&&◌, ◌||◌, not, Option, none, some, List, [], ◌∷◌, ◌++◌, str_eq,
  if◌then◌else◌, length, drop, filter, any, is_empty,
}
use astra_agent.Base.Text.{split, join}
use astra_agent.Domain.Models.{Json, text, Fields, end, field}

abbrev pub FilePath : Type 0
FilePath = List String

abbrev pub Bytes : Type 0
Bytes = List ℕ

-- What an operation of the file system returns, or the text of the OSError or ValueError it raises.
pub data Attempt (A : Type 0) : Type 0 where
  done : A → Attempt A
  raised : String → Attempt A

-- `resolve` is `Path.resolve(strict=False)`, `read` the whole content of a file, `iterdir` the names
-- of the entries of a directory.
pub record FileSystem : Type 0 where
  pub is_symlink : FilePath → Bool
  pub is_file : FilePath → Bool
  pub is_dir : FilePath → Bool
  pub resolve : FilePath → Attempt FilePath
  pub read : FilePath → Attempt Bytes
  pub iterdir : FilePath → Attempt (List String)

-- `fields.get(key)`
unfoldable pub lookup : String → Fields → Option Json
lookup key end = none
lookup key (field name value fields) = if str_eq name key then some value else lookup key fields

-- `fields.get(key, default)`
abbrev pub or_default : Option Json → Json → Json
or_default none value = value
or_default (some value) _ = value

abbrev pub starts_at_root : String → Bool
starts_at_root empty = false
starts_at_root (prefix c s) = code c == 47

-- `PurePath(value).parts`, without the anchor of an absolute path
unfoldable pub parts : String → FilePath
parts value = filter (λ part. not (count part == 0 || str_eq part ".")) (split 47 value)

-- `any(part is a symbolic link)`, of the paths from `current` down
unfoldable pub crosses_symlink : (FilePath → Bool) → FilePath → FilePath → Bool
crosses_symlink is_symlink current [] = false
crosses_symlink is_symlink current (component ∷ components) =
    let next = current ++ component ∷ [] in
    is_symlink next || crosses_symlink is_symlink next components

-- `path.is_relative_to(root)`
unfoldable pub is_relative_to : FilePath → FilePath → Bool
is_relative_to path [] = true
is_relative_to [] (part ∷ root) = false
is_relative_to (other ∷ path) (part ∷ root) = str_eq other part && is_relative_to path root

-- `str(path.relative_to(root))`, of a path below `root`
unfoldable pub relative_text : FilePath → FilePath → String
relative_text path root =
    let below = drop (length root) path in if is_empty below then "." else join "/" below

abbrev pub check_resolved : FilePath → Attempt FilePath → Attempt FilePath
check_resolved root (raised error) = raised error
check_resolved root (done resolved) =
    if is_relative_to resolved root then done resolved else raised "path escapes workspace"

unfoldable pub locate : FileSystem → FilePath → String → Attempt FilePath
locate files root value =
    let supplied = parts value in
    if count value == 0
    then raised "path must be a non-empty workspace-relative string"
    else if starts_at_root value || any (λ part. str_eq part "..") supplied
    then raised "path must be workspace-relative and may not contain '..'"
    else if crosses_symlink files.is_symlink root supplied
    then raised "symbolic links are not allowed in workspace paths"
    else check_resolved root (files.resolve (root ++ supplied))

unfoldable pub relative_workspace_path : FileSystem → FilePath → Option Json → Attempt FilePath
relative_workspace_path files root (some (text value)) = locate files root value
relative_workspace_path files root _ = raised "path must be a non-empty workspace-relative string"
