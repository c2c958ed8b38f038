-- ===== src/Ara/HostCommands.antt =====
-- HostCommandExecutor of apps/ara/src/astra_ara/host_executor.py. The file system, the reading and
-- printing of JSON, the coding of texts and the process that runs a command are parameters.
pub mod Authority
use Prim.Native.String.{String, count, ◌++◌ as text_append}
use astra_agent.Base.{
  ℕ, ◌==◌, Bool, true, false, ◌&&◌, ◌||◌, not, Option, none, some, List, [], ◌∷◌, ◌++◌, any, take,
  length, ltb, is_empty, if◌then◌else◌,
}
use astra_agent.Domain.Models.{Json, null, flag, num, text, arr, obj, Fields, field, end, Task}
use astra_agent.Agent.Tools.Paths.{FilePath, Bytes, lookup, is_relative_to}
use astra_agent.Agent.Tools.Registry.{arguments}
use astra_agent.Agent.Tools.Registry.Layout.{same_path}
use astra_agent.Agent.Coordinator.Delegated.{is_directory, or_null}
use astra_agent.Ara.Settings.{HostPath, absolute, relative, ExecutionMode, HostAraSettings}

-- The exceptions that leave `execute`: ValueError, FileNotFoundError, PermissionError, RuntimeError,
-- what an operation on files raises, AttributeError.
pub data HostError : Type 0 where
  value_error command_not_found permission_error runtime_error file_error attribute_error :
      HostError

pub data Outcome (A : Type 0) : Type 0 where
  returned : A → Outcome A
  raised : HostError → Outcome A

module _ {A B : Type 0} where
  infixl 10 ◌>>=◌
  abbrev pub ◌>>=◌ : Outcome A → (A → Outcome B) → Outcome B
  returned a >>= f = f a
  raised e >>= f = raised e

abbrev pub or_raise : {A : Type 0} → HostError → Option A → Outcome A
or_raise error none = raised error
or_raise error (some a) = returned a

-- `if test: raise …`
abbrev pub refuse_if : Bool → HostError → Outcome (Unit {0})
refuse_if true error = raised error
refuse_if false error = returned tt

-- What `execute` asks of the host. `expanduser` is of the text of a path; `resolve_strict` is
-- `path.resolve(strict=True)` and `none` where it raises; `path_directories` are those of PATH.
pub record Host : Type 0 where
  pub expanduser : String → HostPath
  pub expand : HostPath → HostPath
  pub resolve_strict : HostPath → Option FilePath
  pub resolve : HostPath → FilePath
  pub is_executable : HostPath → Bool
  pub path_directories : List HostPath

-- `Path(directory) / name`
abbrev pub join_name : HostPath → String → HostPath
join_name (absolute directory) name =
    absolute (directory ++ (if count name == 0 then [] else name ∷ []))
join_name (relative directory) name =
    relative (directory ++ (if count name == 0 then [] else name ∷ []))

-- `path.name`
unfoldable pub last_part : FilePath → String
last_part [] = ""
last_part (part ∷ parts) = let rest = last_part parts in if is_empty parts then part else rest

-- A command to run: the executable, its arguments, the directory.
pub record Command : Type 0 where
  pub executable : FilePath
  pub parameters : List String
  pub working_directory : Option FilePath

pub record Completed : Type 0 where
  pub exit_code : Json
  pub stdout : String
  pub stderr : String

module _ (host : Host) where
  -- `_which`, over the directories of PATH
  unfoldable pub which : List HostPath → String → Option FilePath
  which [] name = none
  which (directory ∷ directories) name =
      let candidate = join_name directory name in
      let rest = which directories name in
      if host.is_executable candidate then some (host.resolve candidate) else rest

  abbrev pub find_executable : HostPath → Outcome FilePath
  find_executable (relative parts) =
      or_raise command_not_found (which host.path_directories (last_part parts))
  find_executable (absolute parts) = or_raise file_error (host.resolve_strict (absolute parts))

  -- `Path(cwd).expanduser().resolve(strict=True) if cwd else None`
  abbrev pub find_directory : Option Json → Outcome (Option FilePath)
  find_directory (some (text value)) =
      if count value == 0
      then returned none
      else (or_raise file_error (host.resolve_strict (host.expanduser value)) >>= λ directory.
          returned (some directory))
  find_directory _ = returned none

  -- `path.expanduser().resolve(strict=True) for path in paths`
  unfoldable pub resolve_all : List HostPath → Outcome (List FilePath)
  resolve_all [] = returned []
  resolve_all (path ∷ paths) = do
    resolved ← or_raise file_error (host.resolve_strict (host.expand path))
    rest ← resolve_all paths
    returned (resolved ∷ rest)

  -- The check of the working directory.
  abbrev pub check_directory : List HostPath → Option FilePath → Outcome (Unit {0})
  check_directory [] cwd = returned tt
  check_directory (root ∷ roots) none = returned tt
  check_directory (root ∷ roots) (some cwd) = do
    resolved ← resolve_all (root ∷ roots)
    refuse_if (not (any (is_relative_to cwd) resolved)) permission_error

  abbrev pub check_allowlist : HostAraSettings → FilePath → Option FilePath → Outcome (Unit {0})
  check_allowlist settings executable cwd = do
    allowed_commands ← resolve_all settings.command_allowlist
    listed ← refuse_if (not (any (same_path executable) allowed_commands)) permission_error
    check_directory settings.working_directory_allowlist cwd

  abbrev pub authorize_in :
      ExecutionMode → HostAraSettings → FilePath → Option FilePath → Outcome (Unit {0})
  authorize_in ExecutionMode.unrestricted_autonomous settings executable cwd = returned tt
  authorize_in ExecutionMode.approval_required settings executable cwd = raised permission_error
  authorize_in ExecutionMode.autonomous_allowlist settings executable cwd =
      check_allowlist settings executable cwd

  unfoldable pub authorize : HostAraSettings → FilePath → Option FilePath → Outcome (Unit {0})
  authorize settings executable cwd = authorize_in settings.execution_mode settings executable cwd

  abbrev pub authorized : HostAraSettings → Command → Outcome Command
  authorized settings command = do
    allowed ← authorize settings command.executable command.working_directory
    returned command

  abbrev pub command_of : HostAraSettings → Option (List String) → Option Json → Outcome Command
  command_of settings (some (program ∷ parameters)) cwd = do
    executable ← find_executable (host.expanduser program)
    working_directory ← find_directory cwd
    authorized settings (record {
      executable = executable;
      parameters = parameters;
      working_directory = working_directory;
    })
  command_of settings _ cwd = raised value_error

  abbrev pub argv_of : Option Json → Option (List String)
  argv_of (some (arr items)) = arguments items
  argv_of _ = none

  -- What `execute` does before it runs a command. A payload that is no dictionary has no `get`.
  abbrev pub prepare : HostAraSettings → Option Json → Outcome Command
  prepare settings (some (obj payload)) =
      if is_directory (lookup "cwd" payload)
      then command_of settings (argv_of (lookup "argv" payload)) (lookup "cwd" payload)
      else raised value_error
  prepare settings none = raised value_error
  prepare settings (some _) = raised attribute_error

  module _ (loads : String → Option Json) (dumps : Json → String) (encode : String → Bytes)
      (decode : Bytes → String) (path_text : FilePath → String)
      (run : Command → Outcome (Option Completed)) where
    abbrev pub directory_text : Option FilePath → Json
    directory_text none = null
    directory_text (some directory) = text (path_text directory)

    -- The JSON that `execute` returns.
    abbrev pub report : HostAraSettings → Json → Command → Completed → String
    report settings argv command completed =
        let raw_output = encode (text_append completed.stdout completed.stderr) in
        let output = take settings.command_max_output_bytes raw_output in
        dumps (
          obj (
            field "argv" argv (
              field "cwd" (directory_text command.working_directory) (
                field "exit_code" completed.exit_code (
                  field "output" (text (decode output)) (
                    field "output_truncated" (flag (ltb (length output) (length raw_output)))
                      end))))))

    abbrev pub argv_json : Option Json → Json
    argv_json (some (obj payload)) = or_null (lookup "argv" payload)
    argv_json _ = null

    -- A process may not start; one that does not end in time raises RuntimeError.
    abbrev pub run_prepared : HostAraSettings → Option Json → Outcome Command → Outcome String
    run_prepared settings payload (returned command) =
        run command >>= or_raise runtime_error >>= λ completed.
        returned (report settings (argv_json payload) command completed)
    run_prepared settings payload (raised error) = raised error

    unfoldable pub execute : HostAraSettings → Task → Outcome String
    execute settings task =
        let payload = loads task.context in run_prepared settings payload (prepare settings payload)
