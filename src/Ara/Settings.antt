-- ===== src/Ara/Settings.antt =====
-- HostARASettings of apps/ara/src/astra_ara/settings.py: what the executor reads, and the check of
-- the settings. A path is absolute, or relative.
use Prim.Native.String.{String}
use astra_agent.Base.{
  ℕ, Bool, true, false, ◌&&◌, not, Option, none, some, List, is_empty, if◌then◌else◌,
}
use astra_agent.Agent.Tools.Paths.{FilePath}

-- `Path(text).expanduser()`: an absolute path, or a relative one.
pub data HostPath : Type 0 where
  absolute relative : FilePath → HostPath

pub data ExecutionMode : Type 0 where
  approval_required autonomous_allowlist unrestricted_autonomous : ExecutionMode

-- The settings of the worker that the executor and its validation read.
pub record HostAraSettings : Type 0 where
  pub enabled : Bool
  pub execution_mode : ExecutionMode
  pub confirm_unrestricted_autonomy : Bool
  pub command_allowlist : List HostPath
  pub working_directory_allowlist : List HostPath
  pub command_max_output_bytes : ℕ

abbrev pub is_unrestricted : ExecutionMode → Bool
is_unrestricted ExecutionMode.unrestricted_autonomous = true
is_unrestricted _ = false

abbrev pub is_allowlist : ExecutionMode → Bool
is_allowlist ExecutionMode.autonomous_allowlist = true
is_allowlist _ = false

-- The text of the ValueError, if the settings are refused.
unfoldable pub validate_privileged_mode : HostAraSettings → Option String
validate_privileged_mode self =
    if not self.enabled
    then some "ASTRA_HOST_ARA_ENABLED=true is required"
    else if is_unrestricted self.execution_mode && not self.confirm_unrestricted_autonomy
    then some "ASTRA_HOST_ARA_CONFIRM_UNRESTRICTED_AUTONOMY=true is required"
    else if is_allowlist self.execution_mode && is_empty self.command_allowlist
    then some "ASTRA_HOST_ARA_COMMAND_ALLOWLIST is required for allowlist mode"
    else none
