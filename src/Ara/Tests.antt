-- ===== src/Ara/Tests.antt =====
-- Runs of the host's executor with one allowed command, and its theorem at one.
use Prim.Native.String.{String}
use astra_agent.Base.{
  ◌≡◌, refl, true, false, Option, none, some, [], ◌∷◌, inl, inr, subst, any, if◌then◌else◌,
}
use astra_agent.Domain.Models.{Json, num, text, arr, nil, cons, obj, field, end}
use astra_agent.Runtime.Samples.{task}
use astra_agent.Agent.Tools.Paths.{FilePath, lookup}
use astra_agent.Agent.Tools.Registry.{arguments}
use astra_agent.Agent.Tools.Registry.Layout.{same_path}
use astra_agent.Ara.Settings.{
  HostPath, absolute, relative, ExecutionMode, HostAraSettings, validate_privileged_mode,
}
use astra_agent.Ara.HostCommands.{
  Host, Command, Completed, Outcome, returned, execute, authorize, resolve_all,
}
use astra_agent.Ara.HostCommands.Authority.{MayRun, execute-permitted}

abbrev ls : FilePath
ls = "usr" ∷ "bin" ∷ "ls" ∷ []

abbrev settings : HostAraSettings
settings = record {
  enabled = true;
  execution_mode = ExecutionMode.autonomous_allowlist;
  confirm_unrestricted_autonomy = false;
  command_allowlist = absolute ls ∷ [];
  working_directory_allowlist = [];
  command_max_output_bytes = 1024;
}

abbrev resolved : HostPath → Option FilePath
resolved (absolute path) = some ls
resolved (relative path) = none

abbrev host : Host
host = record {
  expanduser = λ value. absolute ls;
  expand = λ path. path;
  resolve_strict = resolved;
  resolve = λ path. ls;
  is_executable = λ path. true;
  path_directories = [];
}

abbrev loads : String → Option Json
loads context = some (obj (field "argv" (arr (cons (text "/usr/bin/ls") nil)) end))

abbrev completed : Completed
completed = record { exit_code = num 0; stdout = "a"; stderr = "" }

abbrev run : Command → Outcome (Option Completed)
run command = returned (some completed)

abbrev run_listed : Command → Outcome (Option Completed)
run_listed command =
    if same_path command.executable ls then returned (some completed) else returned none

resolves_to : (path : HostPath) {r : FilePath} → resolved path ≡ some r → r ≡ ls
resolves_to (absolute path) h = cc h
resolves_to (relative path) h = cc h

same_runs : (c : Command) → MayRun host settings c → run c ≡ run_listed c
same_runs c (inl (mode, confirmed)) = cc confirmed
same_runs c (inr (mode, (p, r, there, at, same), placed)) =
    let one = resolves_to p at in
    let listed : same_path c.executable ls ≡ true =
      subst (λ x. same_path c.executable x ≡ true) one same in
    rw listed refl

execute-permitted_example :
    execute host loads (λ json. "{}") (λ value. []) (λ bytes. "") (λ path. "") run settings task
    ≡ execute host loads
        (λ json. "{}")
        (λ value. [])
        (λ bytes. "")
        (λ path. "")
        run_listed
        settings
        task
unfolding validate_privileged_mode
execute-permitted_example =
    execute-permitted host settings loads (λ json. "{}") (λ value. []) (λ bytes. "") (λ path. "")
      run run_listed task refl same_runs

runs_listed :
    execute host loads (λ json. "{}") (λ value. []) (λ bytes. "") (λ path. "") run settings task
    ≡ returned "{}"
unfolding execute authorize resolve_all arguments lookup same_path any
runs_listed = refl
