-- ===== src/Ara/HostCommands/Authority.antt =====
-- Which commands a host runs.
use mathlib.Core.List.{Memᴰ}
use Prim.Native.String.{String}
use astra_agent.Base.{
  ◌≡◌, ◌⊎◌, inl, inr, refl, ap, sym, subst, true, false, Bool, Bool-cases, not, Option, none, some,
  List, [], ◌∷◌, any, arith,
}
use astra_agent.Domain.Models.{Json, null, flag, num, text, arr, uuid, instant, obj, Task}
use astra_agent.Agent.Tools.Paths.{FilePath, Bytes, is_relative_to, lookup}
use astra_agent.Agent.Tools.Registry.Layout.{same_path}
use astra_agent.Agent.Coordinator.Delegated.{is_directory}
use astra_agent.Ara.Settings.{HostPath, ExecutionMode, HostAraSettings, validate_privileged_mode}
use astra_agent.Ara.HostCommands.{
  HostError, Outcome, returned, raised, Host, Command, Completed, or_raise, refuse_if, resolve_all,
  check_directory, authorize, authorize_in, authorized, command_of, find_executable, find_directory,
  prepare, run_prepared, execute, ◌>>=◌,
}

abbrev any_returned : (FilePath → Bool) → Outcome (List FilePath) → Bool
any_returned q (returned rs) = any q rs
any_returned q (raised e) = false

raised≢returned : {A : Type 0} {e : HostError} {a : A} → raised e ≡ returned a → ⊥
raised≢returned h = cc

-- A bind that returned: its first step returned, and then the rest.
bind-returned :
    {A B : Type 0} (m : Outcome A) (f : A → Outcome B) {b : B}
    → (m >>= f) ≡ returned b
    → (a : A) × (m ≡ returned a) × (f a ≡ returned b)
bind-returned (returned a) f h = (a, refl, h)
bind-returned (raised e) f h = absurd (raised≢returned h)

or_raise-some :
    {A : Type 0} (e : HostError) (o : Option A) {a : A} → or_raise e o ≡ returned a → o ≡ some a
or_raise-some e none h = absurd (raised≢returned h)
or_raise-some e (some a) h = cc h

refuse-passes :
    (b : Bool) (e : HostError) {u : Unit {0}} → refuse_if (not b) e ≡ returned u → b ≡ true
refuse-passes true e h = refl
refuse-passes false e h = absurd (raised≢returned h)

module _ (host : Host) (settings : HostAraSettings) where
  -- The executable is one of the allowed ones, both resolved.
  abbrev pub IsListed : FilePath → Type 0
  IsListed executable =
      (p : HostPath) × (r : FilePath) × Memᴰ p settings.command_allowlist
      × (host.resolve_strict (host.expand p) ≡ some r)
      × (same_path executable r ≡ true)

  -- The directory is none, or no directories are prescribed, or it lies below one of them.
  abbrev pub IsPlaced : Option FilePath → Type 0
  IsPlaced directory =
      (directory ≡ none)
      ⊎ (settings.working_directory_allowlist ≡ [])
      ⊎ ((cwd : FilePath) × (p : HostPath) × (r : FilePath) × (directory ≡ some cwd)
          × Memᴰ p settings.working_directory_allowlist
          × (host.resolve_strict (host.expand p) ≡ some r)
          × (is_relative_to cwd r ≡ true))

  -- The settings let the command run.
  abbrev pub MayRun : Command → Type 0
  MayRun c =
      ((settings.execution_mode ≡ ExecutionMode.unrestricted_autonomous)
        × (settings.confirm_unrestricted_autonomy ≡ true))
      ⊎ ((settings.execution_mode ≡ ExecutionMode.autonomous_allowlist)
          × IsListed c.executable
          × IsPlaced c.working_directory)

  resolve_all-finds :
      (q : FilePath → Bool) (ps : List HostPath) {rs : List FilePath}
      → resolve_all host ps ≡ returned rs
      → any q rs ≡ true
      → (p : HostPath) × (r : FilePath) × Memᴰ p ps
        × (host.resolve_strict (host.expand p) ≡ some r)
        × (q r ≡ true)
  unfolding resolve_all any
  resolve_all-finds q [] e h = absurd (cc (ap (any_returned q) e, h))
  resolve_all-finds q (p ∷ ps) {rs} e h =
      let (r, first, then) =
        bind-returned (or_raise HostError.file_error (host.resolve_strict (host.expand p))) _ e in
      let (rest, others, whole) = bind-returned (resolve_all host ps) _ then in
      let found : any q (r ∷ rest) ≡ true = cc (ap (any_returned q) whole, h) in
      elim (Bool-cases (q r)) [
        | inl hit ↦ (p, r, Memᴰ.head refl, or_raise-some _ _ first, hit)
        | inr miss ↦
            let (p', r', there, resolved, hit) = resolve_all-finds q ps others (rw miss at found) in
            (p', r', Memᴰ.tail there, resolved, hit)
      ]

  check_directory-places :
      (roots : List HostPath) (cwd : Option FilePath) {u : Unit {0}}
      → settings.working_directory_allowlist ≡ roots
      → check_directory host roots cwd ≡ returned u
      → IsPlaced cwd
  check_directory-places [] cwd e h = inr (inl e)
  check_directory-places (root ∷ roots) none e h = inl refl
  check_directory-places (root ∷ roots) (some cwd) e h =
      let (resolved, ran, passed) = bind-returned (resolve_all host (root ∷ roots)) _ h in
      let (p, r, there, at, below) =
        resolve_all-finds (is_relative_to cwd) (root ∷ roots) ran (refuse-passes _ _ passed) in
      let listed : Memᴰ p settings.working_directory_allowlist = subst (Memᴰ p) (sym e) there in
      inr (inr (cwd, p, r, refl, listed, at, below))

  authorize-MayRun :
      (c : Command) (mode : ExecutionMode) {u : Unit {0}}
      → settings.execution_mode ≡ mode
      → validate_privileged_mode settings ≡ none
      → authorize_in host mode settings c.executable c.working_directory ≡ returned u
      → MayRun c
  unfolding validate_privileged_mode
  authorize-MayRun c ExecutionMode.unrestricted_autonomous e valid h =
      inl (e, ground (arith, e, valid))
  authorize-MayRun c ExecutionMode.approval_required e valid h = absurd (raised≢returned h)
  authorize-MayRun c ExecutionMode.autonomous_allowlist e valid h =
      let (allowed, ran, rest) = bind-returned (resolve_all host settings.command_allowlist) _ h in
      let (_, listed, placed) =
        bind-returned
          (refuse_if (not (any (same_path c.executable) allowed)) HostError.permission_error) _
          rest in
      inr (
        e,
        resolve_all-finds (same_path c.executable) settings.command_allowlist ran
            (refuse-passes _ _ listed),
        check_directory-places settings.working_directory_allowlist c.working_directory refl placed,
      )

  authorized-MayRun :
      (built : Command) {c : Command}
      → validate_privileged_mode settings ≡ none
      → authorized host settings built ≡ returned c
      → MayRun c
  unfolding authorize
  authorized-MayRun built {c} valid h =
      let (allowed, ran, same) =
        bind-returned (authorize host settings built.executable built.working_directory) _ h in
      let one : built ≡ c = cc same in
      subst MayRun one (authorize-MayRun built settings.execution_mode refl valid ran)

  command_of-MayRun :
      (argv : Option (List String)) (cwd : Option Json) {c : Command}
      → validate_privileged_mode settings ≡ none
      → command_of host settings argv cwd ≡ returned c
      → MayRun c
  command_of-MayRun none cwd valid h = absurd (raised≢returned h)
  command_of-MayRun (some []) cwd valid h = absurd (raised≢returned h)
  command_of-MayRun (some (program ∷ parameters)) cwd valid h =
      let (executable, _, after) =
        bind-returned (find_executable host (host.expanduser program)) _ h in
      let (directory, _, passed) = bind-returned (find_directory host cwd) _ after in
      authorized-MayRun
        (record { executable = executable; parameters = parameters; working_directory = directory })
        valid passed

  prepare-MayRun :
      (payload : Option Json) {c : Command}
      → validate_privileged_mode settings ≡ none
      → prepare host settings payload ≡ returned c
      → MayRun c
  prepare-MayRun none valid h = absurd (raised≢returned h)
  prepare-MayRun (some (obj payload)) valid h =
      elim (Bool-cases (is_directory (lookup "cwd" payload))) [
        | inl fits ↦ command_of-MayRun _ _ valid (rw fits at h)
        | inr other ↦ absurd (raised≢returned (rw other at h))
      ]
  prepare-MayRun (some null) valid h = absurd (raised≢returned h)
  prepare-MayRun (some (flag b)) valid h = absurd (raised≢returned h)
  prepare-MayRun (some (num n)) valid h = absurd (raised≢returned h)
  prepare-MayRun (some (text t)) valid h = absurd (raised≢returned h)
  prepare-MayRun (some (uuid n)) valid h = absurd (raised≢returned h)
  prepare-MayRun (some (instant n)) valid h = absurd (raised≢returned h)
  prepare-MayRun (some (arr items)) valid h = absurd (raised≢returned h)

  -- With settings that are accepted, an execution depends only on how the commands run that the
  -- settings permit: in unrestricted mode, which was confirmed, all commands, in allowlist mode those
  -- whose executable is on the list and whose directory, if one is given and directories are
  -- prescribed, lies below one of these.
  pub execute-permitted :
      (loads : String → Option Json) (dumps : Json → String) (encode : String → Bytes)
      (decode : Bytes → String) (path_text : FilePath → String)
      (run other_run : Command → Outcome (Option Completed)) (task : Task)
      → validate_privileged_mode settings ≡ none
      → ((c : Command) → MayRun c → run c ≡ other_run c)
      → execute host loads dumps encode decode path_text run settings task
        ≡ execute host loads dumps encode decode path_text other_run settings task
  unfolding execute
  execute-permitted loads dumps encode decode path_text run other_run task valid same =
      inspect (prepare host settings (loads task.context)) refl
    where
      inspect :
          (o : Outcome Command)
          → prepare host settings (loads task.context) ≡ o
          → run_prepared host loads dumps encode decode path_text run settings
              (loads task.context)
              o
            ≡ run_prepared host loads dumps encode decode path_text other_run settings
                (loads task.context)
                o
      inspect (returned c) e = rw (same c (prepare-MayRun (loads task.context) valid e)) refl
      inspect (raised error) e = refl
