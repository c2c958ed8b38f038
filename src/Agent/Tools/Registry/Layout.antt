-- ===== src/Agent/Tools/Registry/Layout.antt =====
-- Settings.validate_workspace_layout of apps/astra-agent-api/src/astra_agent/settings.py, and the
-- paths that it keeps apart.
use astra_agent.Base.{
  ℕ, ◌≡◌, ◌≢◌, refl, Bool, true, false, ◌&&◌, ◌||◌, not, Option, none, some, is_none, List, [], ◌∷◌,
  String, str_eq, str_eq_iff, if◌then◌else◌, arith,
}
use astra_agent.Base.Dict.{Dict, get, values}
use astra_agent.Domain.Models.{Uuid}
use astra_agent.Agent.Tools.Paths.{
  FilePath, done, is_relative_to, FileSystem, relative_workspace_path,
}
use astra_agent.Agent.Tools.Paths.Inside.{relative_workspace_path-inside}
use astra_agent.Domain.Models.{Json}
use astra_agent.Agent.Tools.Registry.{TenantWorkspace}

-- `path == other`
unfoldable pub same_path : FilePath → FilePath → Bool
same_path [] [] = true
same_path (part ∷ path) (other ∷ others) = str_eq part other && same_path path others
same_path _ _ = false

-- The inner loop, which compares one root with the later ones.
unfoldable pub check_against : TenantWorkspace → List TenantWorkspace → Option String
check_against workspace [] = none
check_against workspace (other ∷ others) =
    let rest = check_against workspace others in
    if same_path workspace.root other.root
    then some "workspace roots must be unique"
    else if is_relative_to workspace.root other.root || is_relative_to other.root workspace.root
    then some "workspace roots must not be nested"
    else rest

unfoldable pub check_roots : List TenantWorkspace → Option String
check_roots [] = none
check_roots (workspace ∷ others) =
    let rest = check_roots others in
    elim (check_against workspace others) [ none ↦ rest | some error ↦ some error ]

-- The error that is raised, if one is: first over the roots, then over the sandbox.
unfoldable pub validate_workspace_layout :
    Dict TenantWorkspace → Option String → Option String → Option String
validate_workspace_layout tenant_workspaces sandbox_executable sandbox_image =
    elim (check_roots (values tenant_workspaces)) [
      | some error ↦ some error
      | none ↦
          if is_none sandbox_executable && is_none sandbox_image
            || not (is_none sandbox_executable) && not (is_none sandbox_image)
          then none
          else some "sandbox executable and image must be configured together"
    ]

abbrev are_nested : FilePath → FilePath → Bool
are_nested a b = is_relative_to a b || is_relative_to b a

shared_nested :
    (path a b : FilePath)
    → is_relative_to path a ≡ true
    → is_relative_to path b ≡ true
    → are_nested a b ≡ true
unfolding is_relative_to
shared_nested path [] [] h k = refl
shared_nested path [] (y ∷ b) h k = refl
shared_nested path (x ∷ a) [] h k = refl
shared_nested [] (x ∷ a) (y ∷ b) h k = cc
shared_nested (c ∷ path) (x ∷ a) (y ∷ b) h k =
    ground (
      arith,
      shared_nested path a b,
      str_eq_iff c x,
      str_eq_iff c y,
      str_eq_iff x y,
      str_eq_iff y x,
    )

check_against-separates :
    (d : Dict TenantWorkspace) (w o : TenantWorkspace) (k : ℕ)
    → check_against w (values d) ≡ none
    → get d k ≡ some o
    → are_nested w.root o.root ≡ false
unfolding check_against get values
check_against-separates [] w o k h e = cc
check_against-separates ((j, v) ∷ d) w o k h e = ground (arith, check_against-separates d w o k)

check_roots-separates :
    (d : Dict TenantWorkspace) (i j : ℕ) (a b : TenantWorkspace)
    → check_roots (values d) ≡ none
    → get d i ≡ some a
    → get d j ≡ some b
    → i ≢ j
    → are_nested a.root b.root ≡ false
unfolding check_roots get values
check_roots-separates [] i j a b h e f n = cc
check_roots-separates ((k, v) ∷ d) i j a b h e f n = ground (
  arith,
  check_roots-separates d i j a b,
  check_against-separates d v b j,
  check_against-separates d v a i,
)

-- With settings whose layout is accepted, a path that a tool finds for one tenant does not lie in
-- the workspace of another.
pub validate_workspace_layout-separates :
    (files : FileSystem) (tenant_workspaces : Dict TenantWorkspace)
    (executable image : Option String) (i j : Uuid) (a b : TenantWorkspace) (value : Option Json)
    (path : FilePath)
    → validate_workspace_layout tenant_workspaces executable image ≡ none
    → get tenant_workspaces i ≡ some a
    → get tenant_workspaces j ≡ some b
    → i ≢ j
    → relative_workspace_path files a.root value ≡ done path
    → is_relative_to path b.root ≡ false
unfolding validate_workspace_layout
validate_workspace_layout-separates files d executable image i j a b value path accepted e f n
      found =
    ground (
      arith,
      accepted,
      check_roots-separates d i j a b,
      shared_nested path a.root b.root,
      relative_workspace_path-inside files a.root value path found,
    )
