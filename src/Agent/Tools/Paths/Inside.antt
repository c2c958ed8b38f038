-- ===== src/Agent/Tools/Paths/Inside.antt =====
-- Which paths the tools of the controller find.
use Prim.Native.String.{count}
use astra_agent.Base.{
  ◌≡◌, ◌≢◌, ◌↔◌, refl, true, false, Option, none, some, [], ◌∷◌, ◌++◌, String, str_eq, any, arith,
  str_eq_iff,
}
use astra_agent.Domain.Models.{Json, text}
use astra_agent.Agent.Tools.Paths.{
  FilePath, Attempt, done, raised, FileSystem, relative_workspace_path, locate, check_resolved,
  is_relative_to, starts_at_root, parts, crosses_symlink,
}

is_relative_to-append : (root path : FilePath) → is_relative_to (root ++ path) root ≡ true
unfolding is_relative_to
is_relative_to-append [] path = refl
is_relative_to-append (part ∷ root) path =
    ground (arith, is_relative_to-append root path, str_eq_iff part part)

check_resolved-inside :
    (root path : FilePath) (attempt : Attempt FilePath)
    → check_resolved root attempt ≡ done path
    → is_relative_to path root ≡ true
check_resolved-inside root path (raised error) h = cc
check_resolved-inside root path (done resolved) h = ground arith

pub relative_workspace_path-inside :
    (files : FileSystem) (root : FilePath) (value : Option Json) (path : FilePath)
    → relative_workspace_path files root value ≡ done path
    → is_relative_to path root ≡ true
unfolding relative_workspace_path locate
relative_workspace_path-inside files root none path h = cc
relative_workspace_path-inside files root (some (text value)) path h =
    ground (arith, check_resolved-inside root path (files.resolve (root ++ parts value)))
relative_workspace_path-inside files root (some _) path h = cc

-- A text that names a path below the workspace without a way out of it.
pub record IsPlain (files : FileSystem) (root : FilePath) (value : String) : Type 0 where
  pub some_text : count value ≢ 0
  pub relative : starts_at_root value ≡ false
  pub no_parent : any (λ part. str_eq part "..") (parts value) ≡ false
  pub no_symlink : crosses_symlink files.is_symlink root (parts value) ≡ false

module _ (files : FileSystem) (root : FilePath)
    (resolve_plain : (path : FilePath)
      → any (λ part. str_eq part "..") path ≡ false
      → crosses_symlink files.is_symlink root path ≡ false
      → files.resolve (root ++ path) ≡ done (root ++ path)) where
  to_plain :
      (value : String) (path : FilePath)
      → locate files root value ≡ done path
      → IsPlain files root value × (path ≡ root ++ parts value)
  unfolding locate
  to_plain value path h =
      let inside = is_relative_to-append root (parts value) in
      let c : path ≡ root ++ parts value = ground (arith, h, resolve_plain (parts value), inside) in
      (
        record {
          some_text = ground (arith, h);
          relative = ground (arith, h);
          no_parent = ground (arith, h);
          no_symlink = ground (arith, h);
        },
        c,
      )

  from_plain :
      (value : String)
      → IsPlain files root value
      → locate files root value ≡ done (root ++ parts value)
  unfolding locate
  from_plain value plain = ground (
    arith,
    plain.some_text,
    plain.relative,
    plain.no_parent,
    plain.no_symlink,
    resolve_plain (parts value),
    is_relative_to-append root (parts value),
  )

  -- Where resolving a path that crosses no symbolic link and has no ".." leaves it as it is, the
  -- path that is found is the root with the parts of the argument below it, and one is found exactly
  -- for a text that is not empty, is no absolute path, has no ".." and crosses no symbolic link.
  pub relative_workspace_path-finds :
      (value : Option Json) (path : FilePath)
      → (relative_workspace_path files root value ≡ done path) ↔ (
          (name : String) × (value ≡ some (text name))
          × IsPlain files root name
          × (path ≡ root ++ parts name))
  unfolding relative_workspace_path
  relative_workspace_path-finds none path = (λ h. cc, λ p. let (name, e, plain, same) = p in cc e)
  relative_workspace_path-finds (some (text value)) path = (
    λ h. let (plain, same) = to_plain value path h in (value, refl, plain, same),
    λ p.
        let (name, e, plain, same) = p in
        let e' : value ≡ name = cc e in rw (same, e') (from_plain name plain),
  )
  relative_workspace_path-finds (some _) path =
      (λ h. cc, λ p. let (name, e, plain, same) = p in cc e)
