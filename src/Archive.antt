-- ===== src/Archive.antt =====
-- Package archive: mappings.go, archive.go and the path mapper of extract.go. What the process asks
-- the system for is a parameter.
pub mod Mappings
pub mod Places
pub mod Confined
pub mod Climbs
pub mod Absolute
pub mod Checksum
pub mod Build
use zipstash.Base.{
  ℕ, Bool, true, false, List, [], ◌∷◌, drop, if◌then◌else◌, Text, codes, has_prefix, Result, ok,
  err, crash, wrap, message, map_err, and_then,
}
use zipstash.GoStd.CleanPath.{clean, join_path}
use zipstash.GoStd.FilePath.{is_abs, abs_path, rel}

-- os.UserHomeDir and os.Getwd
pub record Env : Type 0 where
  pub home : Result Text
  pub cwd : Result Text

pub record Mapping : Type 0 where
  pub path : Text
  pub resolved_path : Text
  pub relative_path : Text
  pub chroot : Text
  pub relative : Bool

-- `Stats`, which stays empty, is left out.
pub record ArchiveInfo : Type 0 where
  pub archive_path : Text
  pub size : ℕ
  pub sha256sum : Text

abbrev pub tilde : Text
tilde = 126 ∷ 47 ∷ []

unfoldable pub chroot_path : Env → Text → Result Text
unfolding is_abs
chroot_path env path = if is_abs path then env.home else env.cwd

unfoldable pub resolve_home_dir : Env → Text → Result Text
resolve_home_dir env path =
    if has_prefix path tilde
    then and_then (map_err (wrap "failed to get home directory") env.home)
        (λ home. ok (join_path (home ∷ drop 2 path ∷ [])))
    else ok path

-- A path that begins with "~/".
unfoldable pub placed_below : Text → Text → Result Mapping
placed_below path home =
    let resolved = join_path (home ∷ drop 2 path ∷ []) in
    and_then (map_err (wrap "failed to get relative path") (rel home resolved)) (λ relative.
      ok (record {
        path = path;
        resolved_path = resolved;
        relative_path = relative;
        chroot = [];
        relative = false;
      }))

-- The mapping of one path, before its chroot is known.
unfoldable pub placed : Env → Text → Result Mapping
placed env path =
    if has_prefix path tilde
    then and_then (map_err (wrap "failed to get home directory") env.home) (placed_below path)
    else ok (record {
      path = path;
      resolved_path = path;
      relative_path = path;
      chroot = [];
      relative = true;
    })

unfoldable pub add_chroot : Env → Mapping → Result Mapping
add_chroot env m =
    and_then (map_err (wrap "failed to get chroot path") (chroot_path env m.resolved_path))
      (λ chroot. ok (record m { chroot = chroot }))

unfoldable pub paths_to_mappings : Env → List Text → Result (List Mapping)
paths_to_mappings env [] = ok []
paths_to_mappings env (path ∷ paths) = and_then (placed env path) (λ m.
    and_then (add_chroot env m)
      (λ mapping. and_then (paths_to_mappings env paths) (λ mappings. ok (mapping ∷ mappings))))

-- Where the extractor writes the file of this name.
unfoldable pub map_path : List Mapping → Text → Result Text
map_path [] name = err (message "failed to find path mapping for the file")
map_path (m ∷ ms) name =
    let rest = map_path ms name in
    if has_prefix name m.relative_path then ok (join_path (m.chroot ∷ name ∷ [])) else rest

unfoldable pub is_under_home : Env → Text → Result Bool
is_under_home env [] = err (message "path is empty")
is_under_home env (c ∷ path) =
    and_then (map_err (wrap "failed to get absolute path") (abs_path env.cwd (c ∷ path))) (λ abs.
      and_then (map_err (wrap "failed to get home directory") env.home)
        (λ home. ok (has_prefix (clean abs) (clean home))))
