-- ===== src/Archive/Mappings.antt =====
-- What the mappings of paths are made of.
use zipstash.Base.{◌≡◌, List, ◌∷◌, Text, map_err, wrap, and_then-eq-ok, ok}
use zipstash.Archive.{Env, Mapping, chroot_path, placed, add_chroot, paths_to_mappings}

pub add_chroot-kept :
    (env : Env) (m : Mapping) {n : Mapping}
    → add_chroot env m ≡ ok n
    → (n.path ≡ m.path) × (n.resolved_path ≡ m.resolved_path) × (n.relative_path ≡ m.relative_path)
unfolding add_chroot
add_chroot-kept env m {n} h =
    let (dir, _, made) =
      and_then-eq-ok (map_err (wrap "failed to get chroot path") (chroot_path env m.resolved_path))
        _ h in
    (cc, cc, cc)

-- The mapping of the first path, and those of the rest.
pub paths_to_mappings-cons :
    (env : Env) (p : Text) (ps : List Text) {ns : List Mapping}
    → paths_to_mappings env (p ∷ ps) ≡ ok ns
    → (m n : Mapping) × (ms : List Mapping) × (placed env p ≡ ok m)
      × (add_chroot env m ≡ ok n)
      × (paths_to_mappings env ps ≡ ok ms)
      × (n ∷ ms ≡ ns)
unfolding paths_to_mappings
paths_to_mappings-cons env p ps h =
    let (m, place, rest) = and_then-eq-ok (placed env p) _ h in
    let (n, added, rest') = and_then-eq-ok (add_chroot env m) _ rest in
    let (ms, tail, e) = and_then-eq-ok (paths_to_mappings env ps) _ rest' in
    (m, n, ms, place, added, tail, cc)
