-- ===== src/Archive/Places.antt =====
-- Files below the home directory come back to where they were archived.
use zipstash.Base.{
  arith, has_prefix-append, append-nil, ◌≡◌, refl, ap, ◌∙◌, true, false, List, [], ◌∷◌, ◌++◌, map,
  Text, All, has_prefix, ok,
}
use zipstash.GoStd.Strings.{join, split}
use zipstash.GoStd.CleanPath.{slash, one_dot, join_path}
use zipstash.GoStd.CleanPath.Plain.{IsPlain, kept}
use zipstash.GoStd.FilePath.{rel}
use mathlib.Core.List.{map-append}
use zipstash.GoStd.FilePath.Below.{
  rel_self, HasNoParent-join, kept-join-plain, has_prefix-join, root_path, HasNoParent,
  join_root-kept, kept-split-IsPlain, rel_root,
}
use zipstash.Archive.{
  Env, Mapping, tilde, chroot_path, placed_below, placed, add_chroot, paths_to_mappings, map_path,
}

abbrev pub home_path : Text → Text
home_path x = tilde ++ x

-- The first mapping that fits decides, and all have the same chroot.
map_path_fits :
    (home : Text) (before : List Mapping) (m : Mapping) (after : List Mapping) (name : Text)
    → All (λ n. n.chroot ≡ home) (before ++ m ∷ after)
    → has_prefix name m.relative_path ≡ true
    → map_path (before ++ m ∷ after) name ≡ ok (join_path (home ∷ name ∷ []))
unfolding map_path
map_path_fits home [] m after name (e, _) h = rw (h, e) refl
map_path_fits home (n ∷ before) m after name (e, es) h =
    ground (arith, map_path_fits home before m after name es h, e)

-- `Rel` of a path to itself is ".".
unfoldable pub place_name : List Text → Text
place_name [] = one_dot
place_name (q ∷ qs) = join (q ∷ qs) slash

module _ (h : Text) (hs : List Text) (plain : All IsPlain (h ∷ hs)) where
  rel_home :
      (ks : List Text)
      → All IsPlain ks
      → rel (root_path (h ∷ hs)) (root_path (h ∷ hs ++ ks)) ≡ ok (place_name ks)
  unfolding place_name
  rel_home [] k = rw (append-nil hs) (rel_self (root_path (h ∷ hs)))
  rel_home (q ∷ qs) k = rel_root h hs q qs plain k

abbrev pub home_mapping : List Text → Text → Mapping
home_mapping hs x = record {
  path = home_path x;
  resolved_path = root_path (hs ++ kept (split x slash));
  relative_path = place_name (kept (split x slash));
  chroot = root_path hs;
  relative = false;
}

pub All-chroot : (hs xs : List Text) → All (λ n. n.chroot ≡ root_path hs) (map (home_mapping hs) xs)
All-chroot hs [] = tt
All-chroot hs (x ∷ xs) = (refl, All-chroot hs xs)

module _ (env : Env) (h : Text) (hs : List Text) (plain : All IsPlain (h ∷ hs))
    (known : env.home ≡ ok (root_path (h ∷ hs))) where
  placed_home :
      (x : Text)
      → HasNoParent x
      → placed env (home_path x) ≡ ok (record (home_mapping (h ∷ hs) x) { chroot = [] })
  unfolding placed placed_below
  placed_home x k =
      rw
        (
          has_prefix-append tilde x,
          known,
          join_root-kept h hs x plain k,
          rel_home h hs plain (kept (split x slash)) (kept-split-IsPlain x k),
        )
        refl

  add_chroot_home :
      (x : Text)
      → add_chroot env (record (home_mapping (h ∷ hs) x) { chroot = [] })
        ≡ ok (home_mapping (h ∷ hs) x)
  unfolding add_chroot chroot_path
  add_chroot_home x = rw known refl

  pub paths_to_mappings_home :
      (xs : List Text)
      → All HasNoParent xs
      → paths_to_mappings env (map home_path xs) ≡ ok (map (home_mapping (h ∷ hs)) xs)
  unfolding paths_to_mappings
  paths_to_mappings_home [] k = refl
  paths_to_mappings_home (x ∷ xs) (kx, k) =
      rw (placed_home x kx, add_chroot_home x, paths_to_mappings_home xs k) refl

  -- A file below a path that begins with "~/", names no parent directory and has an element besides
  -- empty ones and "." (it is not the home directory itself) is restored to where it was archived: the
  -- mappings of the paths are found, and they map the name of the file relative to the home directory
  -- back to the file, if all the paths begin with "~/" and name no parent directory.
  pub map_path-rel :
      (before : List Text) (x : Text) (after : List Text) (q : Text) (qs below : List Text)
      → All HasNoParent (before ++ x ∷ after)
      → kept (split x slash) ≡ q ∷ qs
      → All IsPlain (q ∷ qs ++ below)
      → let file = root_path (h ∷ hs ++ (q ∷ qs ++ below)) in
        (ms : List Mapping) × (name : Text) × (paths_to_mappings env
            (map home_path (before ++ x ∷ after))
          ≡ ok ms)
        × (rel (root_path (h ∷ hs)) file ≡ ok name)
        × (map_path ms name ≡ ok file)
  unfolding place_name
  map_path-rel before x after q qs below k kx b =
      let file = q ∷ qs ++ below in
      let name = join file slash in
      let fits : has_prefix name (home_mapping (h ∷ hs) x).relative_path ≡ true =
        rw kx (has_prefix-join q qs below) in
      let mapping = home_mapping (h ∷ hs) in
      let cut : map mapping (before ++ x ∷ after) ≡ map mapping before ++ map mapping (x ∷ after) =
        map-append mapping before (x ∷ after) in
      let found =
        map_path_fits (root_path (h ∷ hs)) (map mapping before) (mapping x) (map mapping after) name
          (rw cut at (All-chroot (h ∷ hs) (before ++ x ∷ after))) fits in
      (
        map (home_mapping (h ∷ hs)) (before ++ x ∷ after),
        name,
        paths_to_mappings_home (before ++ x ∷ after) k,
        rel_root h hs q (qs ++ below) plain b,
        ap (λ ms. map_path ms name) cut
            ∙ found
            ∙ ap ok (
                join_root-kept h hs name plain (HasNoParent-join q (qs ++ below) b)
                ∙ ap (λ t. root_path (h ∷ hs ++ t)) (kept-join-plain q (qs ++ below) b)),
      )
