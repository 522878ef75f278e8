-- ===== src/Archive/Confined.antt =====
-- Where the extractor may write, and which paths it finds.
use zipstash.Base.{
  ◌≡◌, refl, ap, sym, ◌∙◌, true, List, [], ◌∷◌, ◌++◌, map, append_assoc, Text, All, has_prefix,
  has_prefix-append, prefix_laws, Bool-cases, inl, inr, drop, wrap, map_err, and_then-eq-ok, Result,
  ok, err, crash,
}
use zipstash.GoStd.Strings.{join, split}
use zipstash.GoStd.CleanPath.{slash, clean, join_path}
use zipstash.GoStd.CleanPath.Plain.{IsPlain, kept}
use zipstash.GoStd.FilePath.{abs_path, rel}
use zipstash.GoStd.FilePath.Below.{root_path, HasNoParent, join_root-kept, clean_root}
use zipstash.Archive.{
  Env, Mapping, tilde, placed_below, placed, add_chroot, paths_to_mappings, map_path,
  resolve_home_dir, is_under_home,
}
use zipstash.Archive.Mappings.{add_chroot-kept, paths_to_mappings-cons}
use zipstash.Archive.Places.{home_path, home_mapping, paths_to_mappings_home, All-chroot}

-- Every name is written below the chroot that the mappings share, or is refused.
map_path-chroot :
    (home : Text) (ms : List Mapping) (name : Text) {file : Text}
    → All (λ n. n.chroot ≡ home) ms
    → map_path ms name ≡ ok file
    → file ≡ join_path (home ∷ name ∷ [])
unfolding map_path
map_path-chroot home [] name e h = cc
map_path-chroot home (m ∷ ms) name (e, es) h = elim (Bool-cases (has_prefix name m.relative_path)) [
  | inl fits ↦ let k : ok _ ≡ ok _ = rw fits at h in cc
  | inr other ↦ map_path-chroot home ms name es (rw other at h)
]

join-has_prefix :
    (init : List Text) (l y : Text) (below : List Text)
    → has_prefix (join (init ++ (l ++ y) ∷ below) slash) (join (init ++ l ∷ []) slash) ≡ true
unfolding join
join-has_prefix [] l y [] = has_prefix-append l y
join-has_prefix [] l y (b ∷ below) =
    rw (append_assoc l y (slash ∷ join (b ∷ below) slash)) (has_prefix-append l _)
join-has_prefix (i ∷ []) l y below = simp prefix_laws (join-has_prefix [] l y below)
join-has_prefix (i ∷ j ∷ init) l y below = simp prefix_laws (join-has_prefix (j ∷ init) l y below)

has_prefix-root :
    (init : List Text) (l y : Text) (below : List Text)
    → has_prefix (root_path (init ++ (l ++ y) ∷ below)) (root_path (init ++ l ∷ [])) ≡ true
has_prefix-root init l y below = simp prefix_laws (join-has_prefix init l y below)

abs_rooted : (dir : Result Text) (s : Text) → abs_path dir (slash ∷ s) ≡ ok (clean (slash ∷ s))
unfolding abs_path
abs_rooted (ok dir) s = refl
abs_rooted (err e) s = refl
abs_rooted (crash c) s = refl

-- An absolute path passes as one below the home directory if it is below it, and also if its
-- element beside the last one of the home directory only begins with that one.
pub is_under_home_beside :
    (env : Env) (init : List Text) (l y : Text) (below : List Text)
    → env.home ≡ ok (root_path (init ++ l ∷ []))
    → All IsPlain (init ++ l ∷ [])
    → All IsPlain (init ++ (l ++ y) ∷ below)
    → is_under_home env (root_path (init ++ (l ++ y) ∷ below)) ≡ ok true
unfolding is_under_home
is_under_home_beside env init l y below known h k =
    let path = init ++ (l ++ y) ∷ below in
    rw (abs_rooted env.cwd (join path slash), clean_root path k, known)
      (ap ok (
        ap (λ t. has_prefix t (clean (root_path (init ++ l ∷ [])))) (clean_root path k)
        ∙ ap (has_prefix (root_path path)) (clean_root (init ++ l ∷ []) h)
        ∙ has_prefix-root init l y below))

module _ (env : Env) (h : Text) (hs : List Text) (plain : All IsPlain (h ∷ hs))
    (known : env.home ≡ ok (root_path (h ∷ hs))) where
  -- Restoring paths that begin with "~/" and name no parent directory, the file of a name that
  -- names no parent directory is written below the home directory, by the name's own elements, or
  -- the name is refused.
  pub map_path-kept :
      (xs : List Text) (name : Text) (ms : List Mapping) {file : Text}
      → All HasNoParent xs
      → HasNoParent name
      → paths_to_mappings env (map home_path xs) ≡ ok ms
      → map_path ms name ≡ ok file
      → file ≡ root_path (h ∷ hs ++ kept (split name slash))
  map_path-kept xs name ms {file} k n computed mapped =
      let same : map (home_mapping (h ∷ hs)) xs ≡ ms =
        let e = paths_to_mappings_home env h hs plain known xs k in cc in
      let chroots : All (λ m. m.chroot ≡ root_path (h ∷ hs)) ms =
        rw same at (All-chroot (h ∷ hs) xs) in
      map_path-chroot (root_path (h ∷ hs)) ms name chroots mapped ∙ join_root-kept h hs name plain n

-- A mapping for each path, which resolves it as `resolve_home_dir` does.
unfoldable pub AreResolved : Env → List Text → List Mapping → Type 0
AreResolved env [] [] = Unit
AreResolved env (p ∷ ps) (m ∷ ms) =
    (m.path ≡ p) × (resolve_home_dir env p ≡ ok m.resolved_path) × AreResolved env ps ms
AreResolved env [] (_ ∷ _) = ⊥
AreResolved env (_ ∷ _) [] = ⊥

placed_below-resolved :
    (p dir : Text) {m : Mapping}
    → placed_below p dir ≡ ok m
    → (m.path ≡ p) × (m.resolved_path ≡ join_path (dir ∷ drop 2 p ∷ []))
unfolding placed_below
placed_below-resolved p dir {m} h =
    let (name, _, e) =
      and_then-eq-ok
        (map_err (wrap "failed to get relative path") (rel dir (join_path (dir ∷ drop 2 p ∷ [])))) _
        h in
    (cc, cc)

placed-resolve_home_dir :
    (env : Env) (p : Text) {m : Mapping}
    → placed env p ≡ ok m
    → (m.path ≡ p) × (resolve_home_dir env p ≡ ok m.resolved_path)
unfolding placed resolve_home_dir
placed-resolve_home_dir env p {m} h = elim (Bool-cases (has_prefix p tilde)) [
  | inr other ↦ rw other (let e : ok _ ≡ ok m = rw other at h in (cc, cc))
  | inl home ↦
      let (dir, found, rest) =
        and_then-eq-ok (map_err (wrap "failed to get home directory") env.home) (placed_below p)
          (rw home at h) in
      let (path, resolved) = placed_below-resolved p dir rest in
      (path, rw (home, found) (ap ok (sym resolved)))
]

-- The path that is cleaned before a restore is, for each path, the one of its mapping.
pub paths_to_mappings-AreResolved :
    (env : Env) (ps : List Text) (ms : List Mapping)
    → paths_to_mappings env ps ≡ ok ms
    → AreResolved env ps ms
unfolding paths_to_mappings AreResolved add_chroot
paths_to_mappings-AreResolved env [] [] h = tt
paths_to_mappings-AreResolved env [] (m ∷ ms) h = cc
paths_to_mappings-AreResolved env (p ∷ ps) [] h =
    let (_, _, _, _, _, _, e) = paths_to_mappings-cons env p ps h in cc
paths_to_mappings-AreResolved env (p ∷ ps) (n ∷ ns) h =
    let (m, m', ms, place, added, tail, e) = paths_to_mappings-cons env p ps h in
    let (path, resolved) = placed-resolve_home_dir env p place in
    let (kept_path, kept_resolved, _) = add_chroot-kept env m added in
    let (same, same_tail) : (m' ≡ n) × (ms ≡ ns) = (cc, cc) in
    (
      ap (λ k. k.path) (sym same) ∙ kept_path ∙ path,
      resolved ∙ ap ok (sym kept_resolved ∙ ap (λ k. k.resolved_path) same),
      paths_to_mappings-AreResolved env ps ns (tail ∙ ap ok same_tail),
    )
