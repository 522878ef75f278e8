-- ===== src/Archive/Climbs.antt =====
-- What the path mapper of extract.go does with names that climb out of the chroot.
use zipstash.Base.{
  ◌≡◌, refl, ap, ◌∙◌, List, [], ◌∷◌, ◌++◌, Text, All, has_prefix, true, ok, Lacks, arith,
}
use zipstash.GoStd.Strings.{join, split, split-join}
use zipstash.GoStd.CleanPath.{slash, dot_dot, resolve, rev_onto}
use zipstash.GoStd.CleanPath.Plain.{
  resolve-plain, IsPlain, kept, resolve_cons-plain, resolve_cons-dot_dot, rev_onto-rev_onto,
}
use zipstash.GoStd.FilePath.Below.{
  root_path, HasNoParent, join_root-resolve, HasNoParent-join, kept-join-plain, has_prefix-join,
}
use zipstash.Archive.{Env, Mapping, paths_to_mappings, map_path}
use zipstash.Archive.Places.{home_path, home_mapping, place_name, paths_to_mappings_home}

rev_onto-append : (xs ys out : List Text) → rev_onto (xs ++ ys) out ≡ rev_onto ys (rev_onto xs out)
unfolding rev_onto
rev_onto-append [] ys out = refl
rev_onto-append (x ∷ xs) ys out = rev_onto-append xs ys (x ∷ out)

abbrev pub climbing : Text → Text → Text
climbing q x = join (q ∷ dot_dot ∷ dot_dot ∷ x ∷ []) slash

split-climbing :
    (q x : Text)
    → IsPlain q
    → IsPlain x
    → split (climbing q x) slash ≡ q ∷ dot_dot ∷ dot_dot ∷ x ∷ []
split-climbing q x hq hx =
    let dots : Lacks slash dot_dot = omega arith in
    split-join q (dot_dot ∷ dot_dot ∷ x ∷ []) slash (hq.no_slash, (dots, (dots, (hx.no_slash, tt))))

-- The elements that are left: the last one of the directory is gone.
resolve_climbing :
    (ds : List Text) (l q x : Text)
    → IsPlain l
    → IsPlain q
    → IsPlain x
    → rev_onto (resolve true (rev_onto (ds ++ l ∷ []) []) (q ∷ dot_dot ∷ dot_dot ∷ x ∷ [])) []
      ≡ ds ++ x ∷ []
unfolding rev_onto
resolve_climbing ds l q x hl hq hx =
    let out = rev_onto ds [] in
    let up : List Text = dot_dot ∷ x ∷ [] in
    ap (λ t. rev_onto (resolve true t (q ∷ dot_dot ∷ up)) []) (rev_onto-append ds (l ∷ []) [])
    ∙ ap (λ t. rev_onto t [])
        (resolve_cons-plain true q (dot_dot ∷ up) (l ∷ out) hq
          ∙ resolve_cons-dot_dot true q up (l ∷ out) hq
          ∙ resolve_cons-dot_dot true l (x ∷ []) out hl
          ∙ resolve-plain true (x ∷ []) out (hx, tt))
    ∙ rev_onto-rev_onto ds [] (x ∷ [])

last-IsPlain : (ps : List Text) (l : Text) → All IsPlain (ps ++ l ∷ []) → IsPlain l
last-IsPlain [] l h = h.0
last-IsPlain (p ∷ ps) l (_, h) = last-IsPlain ps l h

-- The mapper does not refuse a name that climbs out: below "~/q", the name "q/../../x" is written
-- beside the home directory.
pub map_path_climbs :
    (env : Env) (h : Text) (hs : List Text) (l q x : Text)
    → env.home ≡ ok (root_path (h ∷ hs ++ l ∷ []))
    → All IsPlain (h ∷ hs ++ l ∷ [])
    → IsPlain q
    → IsPlain x
    → (ms : List Mapping) × (paths_to_mappings env (home_path q ∷ []) ≡ ok ms)
      × (map_path ms (join (q ∷ dot_dot ∷ dot_dot ∷ x ∷ []) slash)
          ≡ ok (root_path (h ∷ hs ++ x ∷ [])))
unfolding map_path join place_name
map_path_climbs env h hs l q x known k hq hx =
    let home = h ∷ hs ++ l ∷ [] in
    let mapping = home_mapping home q in
    let below : HasNoParent q = HasNoParent-join q [] (hq, tt) in
    let name : kept (split q slash) ≡ q ∷ [] = kept-join-plain q [] (hq, tt) in
    let fits : has_prefix (climbing q x) mapping.relative_path ≡ true =
      rw name (has_prefix-join q [] (dot_dot ∷ dot_dot ∷ x ∷ [])) in
    (
      mapping ∷ [],
      paths_to_mappings_home env h (hs ++ l ∷ []) k known (q ∷ []) (below, tt),
      rw fits (
          ap ok (
            join_root-resolve h (hs ++ l ∷ []) (climbing q x) k
            ∙ ap (λ t. root_path (rev_onto (resolve true (rev_onto home []) t) []))
                (split-climbing q x hq hx)
            ∙ ap root_path (resolve_climbing (h ∷ hs) l q x (last-IsPlain (h ∷ hs) l k) hq hx))),
    )
