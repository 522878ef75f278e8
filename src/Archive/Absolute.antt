-- ===== src/Archive/Absolute.antt =====
-- What becomes of an absolute path.
use zipstash.Base.{
  ◌≡◌, refl, ap, sym, ◌∙◌, true, false, List, [], ◌∷◌, Text, All, has_prefix, arith, ok, err,
  message,
}
use zipstash.GoStd.FilePath.{is_abs}
use zipstash.Archive.Mappings.{add_chroot-kept, paths_to_mappings-cons}
use zipstash.Archive.{Env, Mapping, tilde, placed, paths_to_mappings, map_path}

tilde_absolute : (p : Text) → is_abs p ≡ true → has_prefix p tilde ≡ false
unfolding is_abs has_prefix
tilde_absolute [] a = cc
tilde_absolute (c ∷ p) a = ground arith

placed_absolute :
    (env : Env) (p : Text) {m : Mapping}
    → is_abs p ≡ true
    → placed env p ≡ ok m
    → is_abs m.relative_path ≡ true
unfolding placed
placed_absolute env p {m} a h =
    let e : ok _ ≡ ok m = rw (tilde_absolute p a) at h in
    let same : p ≡ m.relative_path = cc in ap is_abs (sym same) ∙ a

absolute_mappings :
    (env : Env) (paths : List Text) (ms : List Mapping)
    → All (λ p. is_abs p ≡ true) paths
    → paths_to_mappings env paths ≡ ok ms
    → All (λ m. is_abs m.relative_path ≡ true) ms
unfolding paths_to_mappings
absolute_mappings env [] [] a h = tt
absolute_mappings env [] (m ∷ ms) a h = cc
absolute_mappings env (p ∷ ps) [] a h = tt
absolute_mappings env (p ∷ ps) (n ∷ ns) (a, rest) h =
    let (m, m', ms, place, added, tail, e) = paths_to_mappings-cons env p ps h in
    let (_, _, kept) = add_chroot-kept env m added in
    let (same, same_tail) : (m' ≡ n) × (ms ≡ ns) = (cc, cc) in
    (
      ap (λ k. is_abs k.relative_path) (sym same) ∙ ap is_abs kept ∙ placed_absolute env p a place,
      absolute_mappings env ps ns rest (tail ∙ ap ok same_tail),
    )

has_prefix_absolute :
    (name p : Text) → is_abs name ≡ false → is_abs p ≡ true → has_prefix name p ≡ false
unfolding is_abs has_prefix
has_prefix_absolute [] [] n a = cc
has_prefix_absolute [] (c ∷ p) n a = refl
has_prefix_absolute (d ∷ name) [] n a = cc
has_prefix_absolute (d ∷ name) (c ∷ p) n a = ground arith

map_path_refuses :
    (ms : List Mapping) (name : Text)
    → is_abs name ≡ false
    → All (λ m. is_abs m.relative_path ≡ true) ms
    → map_path ms name ≡ err (message "failed to find path mapping for the file")
unfolding map_path
map_path_refuses [] name n a = refl
map_path_refuses (m ∷ ms) name n (a, rest) =
    rw (has_prefix_absolute name m.relative_path n a) (map_path_refuses ms name n rest)

-- No file of an archive is restored by absolute paths: the name of a file is relative, and the
-- mapper refuses it.
pub map_path_absolute :
    (env : Env) (paths : List Text) (ms : List Mapping) (name : Text)
    → All (λ p. is_abs p ≡ true) paths
    → is_abs name ≡ false
    → paths_to_mappings env paths ≡ ok ms
    → map_path ms name ≡ err (message "failed to find path mapping for the file")
map_path_absolute env paths ms name a n h =
    map_path_refuses ms name n (absolute_mappings env paths ms a h)
