-- ===== src/Witnesses/Archive.antt =====
-- Paths below the home directory /h/u, and an archive in a world of one file.
use zipstash.Base.{
  ◌≡◌, refl, ap, sym, has_prefix, true, false, List, [], ◌∷◌, ◌++◌, map, text_eq, Text, codes, ok,
  err, on_error, reads, pure, ◌>>=◌, message, All, length, none,
}
use zipstash.GoStd.Strings.{join, split}
use zipstash.GoStd.CleanPath.{slash, dot_dot, join_path, clean, clean_step}
use zipstash.GoStd.CleanPath.Plain.{IsPlain, kept}
use zipstash.GoStd.Encoding.{hex_encode}
use zipstash.GoStd.FilePath.{is_abs, abs_path, rel}
use zipstash.GoStd.FilePath.Below.{root_path, HasNoParent}
use zipstash.Archive.{Env, Mapping, paths_to_mappings, placed, add_chroot, map_path}
use zipstash.Archive.Places.{
  home_path, map_path-rel, home_mapping, place_name, paths_to_mappings_home,
}
use zipstash.Archive.Confined.{map_path-kept}
use zipstash.Archive.Climbs.{climbing, map_path_climbs}
use zipstash.Archive.Absolute.{map_path_absolute}
use zipstash.Archive.{ArchiveInfo, chroot_path, is_under_home}
use zipstash.Archive.Checksum.{Files, exists, write, sum, new_checksum, after_write}
use zipstash.Archive.Build.{
  Quickzip, put, done, resume, run_output, walk, add_files, add_existing, add_mappings, finished,
  fill, with_checksum, build_archive,
}
use zipstash.Archive.Build.Sums.{IsReliable, build_archive-IsSummed}
use zipstash.Witnesses.World.{no_byte}
use zipstash.Witnesses.Texts.{text_ne, IsPlain-if}

abbrev pub env : Env
env = record { home = ok (root_path (codes "h" ∷ codes "u" ∷ [])); cwd = ok (codes "/w") }

plain :
    (s : Text)
    → no_byte slash s ≡ true
    → text_eq s [] ≡ false
    → text_eq s (46 ∷ []) ≡ false
    → text_eq s dot_dot ≡ false
    → IsPlain s
plain s a b c d = IsPlain-if s a b c d

pub home-IsPlain : All IsPlain (codes "h" ∷ codes "u" ∷ [])
unfolding codes no_byte text_eq
home-IsPlain = (plain (codes "h") refl refl refl refl, (plain (codes "u") refl refl refl refl, tt))

file-IsPlain : All IsPlain (codes "c" ∷ codes "d" ∷ codes "f" ∷ [])
unfolding codes no_byte text_eq
file-IsPlain = (
  plain (codes "c") refl refl refl refl,
  (plain (codes "d") refl refl refl refl, (plain (codes "f") refl refl refl refl, tt)),
)

pub no_parents : All HasNoParent (codes "c/d/" ∷ codes "e" ∷ [])
unfolding codes split text_eq
no_parents = (
  (
    text_ne (codes "c") dot_dot refl,
    (text_ne (codes "d") dot_dot refl, (text_ne [] dot_dot refl, tt)),
  ),
  ((text_ne (codes "e") dot_dot refl, tt), tt),
)

kept_parts : kept (split (codes "c/d/") slash) ≡ codes "c" ∷ codes "d" ∷ []
unfolding codes split text_eq kept
kept_parts = refl

map_path-rel_example :
    let file = root_path (codes "h" ∷ codes "u" ∷ codes "c" ∷ codes "d" ∷ codes "f" ∷ []) in
    (ms : List Mapping) × (name : Text) × (paths_to_mappings env
        (map home_path (codes "c/d/" ∷ codes "e" ∷ []))
      ≡ ok ms)
    × (rel (root_path (codes "h" ∷ codes "u" ∷ [])) file ≡ ok name)
    × (map_path ms name ≡ ok file)
map_path-rel_example =
    map_path-rel env (codes "h") (codes "u" ∷ []) home-IsPlain refl [] (codes "c/d/")
      (codes "e" ∷ []) (codes "c") (codes "d" ∷ []) (codes "f" ∷ []) no_parents kept_parts
      file-IsPlain

abbrev pub mappings : List Mapping
mappings = map (home_mapping (codes "h" ∷ codes "u" ∷ [])) (codes "c/d/" ∷ codes "e" ∷ [])

name_no_parent : HasNoParent (codes "c/d/./f")
unfolding codes split text_eq
name_no_parent = (
  text_ne (codes "c") dot_dot refl,
  (
    text_ne (codes "d") dot_dot refl,
    (text_ne (codes ".") dot_dot refl, (text_ne (codes "f") dot_dot refl, tt)),
  ),
)

name_mapped : map_path mappings (codes "c/d/./f") ≡ ok (codes "/h/u/c/d/f")
unfolding codes split text_eq kept map_path place_name join has_prefix join_path clean clean_step
name_mapped = refl

map_path-kept_example :
    codes "/h/u/c/d/f" ≡ root_path (codes "h" ∷ codes "u" ∷ kept (split (codes "c/d/./f") slash))
map_path-kept_example =
    map_path-kept env (codes "h") (codes "u" ∷ []) home-IsPlain refl (codes "c/d/" ∷ codes "e" ∷ [])
      (codes "c/d/./f") mappings no_parents name_no_parent
      (paths_to_mappings_home env (codes "h") (codes "u" ∷ []) home-IsPlain refl
        (codes "c/d/" ∷ codes "e" ∷ []) no_parents)
      name_mapped

map_path_climbs_example :
    (ms : List Mapping) × (paths_to_mappings env (home_path (codes "c") ∷ []) ≡ ok ms)
    × (map_path ms (climbing (codes "c") (codes "d")) ≡ ok (root_path (codes "h" ∷ codes "d" ∷ [])))
map_path_climbs_example =
    map_path_climbs env (codes "h") [] (codes "u") (codes "c") (codes "d") refl home-IsPlain
      file-IsPlain.0 file-IsPlain.1.0

abbrev absolute_mapping : Mapping
absolute_mapping = record {
  path = codes "/opt/x";
  resolved_path = codes "/opt/x";
  relative_path = codes "/opt/x";
  chroot = root_path (codes "h" ∷ codes "u" ∷ []);
  relative = true;
}

absolute_mapped : paths_to_mappings env (codes "/opt/x" ∷ []) ≡ ok (absolute_mapping ∷ [])
unfolding paths_to_mappings placed add_chroot chroot_path has_prefix codes
absolute_mapped = refl

rooted : is_abs (codes "/opt/x") ≡ true
unfolding is_abs codes
rooted = refl

relative_name : is_abs (codes "opt/x/f") ≡ false
unfolding is_abs codes
relative_name = refl

map_path_absolute_example :
    map_path (absolute_mapping ∷ []) (codes "opt/x/f")
    ≡ err (message "failed to find path mapping for the file")
map_path_absolute_example =
    map_path_absolute env (codes "/opt/x" ∷ []) (absolute_mapping ∷ []) (codes "opt/x/f")
      (rooted, tt) relative_name absolute_mapped

-- One file, which is the world.
abbrev files : Files
files = record {
  World = Text;
  content = λ _ w. w;
  create_temp = λ _ _. (ok (codes "/tmp/a.zip"), []);
  write = λ _ p w. (ok (length p), w ++ p);
  stat = λ _ _. exists;
  stat_size = λ _ w. ok (length w);
  visits = λ path _. record { filename = path; failure = none } ∷ [];
  sha256 = λ s. s;
}

-- One byte for each file, and one at the end.
abbrev zipper : Quickzip files
zipper = record {
  Archiver = Unit {0};
  new_archiver = ok tt;
  archive = λ _ _ vs _. put (map (λ _. 80) vs) (λ _. done (ok tt)) (λ e. done (err e));
  close = λ _ _. put (90 ∷ []) (λ _. done (ok tt)) (λ e. done (err e));
}

zipper-IsReliable : IsReliable files zipper
zipper-IsReliable = record {
  creates = λ _ _ _ w' h. let e : [] ≡ w' = ap (λ p. p.1) h in sym e;
  appends = λ _ p _ w w' h. let e : w ++ p ≡ w' = ap (λ x. x.1) h in sym e;
  sizes = λ _ n w h. let e : ok (length w) ≡ ok n = h in cc;
  archive_heeds = λ _ _ _ _. (λ _. tt, λ _. tt);
  close_heeds = λ _ _. (λ _. tt, λ _. tt);
}

abbrev info : ArchiveInfo
info = record { archive_path = codes "/tmp/a.zip"; size = 2; sha256sum = codes "505a" }

built : build_archive files env zipper (codes "src" ∷ []) (codes "k1") [] ≡ (ok info, 80 ∷ 90 ∷ [])
unfolding build_archive ◌>>=◌ on_error reads pure paths_to_mappings placed has_prefix codes
    add_chroot chroot_path with_checksum fill add_mappings add_existing add_files is_under_home
    abs_path walk finished resume run_output after_write new_checksum sum write is_abs join_path
    clean clean_step hex_encode join split
built = refl

abbrev written : Text
written = 80 ∷ 90 ∷ []

build_archive-IsSummed_example : (2 ≡ length written) × (codes "505a" ≡ hex_encode written)
build_archive-IsSummed_example =
    build_archive-IsSummed files zipper zipper-IsReliable env (codes "src" ∷ []) (codes "k1") []
      built
