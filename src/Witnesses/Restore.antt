-- ===== src/Witnesses/Restore.antt =====
-- A restore of a large file in three parts, of which the second arrives first.
use mathlib.Core.List.Permᴰ.{swap}
use zipstash.Base.{
  ℕ, ◌≡◌, refl, ap, sym, true, false, [], ◌∷◌, ◌++◌, Text, codes, text_eq, has_prefix, length, ok,
  on_error, reads, pure, ◌>>=◌, sort_by, insert_by, slt64, List, All, Result, two_64, ◌+◌, ◌%◌, map,
}
use zipstash.Api
use zipstash.Archive.{
  Mapping, paths_to_mappings, placed, placed_below, add_chroot, chroot_path, resolve_home_dir,
}
use zipstash.GoStd.CleanPath.{join_path, clean, clean_step, dot_dot}
use zipstash.GoStd.FilePath.{is_abs, rel, rel_words, base_words, words_of}
use zipstash.GoStd.Strings.{join, split, add_to_head}
use zipstash.GoStd.Words.{is_space}
use zipstash.Client.Convert.{check_path, fields}
use zipstash.Client.Restore.{sort_downloads}
use zipstash.Client.RestoreCmd.{
  RestoreCmd, RestoreServices, append_to_file_and_remove, append_parts, combine_files, clean_path,
  clean_paths, clean_if_asked, extract_files, restore_entry, after_get, restore,
}
use zipstash.Client.Combined.{IsSteady, combined}
use zipstash.Client.Restored.{IsFetched, IsRestored, restore-IsRestored, fetched_whole}
use zipstash.Witnesses.World.{platform, entry}
use zipstash.Witnesses.Pool.{
  bytes, is_size, is_large, ranges_computed, first_range, second_range, last_range, part_file,
}
use zipstash.GoStd.FilePath.Below.{HasNoParent}
use zipstash.Witnesses.Texts.{text_ne}
use zipstash.Witnesses.Archive.{env, home-IsPlain}
use zipstash.Archive.Places.{home_mapping, paths_to_mappings_home}
use zipstash.Transfer.Download.{DownloadedFile}

-- The world is the text of the joined file.
abbrev services : RestoreServices
services = record {
  World = Text;
  Zip = Text;
  platform = platform;
  env = env;
  content = λ _ w. w;
  get_token = λ source audience w. (ok (codes "tok"), w);
  get_entry = λ header req w. (
    ok (record {
      cache_entry = entry;
      download_instructions = [];
      multipart = true;
      fallback = false;
    }),
    w,
  );
  download = λ is limit w.
      (ok (part_file second_range ∷ part_file first_range ∷ part_file last_range ∷ []), w);
  create_temp = λ w. (ok (codes "/tmp/z"), []);
  open_part = λ d w. (ok tt, w);
  copy_part = λ zip d w. (ok (length d.content), w ++ d.content);
  remove_part = λ d w. w;
  walk_dir = λ dir f w. (ok tt, w);
  chmod = λ path mode w. (ok tt, w);
  remove_all = λ dir w. (ok tt, w);
  new_extractor = λ zip len w. (ok w, w);
  extract_with_path_mapper = λ zip f w. (ok tt, w);
  remove = λ zip w. [];
}

services-IsSteady : IsSteady services
services-IsSteady = record {
  creates = λ _ _ w' h. let e : [] ≡ w' = ap (λ p. p.1) h in sym e;
  opens = λ _ _ _. refl;
  copies = λ _ d n w w' h.
      let e : w ++ d.content ≡ w' = ap (λ p. p.1) h in
      let k : ok (length d.content) ≡ ok n = ap (λ p. p.0) h in (sym e, cc);
  removes = λ _ _ _. refl;
  chmods = λ _ _ _ _. refl;
  walks = λ _ _ _ _ _. refl;
  removes_all = λ _ _ _. refl;
}

abbrev command : RestoreCmd
command = record {
  key = codes "k1";
  fallback_branch = codes "main";
  path = codes "~/c ~/e";
  token_source = codes "local";
  branch = codes "main";
  name = codes "app";
  owner = codes "octo";
  clean = true;
}

restored : restore services command [] ≡ (ok true, [])
unfolding restore after_get restore_entry ◌>>=◌ on_error reads pure combine_files append_parts
    append_to_file_and_remove clean_if_asked clean_paths clean_path extract_files check_path fields
    is_space paths_to_mappings placed placed_below add_chroot chroot_path resolve_home_dir codes
    has_prefix join_path clean clean_step is_abs rel rel_words base_words words_of join split
    text_eq sort_downloads sort_by insert_by slt64
restored = refl

restore-IsRestored_example : IsRestored services services-IsSteady command true [] []
restore-IsRestored_example = restore-IsRestored services services-IsSteady command [] restored

abbrev answer : Api.GetEntryResponse
answer = record {
  cache_entry = entry;
  download_instructions = [];
  multipart = true;
  fallback = false;
}

abbrev arrived : List DownloadedFile
arrived = part_file second_range ∷ part_file first_range ∷ part_file last_range ∷ []

abbrev run_combine : Result (Text × ℕ) × Text
run_combine = combine_files services (sort_downloads arrived) []

abbrev total : ℕ
total =
    (((0 + length (part_file first_range).content) % two_64
          + length (part_file second_range).content)
        % two_64
      + length (part_file last_range).content)
    % two_64

combine_ran :
    combine_files services (sort_downloads arrived) [] ≡ (ok (codes "/tmp/z", total), run_combine.1)
unfolding ◌>>=◌ on_error reads pure combine_files append_parts append_to_file_and_remove
    sort_downloads sort_by insert_by slt64
combine_ran = refl

abbrev places : List Mapping
places = map (home_mapping (codes "h" ∷ codes "u" ∷ [])) (codes "c" ∷ codes "e" ∷ [])

c_and_e : All HasNoParent (codes "c" ∷ codes "e" ∷ [])
unfolding codes split text_eq
c_and_e = ((text_ne (codes "c") dot_dot refl, tt), ((text_ne (codes "e") dot_dot refl, tt), tt))

paths_found : paths_to_mappings env (codes "~/c" ∷ codes "~/e" ∷ []) ≡ ok places
unfolding codes
paths_found =
    paths_to_mappings_home env (codes "h") (codes "u" ∷ []) home-IsPlain refl
      (codes "c" ∷ codes "e" ∷ []) c_and_e

fetched : IsFetched services services-IsSteady command answer true [] []
unfolding ◌>>=◌ on_error reads pure combine_files append_parts append_to_file_and_remove
    sort_downloads sort_by insert_by slt64 clean_if_asked clean_paths clean_path check_path fields
    is_space codes resolve_home_dir has_prefix add_to_head
fetched =
    let (joined, count) =
      combined services services-IsSteady (sort_downloads arrived) (codes "/tmp/z") total []
        combine_ran in
    record {
      downloads = arrived;
      zip = codes "/tmp/z";
      len = total;
      paths = codes "~/c" ∷ codes "~/e" ∷ [];
      mappings = places;
      extractor = run_combine.1;
      downloaded_world = [];
      combined_world = run_combine.1;
      cleaned_world = run_combine.1;
      opened_world = run_combine.1;
      extracted_world = run_combine.1;
      fetches = refl;
      combines = combine_ran;
      splits = refl;
      cleans = refl;
      holds = joined;
      counts = count;
      opens = refl;
      maps = paths_found;
      extracts = refl;
      removes = refl;
      tells = refl;
    }

fetched_whole_example :
    (services.content fetched.zip fetched.cleaned_world ≡ bytes 25000000)
    × (fetched.len ≡ length (bytes 25000000))
unfolding fetched
fetched_whole_example =
    fetched_whole services services-IsSteady (bytes 25000000)
      (first_range ∷ second_range ∷ last_range ∷ [])
      (part_file first_range ∷ part_file second_range ∷ part_file last_range ∷ []) command answer
      true [] [] is_size is_large ranges_computed (refl, refl, (refl, refl, (refl, refl, tt)))
      fetched ∣ swap refl refl ∣₁
