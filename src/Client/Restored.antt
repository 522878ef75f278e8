-- ===== src/Client/Restored.antt =====
-- What a restore that returned without an error has done.
use mathlib.Core.List.{Perm}
use zipstash.Base.{
  ℕ, ◌≤◌, ◌%◌, ◌≡◌, ◌⊎◌, inl, inr, refl, ap, sym, ◌∙◌, Bool, true, false, not, List, Text, length,
  arith, some, Result, ok, err, crash, Err, Bool-cases, run_call, run_lookup, run_bind, two_64,
  on_error-eq-ok,
}
use zipstash.Api
use zipstash.Archive.{Mapping, paths_to_mappings, map_path}
use zipstash.CiAuth.Bearer.{bearer_header}
use zipstash.Offsets
use zipstash.Offsets.{calculate_offsets, min_part_size}
use zipstash.Presigner.Plan.{IsFileSize}
use zipstash.Transfer.Download.{DownloadedFile}
use zipstash.Client.Convert.{check_path}
use zipstash.Client.Save.{audience}
use zipstash.Client.Restore.{
  convert_to_download_instructions, sort_downloads, combine_parts, AreDownloads, restore_whole,
}
use zipstash.Client.RestoreCmd.{
  RestoreCmd, RestoreServices, is_not_found, get_request_of, combine_files, clean_if_asked,
  extract_files, restore_entry, after_get, restore,
}
use zipstash.Client.Combined.{IsSteady, combined, cleaned}

module _ (s : RestoreServices) (L : IsSteady s) where
  -- The entry was downloaded, its parts joined in their order, the paths removed if that was asked
  -- for, and only then the joined file extracted by the mappings of the paths.
  pub record IsFetched (c : RestoreCmd) (resp : Api.GetEntryResponse) (hit : Bool) (w w' : s.World)
      : Type 0 where
    pub downloads : List DownloadedFile
    pub zip : Text
    pub len : ℕ
    pub paths : List Text
    pub mappings : List Mapping
    pub extractor : s.Zip
    pub downloaded_world : s.World
    pub combined_world : s.World
    pub cleaned_world : s.World
    pub opened_world : s.World
    pub extracted_world : s.World
    pub fetches :
        s.download (convert_to_download_instructions resp.download_instructions) 20 w
        ≡ (ok downloads, downloaded_world)
    pub combines :
        combine_files s (sort_downloads downloads) downloaded_world
        ≡ (ok (zip, len), combined_world)
    pub splits : check_path c.path ≡ ok paths
    pub cleans : clean_if_asked s c.clean paths combined_world ≡ (ok tt, cleaned_world)
    pub holds : s.content zip cleaned_world ≡ combine_parts (sort_downloads downloads)
    pub counts : len ≡ length (combine_parts (sort_downloads downloads)) % two_64
    pub opens : s.new_extractor zip len cleaned_world ≡ (ok extractor, opened_world)
    pub maps : paths_to_mappings s.env paths ≡ ok mappings
    pub extracts :
        s.extract_with_path_mapper extractor (map_path mappings) opened_world
        ≡ (ok tt, extracted_world)
    pub removes : s.remove zip extracted_world ≡ w'
    pub tells : hit ≡ not resp.fallback

  restore_entry-IsFetched :
      (c : RestoreCmd) (resp : Api.GetEntryResponse) (w : s.World) {hit : Bool} {w' : s.World}
      → restore_entry s c resp w ≡ (ok hit, w')
      → IsFetched c resp hit w w'
  unfolding restore_entry extract_files
  restore_entry-IsFetched c resp w {hit} {w'} h = run_call _ _ _ h λ downloads w1 e1 h1.
      run_call _ _ _ h1 λ pair w2 e2 h2. run_lookup _ _ _ h2 λ paths e3 h3.
        run_bind _ _ h3 λ _ w3 e4 h4. run_call _ _ _ h4 λ _ w4 e5 h5.
          run_call _ _ _ e5 λ extractor w5 e6 h6. run_lookup _ _ _ h6 λ mappings e7 h7.
            let (joined, count) = combined s L (sort_downloads downloads) pair.0 pair.1 w1 e2 in
            record {
              downloads = downloads;
              zip = pair.0;
              len = pair.1;
              paths = paths;
              mappings = mappings;
              extractor = extractor;
              downloaded_world = w1;
              combined_world = w2;
              cleaned_world = w3;
              opened_world = w5;
              extracted_world = w4;
              fetches = e1;
              combines = e2;
              splits = e3;
              cleans = e4;
              holds = cleaned s L pair.0 c.clean paths w2 e4 ∙ joined;
              counts = count;
              opens = e6;
              maps = e7;
              extracts = on_error-eq-ok _ _ h7;
              removes = ap (λ x. x.1) h5;
              tells = cc;
            }

  -- With the token of its source and the answer of the service.
  pub record IsRestored (c : RestoreCmd) (hit : Bool) (w w' : s.World) : Type 0 where
    pub token : Text
    pub token_world : s.World
    pub answer : Result Api.GetEntryResponse
    pub answered_world : s.World
    pub gets : s.get_token c.token_source audience w ≡ (ok token, token_world)
    pub asks :
        s.get_entry (bearer_header token) (get_request_of c s.platform) token_world
        ≡ (answer, answered_world)
    pub outcome :
        ((resp : Api.GetEntryResponse) × (answer ≡ ok resp)
          × IsFetched c resp hit answered_world w')
        ⊎ ((reason : Err) × (answer ≡ err reason)
            × (is_not_found reason ≡ true)
            × (hit ≡ false)
            × (w' ≡ answered_world))

  IsRestored-after :
      (c : RestoreCmd) (token : Text) (w v u : s.World) (r : Result Api.GetEntryResponse)
      {hit : Bool} {w' : s.World}
      → s.get_token c.token_source audience w ≡ (ok token, v)
      → s.get_entry (bearer_header token) (get_request_of c s.platform) v ≡ (r, u)
      → after_get s c (r, u) ≡ (ok hit, w')
      → IsRestored c hit w w'
  unfolding after_get
  IsRestored-after c token w v u (ok resp) gets asks h = record {
    token = token;
    token_world = v;
    answer = ok resp;
    answered_world = u;
    gets = gets;
    asks = asks;
    outcome = inl (resp, refl, restore_entry-IsFetched c resp u h);
  }
  IsRestored-after c token w v u (err reason) {hit} {w'} gets asks h =
      elim (Bool-cases (is_not_found reason)) [
        | inl missing ↦
            let e : (ok false, u) ≡ (ok hit, w') = rw missing at h in
            let told : hit ≡ false = let same : ok false ≡ ok hit = ap (λ x. x.0) e in cc in
            record {
              token = token;
              token_world = v;
              answer = err reason;
              answered_world = u;
              gets = gets;
              asks = asks;
              outcome = inr (reason, refl, missing, told, ap (λ x. x.1) (sym e));
            }
        | inr other ↦ absurd (let e : (err _, u) ≡ (ok hit, w') = rw other at h in cc)
      ]
  IsRestored-after c token w v u (crash x) gets asks h = cc

  -- A restore that returned without an error was told that there is no entry and has changed nothing
  -- since, or has downloaded the entry, joined the parts in the order of their numbers, removed the
  -- paths of the command if it was told to, and then extracted the joined parts by the mappings of
  -- the paths; it reports a hit if the entry is found and is no fallback.
  pub restore-IsRestored :
      (c : RestoreCmd) (w : s.World) {hit : Bool} {w' : s.World}
      → restore s c w ≡ (ok hit, w')
      → IsRestored c hit w w'
  unfolding restore
  restore-IsRestored c w h = run_call _ _ _ h λ token v e h1.
      let r = s.get_entry (bearer_header token) (get_request_of c s.platform) v in
      IsRestored-after c token w v r.1 r.0 e refl h1

  -- Of a file of at least the minimal part size and at most 16 PiB, a restore whose downloads are the
  -- ranges that the server names, in whatever order they arrived, extracts the file itself, with its
  -- length, also if it removed paths first.
  pub fetched_whole :
      (file : Text) (os : List Offsets.Offset) (ds : List DownloadedFile) (c : RestoreCmd)
      (resp : Api.GetEntryResponse) (hit : Bool) (w w' : s.World)
      → IsFileSize (length file)
      → min_part_size ≤ length file
      → calculate_offsets (length file) min_part_size ≡ some os
      → AreDownloads file os ds
      → (f : IsFetched c resp hit w w') → Perm ds f.downloads
      → (s.content f.zip f.cleaned_world ≡ file) × (f.len ≡ length file)
  fetched_whole file os ds c resp hit w w' size large computed downloads f p =
      let whole = restore_whole file os ds f.downloads size large computed downloads p in
      (f.holds ∙ whole, omega (arith, f.counts, ap length whole, size))
