-- ===== src/Client/Saved.antt =====
-- What a save that returned without an error has done.
use zipstash.Base.{
  ◌≡◌, ◌⊎◌, inl, inr, refl, ap, ◌∙◌, true, false, List, Text, Result, ok, err, crash, Err,
  Bool-cases, run_call, run_lookup, run_pure,
}
use zipstash.Api
use zipstash.CiAuth.Bearer.{bearer_header}
use zipstash.Transfer.Upload
use zipstash.Client.Convert.{check_path, to_upload_instructions, to_etags_v1}
use zipstash.Archive.{ArchiveInfo}
use zipstash.Client.Save.{
  SaveCmd, Services, audience, is_already_exists, check_request_of, create_request_of, send_archive,
  after_create, save_new, save,
}

module _ (s : Services) where
  -- The archive of the paths was built, its entry created, its parts sent, and the entry updated
  -- with the ETags of the parts.
  pub record IsSent (c : SaveCmd) (token : Text) (w w' : s.World) : Type 0 where
    pub paths : List Text
    pub info : ArchiveInfo
    pub created : Api.CreateEntryResponse
    pub etags : List Upload.CachePartETag
    pub updated : Api.UpdateEntryResponse
    pub built_world : s.World
    pub created_world : s.World
    pub sent_world : s.World
    pub splits : check_path c.path ≡ ok paths
    pub builds : s.build_archive paths c.key w ≡ (ok info, built_world)
    pub creates :
        s.create_entry (bearer_header token) (create_request_of c paths info s.platform) built_world
        ≡ (ok created, created_world)
    pub sends :
        s.upload info.archive_path
          (to_upload_instructions created.upload_instructions)
          20
          created_world
        ≡ (ok etags, sent_world)
    pub updates :
        s.update_entry
          (bearer_header token)
          (record { id = created.id; multipart_etags = to_etags_v1 etags })
          sent_world
        ≡ (ok updated, w')

  -- Another save created the entry meanwhile.
  pub record IsOvertaken (c : SaveCmd) (token : Text) (w w' : s.World) : Type 0 where
    pub paths : List Text
    pub info : ArchiveInfo
    pub reason : Err
    pub built_world : s.World
    pub splits : check_path c.path ≡ ok paths
    pub builds : s.build_archive paths c.key w ≡ (ok info, built_world)
    pub refuses :
        s.create_entry (bearer_header token) (create_request_of c paths info s.platform) built_world
        ≡ (err reason, w')
    pub exists_already : is_already_exists reason ≡ true

  IsSent-after :
      (c : SaveCmd) (token : Text) (paths : List Text) (info : ArchiveInfo) (w v : s.World)
      (r : Result Api.CreateEntryResponse × s.World) {w' : s.World}
      → check_path c.path ≡ ok paths
      → s.build_archive paths c.key w ≡ (ok info, v)
      → s.create_entry (bearer_header token) (create_request_of c paths info s.platform) v ≡ r
      → after_create s token info r ≡ (ok tt, w')
      → IsSent c token w w' ⊎ IsOvertaken c token w w'
  unfolding after_create send_archive
  IsSent-after c token paths info w v (ok created, w1) e1 e2 e3 h =
      run_call _ _ _ h λ etags w2 e4 h1. run_call _ _ _ h1 λ updated w3 e5 h2.
        let (_, still) = run_pure _ h2 in
        inl (record {
          paths = paths;
          info = info;
          created = created;
          etags = etags;
          updated = updated;
          built_world = v;
          created_world = w1;
          sent_world = w2;
          splits = e1;
          builds = e2;
          creates = e3;
          sends = e4;
          updates = e5 ∙ ap (λ x. (ok updated, x)) still;
        })
  IsSent-after c token paths info w v (err reason, w1) e1 e2 e3 h =
      elim (Bool-cases (is_already_exists reason)) [
        | inl there ↦
            let still : w1 ≡ _ = ap (λ x. x.1) (rw there at h) in
            inr (record {
              paths = paths;
              info = info;
              reason = reason;
              built_world = v;
              splits = e1;
              builds = e2;
              refuses = e3 ∙ ap (λ x. (err reason, x)) still;
              exists_already = there;
            })
        | inr other ↦ absurd (let e : (err _, w1) ≡ (ok tt, _) = rw other at h in cc)
      ]
  IsSent-after c token paths info w v (crash x, w1) e1 e2 e3 h = cc

  -- With the token of its source and the server's answer to its first question.
  pub record IsSaved (c : SaveCmd) (w w' : s.World) : Type 0 where
    pub token : Text
    pub checked : Api.CheckEntryResponse
    pub token_world : s.World
    pub checked_world : s.World
    pub gets : s.get_token c.token_source audience w ≡ (ok token, token_world)
    pub checks :
        s.check_entry (bearer_header token) (check_request_of c s.platform) token_world
        ≡ (ok checked, checked_world)
    pub outcome :
        ((checked.exists ≡ true) × (checked_world ≡ w'))
        ⊎ ((checked.exists ≡ false)
            × (IsSent c token checked_world w' ⊎ IsOvertaken c token checked_world w'))

  -- A save that returned without an error found the entry at the server, or sent the archive and
  -- updated the entry that it had created with the ETags of what it sent, or was told that the entry
  -- exists when it created it.
  pub save-IsSaved :
      (c : SaveCmd) (w : s.World) {w' : s.World} → save s c w ≡ (ok tt, w') → IsSaved c w w'
  unfolding save save_new
  save-IsSaved c w {w'} h = run_call _ _ _ h λ token w1 e1 h1. run_call _ _ _ h1 λ checked w2 e2 h2.
      record {
        token = token;
        checked = checked;
        token_world = w1;
        checked_world = w2;
        gets = e1;
        checks = e2;
        outcome = elim (Bool-cases checked.exists) [
          | inl there ↦ inl (there, (run_pure tt (rw there at h2)).1)
          | inr new ↦ inr (
            new,
            run_lookup _ _ _ (rw new at h2) λ paths e3 h3.
                run_call _ _ _ h3
                  λ info v e4 h4. IsSent-after c token paths info w2 v _ e3 e4 refl h4,
          )
        ];
      }
