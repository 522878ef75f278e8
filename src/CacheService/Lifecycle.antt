-- ===== src/CacheService/Lifecycle.antt =====
-- A cache entry from CreateEntry over UpdateEntry to CheckEntry.
use zipstash.Base.{
  ℕ, ◌≡◌, Bool, true, false, not, ◌&&◌, Option, some, Text, arith, if◌then◌else◌, Result, ok,
  text_eq, text_eq_refl, run_bind, run_call, run_reads, run_deref, run_lookup, run_guard, run_pure,
  on_error-eq-ok,
}
use zipstash.Keys.{Provider, from_provider_v1, build_cache_key, created_value}
use zipstash.Api
use zipstash.Index.{CacheRecord}
use zipstash.Backend.{Backend}
use zipstash.Backend.Laws.{Row, IsLawful}
use zipstash.Store.{exists_cache, put_cache, cache_partition, cache_options}
use zipstash.Store.Lookup.{exists_cache-true}
use zipstash.Presigner.{UploadInstructionsResp, generate_file_upload_instructions}
use zipstash.CiAuth.{OidcIdentity}
use zipstash.CacheService.Convert.{from_upload_instructions}
use zipstash.CacheService.Get.{record_key}
use zipstash.CacheService.Handlers.{
  complete_upload, new_record, create_entry, update_entry, cache_record_ttl,
  cache_record_inflight_ttl,
}
use zipstash.CacheService.Owner.{validate_owner-eq-ok}

-- The key under which an entry of a request is kept.
abbrev pub entry_key : Provider → Api.CacheEntry → Api.Platform → Text
entry_key provider entry platform =
    build_cache_key entry.owner (from_provider_v1 provider) platform.operating_system
      platform.architecture entry.key

not_there :
    {r : Result (Bool × CacheRecord)} {a : Bool × CacheRecord}
    → r ≡ ok a
    → not a.0 ≡ true
    → r ≡ ok (false, a.1)
not_there e h = ground arith

module _ (b : Backend) (bucket : Text) where
  -- What has happened when CreateEntry returned.
  pub record Created (ctx : Option OidcIdentity) (req : Api.CreateEntryRequest)
      (resp : Api.CreateEntryResponse) (w w' : b.World) : Type 0 where
    pub entry : Api.CacheEntry
    pub platform : Api.Platform
    pub identity : OidcIdentity
    pub before : CacheRecord
    pub instructs : UploadInstructionsResp
    pub presigned : b.World
    pub has_entry : req.cache_entry ≡ some entry
    pub has_platform : req.platform ≡ some platform
    pub has_identity : ctx ≡ some identity
    pub was_missing :
        exists_cache b (entry_key req.provider_type entry platform) w ≡ ok (false, before)
    pub names_new : resp.id ≡ b.new_uuid w
    pub presigns :
        generate_file_upload_instructions b bucket
          (entry_key req.provider_type entry platform)
          entry.sha256sum
          entry.compression
          entry.file_size
          w
        ≡ (ok instructs, presigned)
    pub same_multipart : resp.multipart ≡ instructs.multipart
    pub same_instructions :
        resp.upload_instructions ≡ from_upload_instructions instructs.upload_instructions
    pub stores :
        put_cache b resp.id
          (created_value entry.owner
            (from_provider_v1 req.provider_type)
            platform.operating_system
            platform.architecture
            entry.name
            entry.branch
            (b.format_rfc3339 (b.now presigned)))
          (new_record req.provider_type entry platform instructs.multipart_upload_id identity
            (b.now presigned))
          cache_record_inflight_ttl
          presigned
        ≡ (ok tt, w')

  pub create_entry-Created :
      (ctx : Option OidcIdentity) (req : Api.CreateEntryRequest) {resp : Api.CreateEntryResponse}
      {w w' : b.World}
      → create_entry b bucket ctx req w ≡ (ok resp, w')
      → Created ctx req resp w w'
  unfolding create_entry
  create_entry-Created ctx req {resp} {w} {w'} h =
      run_deref req.cache_entry _ h λ entry has_entry h1. run_bind _ _ h1 λ rec w1 valid h2.
        run_deref req.platform _ h2 λ platform has_platform h3.
          run_lookup _ (exists_cache b (entry_key req.provider_type entry platform)) _ h3
            λ (exists, before) e h4. run_guard (not exists) _ _ h4 λ new h5.
              run_reads _ _ h5 λ upload_id uuid h6. run_call _ _ _ h6 λ instructs w2 presigns h7.
                run_reads _ _ h7 λ now time h8. run_deref ctx _ h8 λ identity has_identity h9.
                  run_call _ _ _ h9 λ _ w3 stored h10.
                    let still : w1 ≡ w =
                      (validate_owner-eq-ok b bucket ctx entry.owner _ valid).1 in
                    let (e_resp, e_w) = run_pure _ h10 in
                    record {
                      entry = entry;
                      platform = platform;
                      identity = identity;
                      before = before;
                      instructs = instructs;
                      presigned = w2;
                      has_entry = has_entry;
                      has_platform = has_platform;
                      has_identity = has_identity;
                      was_missing = rw (← still) (not_there e new);
                      names_new = cc;
                      presigns = rw (← still) presigns;
                      same_multipart = cc;
                      same_instructions = cc;
                      stores = cc;
                    }

  -- What has happened when UpdateEntry returned.
  pub record Updated (req : Api.UpdateEntryRequest) (resp : Api.UpdateEntryResponse)
      (w w' : b.World) : Type 0 where
    pub rec : CacheRecord
    pub completed : b.World
    pub was_there : exists_cache b req.id w ≡ ok (true, rec)
    pub completes :
        complete_upload b bucket (record_key rec) rec.multipart_upload_id req.multipart_etags w
        ≡ (ok tt, completed)
    pub stores :
        put_cache b
          (record_key rec)
          (created_value rec.owner rec.provider rec.operating_system rec.architecture rec.name
            rec.branch
            (b.format_rfc3339 (b.now completed)))
          (record rec { updated_at = b.now completed })
          cache_record_ttl
          completed
        ≡ (ok tt, w')
    pub same_id : resp.id ≡ req.id

  pub update_entry-Updated :
      (req : Api.UpdateEntryRequest) {resp : Api.UpdateEntryResponse} {w w' : b.World}
      → update_entry b bucket req w ≡ (ok resp, w')
      → Updated req resp w w'
  unfolding update_entry
  update_entry-Updated req {resp} {w} {w'} h =
      run_lookup _ (exists_cache b req.id) _ h λ (exists, rec) e h1.
        run_guard exists _ _ h1 λ there h2. run_bind _ _ h2 λ _ w2 completes h3.
          run_reads _ _ h3 λ now time h4. run_call _ _ _ h4 λ _ w3 stored h5.
            let (e_resp, e_w) = run_pure _ h5 in
            record {
              rec = rec;
              completed = w2;
              was_there = ground arith;
              completes = completes;
              stores = cc;
              same_id = cc;
            }

  module _ (l : IsLawful b) where
    open l use {cache_rows}

    -- A record that was put is the row of its key; the other rows are as before.
    pub put_cache_rows :
        (id created : Text) (v : CacheRecord) (ttl : ℕ) (w : b.World) {w' : b.World}
        → put_cache b id created v ttl w ≡ (ok tt, w')
        → (q k : Text)
        → cache_rows w' q k ≡ (
            if text_eq cache_partition q && text_eq id k
            then some
                (record { value = v; extra_fields = (cache_options created v ttl).extra_fields })
            else cache_rows w q k)
    unfolding put_cache
    put_cache_rows id created v ttl w h =
        l.cache_lawful.create_ok cache_partition id v (cache_options created v ttl) w (
          on_error-eq-ok _ (b.cache_store.create cache_partition id v (cache_options created v ttl))
            h)

    pub put_cache_row :
        (id created : Text) (v : CacheRecord) (ttl : ℕ) (w : b.World) {w' : b.World}
        → put_cache b id created v ttl w ≡ (ok tt, w')
        → cache_rows w' cache_partition id
          ≡ some (record { value = v; extra_fields = (cache_options created v ttl).extra_fields })
    put_cache_row id created v ttl w h = rw (
      put_cache_rows id created v ttl w h cache_partition id,
      text_eq_refl cache_partition,
      text_eq_refl id,
    )

    -- The row of a key holds the record that a lookup reports.
    pub same_record :
        (id : Text) (w : b.World) {v : CacheRecord} {row : Row CacheRecord}
        → exists_cache b id w ≡ ok (true, v)
        → cache_rows w cache_partition id ≡ some row
        → v ≡ row.value
    same_record id w e at = let (row, at', holds) = exists_cache-true b l id w e in cc
