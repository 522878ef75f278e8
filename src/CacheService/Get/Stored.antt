-- ===== src/CacheService/Get/Stored.antt =====
-- What GetEntry answers if the key that is asked for has a row.
use zipstash.Base.{
  ◌≡◌, sym, ap, ◌∙◌, Bool, true, false, Option, some, Text, arith, ok, err, crash, Result, run_bind,
  run_call, run_deref, run_lookup, run_guard, run_pure,
}
use zipstash.Api
use zipstash.Index.{CacheRecord}
use zipstash.Backend.{Backend, HeadObjectOutput}
use zipstash.Backend.Laws.{Row, IsLawful}
use zipstash.Store.{exists_cache, cache_partition}
use zipstash.Store.Lookup.{exists_cache-false}
use zipstash.Presigner.{DownloadInstructionsResp, generate_file_download_instructions}
use zipstash.CiAuth.{OidcIdentity}
use zipstash.CacheService.Convert.{from_instruct_to_download_v1}
use zipstash.CacheService.Get.{
  ExistsWithFallbackResult, choose, exists_with_fallback, exists_in_s3, head_result, to_int64,
  get_entry,
}
use zipstash.CacheService.Get.Fallback.{asked_key}
use zipstash.CacheService.Lifecycle.{same_record}
use zipstash.CacheService.Owner.{validate_owner-eq-ok}

module _ (b : Backend) (bucket : Text) where
  -- The answer is made from the row, and from the object under the key as S3 reports it.
  pub record IsFromRow (key : Text) (value : CacheRecord) (w : b.World)
      (resp : Api.GetEntryResponse) : Type 0 where
    pub head : HeadObjectOutput
    pub instructs : DownloadInstructionsResp
    pub in_s3 : b.head_object bucket key w ≡ ok head
    pub presigns :
        generate_file_download_instructions b bucket key (to_int64 head.content_length) w
        ≡ ok instructs
    pub is_direct : resp.fallback ≡ false
    pub same_key : resp.cache_entry.key ≡ key
    pub same_size : resp.cache_entry.file_size ≡ to_int64 head.content_length
    pub same_sha : resp.cache_entry.sha256sum ≡ value.sha256
    pub same_multipart : resp.multipart ≡ instructs.multipart
    pub same_instructions :
        resp.download_instructions ≡ from_instruct_to_download_v1 instructs.download_instructions

  head_there :
      (r : Result HeadObjectOutput) {h : HeadObjectOutput} → head_result r ≡ ok (true, h) → r ≡ ok h
  unfolding head_result
  head_there (ok h) e = cc
  head_there (err x) e = ground arith
  head_there (crash c) e = cc

  module _ (l : IsLawful b) where
    open l use {cache_rows}

    chosen_row :
        (req : Api.GetEntryRequest) (platform : Api.Platform) (w : b.World) (a : Bool × CacheRecord)
        {r : ExistsWithFallbackResult} {w' : b.World} {row : Row CacheRecord}
        → exists_cache b (asked_key req platform) w ≡ ok a
        → choose b bucket req platform (asked_key req platform) a w ≡ (ok r, w')
        → cache_rows w cache_partition (asked_key req platform) ≡ some row
        → (record {
          cache_id = asked_key req platform;
          rec = row.value;
          exists = true;
          fallback = false;
        }
            ≡ r)
          × (w ≡ w')
    unfolding choose
    chosen_row req platform w (true, rec) {row = row} e h at =
        let (same, still) = run_pure _ h in
        let v : rec ≡ row.value = same_record b bucket l (asked_key req platform) w e at in
        (rw (← v) same, still)
    chosen_row req platform w (false, before) e h at =
        let gone = exists_cache-false b l (asked_key req platform) w e in cc

    exists_with_fallback_row :
        (req : Api.GetEntryRequest) (platform : Api.Platform) (w : b.World)
        {r : ExistsWithFallbackResult} {w' : b.World} {row : Row CacheRecord}
        → req.platform ≡ some platform
        → exists_with_fallback b bucket req w ≡ (ok r, w')
        → cache_rows w cache_partition (asked_key req platform) ≡ some row
        → (record {
          cache_id = asked_key req platform;
          rec = row.value;
          exists = true;
          fallback = false;
        }
            ≡ r)
          × (w ≡ w')
    unfolding exists_with_fallback
    exists_with_fallback_row req platform w has h at = run_deref req.platform _ h λ p hp h1.
        let same : p ≡ platform = cc in
        run_lookup _ (exists_cache b (asked_key req p)) _ h1
          λ a e h2. chosen_row req platform w a (rw (← same) e) (rw (← same) h2) at

    -- If the key that is asked for has a row, GetEntry answers from it and from the object of the key.
    pub get_entry-IsFromRow :
        (ctx : Option OidcIdentity) (req : Api.GetEntryRequest) (platform : Api.Platform)
        (w : b.World) {resp : Api.GetEntryResponse} {w' : b.World} {row : Row CacheRecord}
        → req.platform ≡ some platform
        → get_entry b bucket ctx req w ≡ (ok resp, w')
        → cache_rows w cache_partition (asked_key req platform) ≡ some row
        → IsFromRow (asked_key req platform) row.value w resp
    unfolding get_entry exists_in_s3
    get_entry-IsFromRow ctx req platform w {row = row} has h at = run_bind _ _ h λ t w1 valid h1.
        run_call _ _ _ h1 λ entry w2 e2 h2. run_guard entry.exists _ _ h2 λ there h3.
          run_lookup _ _ _ h3 λ (exists, head) e4 h4. run_guard exists _ _ h4 λ stored h5.
            run_lookup _ _ _ h5 λ instructs presigns h6.
              let (same, _) = run_pure _ h6 in
              let (_, start) = validate_owner-eq-ok b bucket ctx req.owner _ valid in
              let (found, kept) = exists_with_fallback_row req platform w has (rw start at e2) at in
              let key : entry.cache_id ≡ asked_key req platform =
                ap (λ r. r.cache_id) (sym found) in
              let value : entry.rec ≡ row.value = ap (λ r. r.rec) (sym found) in
              let direct : entry.fallback ≡ false = ap (λ r. r.fallback) (sym found) in
              record {
                head = head;
                instructs = instructs;
                in_s3 = head_there _ (rw (key, ← kept, stored) at e4);
                presigns = rw (key, ← kept) at presigns;
                is_direct = ap (λ r. r.fallback) (sym same) ∙ direct;
                same_key = ap (λ r. r.cache_entry.key) (sym same) ∙ key;
                same_size = ap (λ r. r.cache_entry.file_size) (sym same);
                same_sha = ap (λ r. r.cache_entry.sha256sum) (sym same) ∙ ap (λ v. v.sha256) value;
                same_multipart = ap (λ r. r.multipart) (sym same);
                same_instructions = ap (λ r. r.download_instructions) (sym same);
              }
