-- ===== src/Client/Stored.antt =====
-- From CreateEntry to the object in S3: internal/server/rpc_cache.go and presigner.go, the wire,
-- pkg/uploader/uploader.go and internal/commands/client/save.go together.
use mathlib.Core.Path.{subst}
use zipstash.Base.{ℕ, ◌≡◌, ap, ◌∙◌, List, Option, some, Text, length, ok, on_error-eq-ok}
use zipstash.Api
use zipstash.Index.{CacheRecord}
use zipstash.Backend.{Backend}
use zipstash.Backend.Laws.{IsLawful}
use zipstash.Store.{cache_partition, cache_options, put_cache}
use zipstash.Presigner.Plan.{IsFileSize}
use zipstash.CiAuth.{OidcIdentity}
use zipstash.CacheService.Get.{record_key}
use zipstash.CacheService.Handlers.{
  create_entry, update_entry, new_record, cache_record_inflight_ttl,
}
use zipstash.CacheService.Lifecycle.{
  entry_key, create_entry-Created, update_entry-Updated, put_cache_row, same_record,
}
use zipstash.Transfer.Upload.{HttpClient, CachePartETag, Uploads}
use zipstash.Client.Convert.{to_upload_instructions, to_etags_v1}
use zipstash.Client.S3.{ObjectStore, Takes}
use zipstash.Client.Sent.{sent_whole}

module _ (b : Backend) (bucket : Text) (l : IsLawful b) (store : ObjectStore b) where
  open l use {cache_rows}

  put_cache_keeps :
      (id created : Text) (v : CacheRecord) (ttl : ℕ) (w : b.World) {w' : b.World}
      → put_cache b id created v ttl w ≡ (ok tt, w')
      → (bucket s3key : Text) → store.object w' bucket s3key ≡ store.object w bucket s3key
  unfolding put_cache
  put_cache_keeps id created v ttl w h =
      store.table_keeps cache_partition id v (cache_options created v ttl) w (
        on_error-eq-ok _ (b.cache_store.create cache_partition id v (cache_options created v ttl))
          h)

  -- UpdateEntry completes the upload that CreateEntry began, under the key of the entry.
  pub saved_object :
      (sender : HttpClient) (file : Text) (ctx : Option OidcIdentity) (req : Api.CreateEntryRequest)
      (entry : Api.CacheEntry) (platform : Api.Platform) (update : Api.UpdateEntryRequest)
      (w w1 w2 w3 : b.World) {resp : Api.CreateEntryResponse} {resp' : Api.UpdateEntryResponse}
      (limit : ℕ) {us : List CachePartETag}
      → req.cache_entry ≡ some entry
      → req.platform ≡ some platform
      → create_entry b bucket ctx req w ≡ (ok resp, w1)
      → entry.file_size ≡ length file
      → IsFileSize (length file)
      → Takes b sender store file w2
      → Uploads sender limit (some file) (to_upload_instructions resp.upload_instructions) (ok us)
      → update.id ≡ resp.id
      → update.multipart_etags ≡ to_etags_v1 us
      → cache_rows w2 cache_partition resp.id ≡ cache_rows w1 cache_partition resp.id
      → update_entry b bucket update w2 ≡ (ok resp', w3)
      → store.object w3 bucket (entry_key req.provider_type entry platform) ≡ some file
  unfolding new_record
  saved_object sender file ctx req entry platform update w w1 w2 w3 {resp} limit {us} has_entry
        has_platform created size small takes uploads same tags kept updated =
      let c = create_entry-Created b bucket ctx req created in
      let u = update_entry-Updated b bucket update updated in
      let e : entry ≡ c.entry = let f = c.has_entry in cc in
      let p : platform ≡ c.platform = let f = c.has_platform in cc in
      let at1 =
        put_cache_row b bucket l resp.id _ _ cache_record_inflight_ttl c.presigned c.stores in
      let r : u.rec ≡ _ =
        same_record b bucket l resp.id w2 (rw (← same) u.was_there) (kept ∙ at1) in
      let key : record_key u.rec ≡ entry_key req.provider_type entry platform =
        ap record_key r ∙ rw (← e, ← p) in
      let id : u.rec.multipart_upload_id ≡ c.instructs.multipart_upload_id =
        ap (λ v. v.multipart_upload_id) r in
      let completes = rw (key, id, tags) at u.completes in
      let presigns = rw (← e, ← p, size) at c.presigns in
      put_cache_keeps (record_key u.rec) _ _ _ u.completed u.stores bucket
        (entry_key req.provider_type entry platform)
      ∙ sent_whole b sender store file c.presigned w2 takes bucket
          (entry_key req.provider_type entry platform) entry.sha256sum entry.compression w
          u.completed limit small presigns
          (subst (λ is. Uploads sender limit (some file) (to_upload_instructions is) (ok us))
            c.same_instructions uploads)
          completes
