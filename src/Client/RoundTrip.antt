-- ===== src/Client/RoundTrip.antt =====
-- From CreateEntry to the restored file: internal/server/rpc_cache.go and presigner.go, the wire,
-- pkg/downloader/downloader.go and internal/commands/client/restore.go together.
use mathlib.Core.Path.{subst}
use zipstash.Base.{ℕ, ◌≡◌, ◌≤◌, sym, ap, ◌∙◌, false, List, Option, some, Text, length, ok}
use zipstash.Api
use zipstash.Backend.{Backend}
use zipstash.Backend.Laws.{IsLawful}
use zipstash.Store.{cache_partition}
use zipstash.Presigner.{generate_file_download_instructions}
use zipstash.Presigner.Plan.{IsFileSize}
use zipstash.CiAuth.{OidcIdentity}
use zipstash.CacheService.Handlers.{create_entry, update_entry}
use zipstash.CacheService.Get.{get_entry, to_int64}
use zipstash.CacheService.Get.Stored.{get_entry-IsFromRow}
use zipstash.CacheService.Lifecycle.{entry_key}
use zipstash.CacheService.Publish.{published}
use zipstash.Transfer.Download.{HttpReader, DownloadedFile, Downloads}
use zipstash.Client.Restore.{convert_to_download_instructions, sort_downloads, combine_parts}
use zipstash.Client.S3.{ObjectStore, Takes, Serves, AnswersPlainly, AreNonEmpty}
use zipstash.Client.Stored.{saved_object}
use zipstash.Client.Convert.{to_upload_instructions, to_etags_v1}
use zipstash.Transfer.Upload.{HttpClient, CachePartETag, Uploads}
use zipstash.Offsets.{calculate_offsets, min_part_size}
use zipstash.Client.Delivered.{delivered_whole}

-- A request for the key of an entry that was created, with any fallback branch.
abbrev pub restore_request : Api.CreateEntryRequest → Api.CacheEntry → Text → Api.GetEntryRequest
restore_request req entry fallback_branch = record {
  provider_type = req.provider_type;
  key = entry.key;
  name = entry.name;
  branch = entry.branch;
  owner = entry.owner;
  fallback_branch = fallback_branch;
  platform = req.platform;
}

module _ (b : Backend) (bucket : Text) (l : IsLawful b) where
  open l use {cache_rows}

  -- When CreateEntry has returned for an entry of the size of a file of up to 16 PiB, the client has
  -- uploaded its instructions from this file, in whatever interleaving, and UpdateEntry has returned
  -- for the ETags of the parts, S3 holds the file under the key of the entry; when GetEntry for the
  -- same key returns after that, it is a hit and no fallback, with the SHA-256 that was saved, and
  -- when the client has downloaded its instructions, in whatever interleaving, the joined parts are
  -- the file. Meanwhile neither the record of the ID, nor that of the key, nor the object was changed
  -- by others, S3 keeps, joins, measures and gives what the requests name, no range of the file is
  -- empty, and S3 answers a GET with no other status than 400, 404 and 500, and 200, or 206 for a
  -- range.
  pub saved_then_restored :
      (ctx ctx' : Option OidcIdentity) (req : Api.CreateEntryRequest) (entry : Api.CacheEntry)
      (platform : Api.Platform) (update : Api.UpdateEntryRequest) (fallback_branch : Text)
      (w w1 w2 w3 w4 : b.World) {resp : Api.CreateEntryResponse} {resp' : Api.UpdateEntryResponse}
      {got : Api.GetEntryResponse} {w5 : b.World} (store : ObjectStore b) (sender : HttpClient)
      (reader : HttpReader) (file : Text) (limit : ℕ) {us : List CachePartETag}
      {ds : List DownloadedFile}
      → req.cache_entry ≡ some entry
      → req.platform ≡ some platform
      → create_entry b bucket ctx req w ≡ (ok resp, w1)
      → entry.file_size ≡ length file
      → IsFileSize (length file)
      → (min_part_size ≤ length file → AreNonEmpty (calculate_offsets (length file) min_part_size))
      → Takes b sender store file w2
      → Uploads sender limit (some file) (to_upload_instructions resp.upload_instructions) (ok us)
      → update.id ≡ resp.id
      → update.multipart_etags ≡ to_etags_v1 us
      → cache_rows w2 cache_partition resp.id ≡ cache_rows w1 cache_partition resp.id
      → update_entry b bucket update w2 ≡ (ok resp', w3)
      → cache_rows w4 cache_partition (entry_key req.provider_type entry platform)
        ≡ cache_rows w3 cache_partition (entry_key req.provider_type entry platform)
      → store.object w4 bucket (entry_key req.provider_type entry platform)
        ≡ store.object w3 bucket (entry_key req.provider_type entry platform)
      → Serves b reader w4 (store.object w4)
      → AnswersPlainly reader
      → get_entry b bucket ctx' (restore_request req entry fallback_branch) w4 ≡ (ok got, w5)
      → Downloads reader limit (convert_to_download_instructions got.download_instructions) (ok ds)
      → (store.object w3 bucket (entry_key req.provider_type entry platform) ≡ some file)
        × (got.fallback ≡ false)
        × (got.cache_entry.sha256sum ≡ entry.sha256sum)
        × (combine_parts (sort_downloads ds) ≡ file)
  saved_then_restored ctx ctx' req entry platform update fallback_branch w w1 w2 w3 w4 {got = got}
        store sender reader file limit {us} {ds} has_entry has_platform created size small filled
        takes uploads same tags kept updated kept' untouched serves plain asked downloads =
      let key = entry_key req.provider_type entry platform in
      let (row, at, sha) =
        published b bucket l ctx req entry platform update w w1 w2 w3 has_entry has_platform created
          same kept updated in
      let f =
        get_entry-IsFromRow b bucket l ctx' (restore_request req entry fallback_branch) platform w4
          has_platform asked (kept' ∙ at) in
      let held : store.object w3 bucket key ≡ some file =
        saved_object b bucket l store sender file ctx req entry platform update w w1 w2 w3 limit
          has_entry has_platform created size small takes uploads same tags kept updated in
      let still : store.object w4 bucket key ≡ some file = untouched ∙ held in
      let same_size : to_int64 f.head.content_length ≡ length file =
        ap to_int64 (store.heads bucket key file w4 f.in_s3 still) in
      (
        held,
        f.is_direct,
        f.same_sha ∙ sha,
        delivered_whole b reader w4 (store.object w4) serves plain bucket key file still limit small
            filled
            (ap (λ n. generate_file_download_instructions b bucket key n w4) (sym same_size)
              ∙ f.presigns)
            (subst (λ is. Downloads reader limit (convert_to_download_instructions is) (ok ds))
              f.same_instructions downloads),
      )
