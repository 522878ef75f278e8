-- ===== src/CacheService/Handlers.antt =====
-- `validateOwner` and the handlers CheckEntry, CreateEntry and UpdateEntry.
use zipstash.Base.{
  ℕ, ◌*◌, not, List, [], Option, none, some, Text, String, ok, Err, connect_error, deref, guard,
  internal, already_exists, not_found, permission_denied, Io, pure, reads, on_error, ◌>>=◌, ◌>>◌,
}
use zipstash.GoStd.Strings.{join}
use zipstash.Keys.{Provider, from_provider_v1, build_cache_key, created_value, tenant_key}
use zipstash.Api
use zipstash.Index.{CacheRecord, TenantRecord}
use zipstash.Backend.{Backend}
use zipstash.Store.{exists_cache, exists_tenant_by_key, put_cache}
use zipstash.Presigner.{generate_file_upload_instructions}
use zipstash.CiAuth.{OidcIdentity}
use zipstash.CacheService.Convert.{from_upload_instructions, from_cache_part_etag_v1}

-- 30 minutes and 7 days, in seconds
abbrev pub cache_record_inflight_ttl : ℕ
cache_record_inflight_ttl = 30 * 60

abbrev pub cache_record_ttl : ℕ
cache_record_ttl = 7 * 24 * 60 * 60

-- Any error becomes the internal error with this text.
abbrev pub internal_error : String → Err → Err
internal_error text _ = connect_error internal text

-- What CreateEntry stores, at the time `now`.
unfoldable pub new_record :
    Provider → Api.CacheEntry → Api.Platform → Option Text → OidcIdentity → ℕ → CacheRecord
new_record provider entry platform upload_id identity now = record {
  updated_at = now;
  multipart_upload_id = upload_id;
  identity = some (record { subject = identity.subject; issuer = identity.issuer; audience = [] });
  owner = entry.owner;
  paths = join entry.paths b'\n';
  provider = from_provider_v1 provider;
  key = entry.key;
  name = entry.name;
  branch = entry.branch;
  sha256 = entry.sha256sum;
  compression = entry.compression;
  architecture = platform.architecture;
  operating_system = platform.operating_system;
  file_size = entry.file_size;
  cpu_count = platform.cpu_count;
}

module _ (b : Backend) (bucket : Text) where
  -- The result is used only for its error.
  unfoldable pub validate_owner : Option OidcIdentity → Text → Text → Io b.World TenantRecord
  validate_owner ctx owner provider = do
    identity ← deref ctx
    (exists, rec) ←
        on_error (internal_error "cache.v1.CacheService.UpdateEntry internal error")
          (reads (exists_tenant_by_key b (tenant_key provider owner)))
    guard exists (connect_error permission_denied "cache.v1.CacheService permission denied")
    pure rec

  unfoldable pub check_entry :
      Option OidcIdentity → Api.CheckEntryRequest → Io b.World Api.CheckEntryResponse
  check_entry ctx req = do
    let provider = from_provider_v1 req.provider_type
    validate_owner ctx req.owner provider
    platform ← deref req.platform
    let cache_id =
        build_cache_key req.owner provider platform.operating_system platform.architecture req.key
    (exists, rec) ←
        on_error (internal_error "cache.v1.CacheService.CheckEntry internal error")
          (reads (exists_cache b cache_id))
    pure (record { exists = exists; sha256sum = rec.sha256 })

  unfoldable pub create_entry :
      Option OidcIdentity → Api.CreateEntryRequest → Io b.World Api.CreateEntryResponse
  unfolding new_record
  create_entry ctx req = do
    entry ← deref req.cache_entry
    let provider = from_provider_v1 req.provider_type
    validate_owner ctx entry.owner provider
    platform ← deref req.platform
    let os = platform.operating_system
    let arch = platform.architecture
    let cache_id = build_cache_key entry.owner provider os arch entry.key
    (exists, _) ←
        on_error (internal_error "cache.v1.CacheService.CreateEntry internal error")
          (reads (exists_cache b cache_id))
    guard (not exists) (
        connect_error already_exists "cache.v1.CacheService.CreateEntry cache entry already exists")
    upload_id ← reads (λ w. ok (b.new_uuid w))
    instructs ← on_error (internal_error "cache.v1.CacheService.CreateEntry internal error") (
        generate_file_upload_instructions b bucket cache_id entry.sha256sum entry.compression
          entry.file_size)
    now ← reads (λ w. ok (b.now w))
    identity ← deref ctx
    let created =
        created_value entry.owner provider os arch entry.name entry.branch (b.format_rfc3339 now)
    let rec = new_record req.provider_type entry platform instructs.multipart_upload_id identity now
    on_error (internal_error "cache.v1.CacheService.CreateEntry internal error")
        (put_cache b upload_id created rec cache_record_inflight_ttl)
    pure (record {
      id = upload_id;
      multipart = instructs.multipart;
      upload_instructions = from_upload_instructions instructs.upload_instructions;
    })

  -- CompleteMultipartUpload, if the record has an upload ID
  unfoldable pub complete_upload :
      Text → Option Text → List Api.CachePartETag → Io b.World (Unit {0})
  complete_upload cache_id none etags = pure tt
  complete_upload cache_id (some upload_id) etags =
      on_error (internal_error "cache.v1.CacheService.UpdateEntry internal error") (
        b.complete_multipart_upload (record {
          bucket = bucket;
          key = cache_id;
          upload_id = some upload_id;
          parts = from_cache_part_etag_v1 etags;
        }))

  unfoldable pub update_entry : Api.UpdateEntryRequest → Io b.World Api.UpdateEntryResponse
  update_entry req = do
    (exists, rec) ←
        on_error (internal_error "cache.v1.CacheService.UpdateEntry internal error")
          (reads (exists_cache b req.id))
    guard exists
        (connect_error not_found "cache.v1.CacheService.UpdateEntry cache entry does not exist")
    let cache_id =
        build_cache_key rec.owner rec.provider rec.operating_system rec.architecture rec.key
    complete_upload cache_id rec.multipart_upload_id req.multipart_etags
    now ← reads (λ w. ok (b.now w))
    let created =
        created_value rec.owner rec.provider rec.operating_system rec.architecture rec.name
          rec.branch (b.format_rfc3339 now)
    on_error (internal_error "cache.v1.CacheService.UpdateEntry internal error")
        (put_cache b cache_id created (record rec { updated_at = now }) cache_record_ttl)
    pure (record { id = req.id })
