-- ===== src/CacheService/Get.antt =====
-- The handler GetEntry, with `existsInS3` and `existsWithFallback`.
pub mod Fallback
pub mod Stored
use zipstash.Base.{
  ℕ, Bool, true, false, [], Option, none, some, Text, if◌then◌else◌, Result, ok, err, crash, Err,
  wrap, connect_error, deref, guard, internal, not_found, errors_is, s3_not_found, Io, pure, reads,
  on_error, ◌>>=◌, ◌>>◌,
}
use zipstash.Keys.{from_provider_v1, build_cache_key, created_prefix}
use zipstash.Api
use zipstash.Index.{CacheRecord, empty_cache_record}
use zipstash.Backend.{Backend, HeadObjectOutput}
use zipstash.Store.{exists_cache, exists_cache_by_fallback_branch}
use zipstash.Presigner.{generate_file_download_instructions}
use zipstash.CiAuth.{OidcIdentity}
use zipstash.CacheService.Convert.{from_instruct_to_download_v1}
use zipstash.CacheService.Handlers.{validate_owner, internal_error}

-- aws.ToInt64
abbrev pub to_int64 : Option ℕ → ℕ
to_int64 none = 0
to_int64 (some n) = n

pub record ExistsWithFallbackResult : Type 0 where
  pub cache_id : Text
  pub rec : CacheRecord
  pub exists : Bool
  pub fallback : Bool

-- An object is there, is not there, or cannot be read.
head_result : Result HeadObjectOutput → Result (Bool × HeadObjectOutput)
head_result (ok res) = ok (true, res)
head_result (err e) =
    if errors_is e s3_not_found
    then ok (false, record { content_length = none; checksum_sha256 = none })
    else err e
head_result (crash c) = crash c

-- The key of the object that a record names.
abbrev pub record_key : CacheRecord → Text
record_key rec =
    build_cache_key rec.owner rec.provider rec.operating_system rec.architecture rec.key

fallback_result : Bool × CacheRecord → ExistsWithFallbackResult
fallback_result (true, rec) = record {
  cache_id = record_key rec;
  rec = rec;
  exists = true;
  fallback = true;
}
fallback_result (false, _) = record {
  cache_id = [];
  rec = empty_cache_record;
  exists = false;
  fallback = false;
}

module _ (b : Backend) (bucket : Text) where
  unfoldable pub exists_in_s3 : Text → b.World → Result (Bool × HeadObjectOutput)
  unfolding head_result
  exists_in_s3 s3key w = head_result (b.head_object bucket s3key w)

  -- The branch that is taken if there is no record under the key itself.
  look_for_fallback : Api.GetEntryRequest → Api.Platform → Io b.World ExistsWithFallbackResult
  unfolding fallback_result
  look_for_fallback req platform = do
    let prefix =
        created_prefix req.owner (from_provider_v1 req.provider_type) platform.operating_system
          platform.architecture req.name req.fallback_branch
    res ←
        on_error (wrap "failed to check fallback cache entry exists")
          (reads (exists_cache_by_fallback_branch b prefix))
    pure (fallback_result res)

  choose :
      Api.GetEntryRequest
      → Api.Platform
      → Text
      → Bool × CacheRecord
      → Io b.World ExistsWithFallbackResult
  choose req platform cache_id (true, rec) =
      pure (record { cache_id = cache_id; rec = rec; exists = true; fallback = false })
  choose req platform cache_id (false, _) = look_for_fallback req platform

  unfoldable pub exists_with_fallback : Api.GetEntryRequest → Io b.World ExistsWithFallbackResult
  unfolding look_for_fallback choose
  exists_with_fallback req = do
    platform ← deref req.platform
    let cache_id =
        build_cache_key req.owner (from_provider_v1 req.provider_type) platform.operating_system
          platform.architecture req.key
    res ← on_error (wrap "failed to check if cache entry exists") (reads (exists_cache b cache_id))
    choose req platform cache_id res

  unfoldable pub get_entry :
      Option OidcIdentity → Api.GetEntryRequest → Io b.World Api.GetEntryResponse
  get_entry ctx req = do
    validate_owner b bucket ctx req.owner (from_provider_v1 req.provider_type)
    entry ←
        on_error (internal_error "cache.v1.CacheService.GetEntry internal error")
          (exists_with_fallback req)
    guard entry.exists
        (connect_error not_found "cache.v1.CacheService.GetEntry cache entry does not exist")
    (exists, res) ←
        on_error (internal_error "cache.v1.CacheService.GetEntry internal error")
          (reads (exists_in_s3 entry.cache_id))
    guard exists (connect_error not_found "cache.v1.CacheService.GetEntry not found")
    instructs ← on_error (internal_error "cache.v1.CacheService.GetEntry internal error") (
        reads (
          generate_file_download_instructions b bucket entry.cache_id
            (to_int64 res.content_length)))
    let rec = entry.rec
    pure (record {
      cache_entry = record {
        key = entry.cache_id;
        file_size = to_int64 res.content_length;
        owner = [];
        name = rec.name;
        branch = rec.branch;
        compression = rec.compression;
        sha256sum = rec.sha256;
        paths = [];
      };
      multipart = instructs.multipart;
      fallback = entry.fallback;
      download_instructions = from_instruct_to_download_v1 instructs.download_instructions;
    })
