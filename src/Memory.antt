-- ===== src/Memory.antt =====
-- A backend in memory that keeps the laws of internal/index/dynamodb.go's table and of S3: the
-- properties are run on it.
pub mod Lawful
use zipstash.Base.{
  ℕ, suc, Bool, true, false, not, ◌&&◌, List, [], ◌∷◌, Option, none, some, Text, codes, text_eq,
  has_prefix, if◌then◌else◌, Result, ok, err, crash, Err, sentinel, key_not_exists,
  conditional_check_failed, s3_not_found, Io,
}
use zipstash.Index.{CacheRecord, TenantRecord}
use zipstash.Backend.{
  Backend, Dynastore, WriteOptions, ReadOptions, HeadObjectOutput, PutObjectInput, UploadPartInput,
  GetObjectInput, CreateMultipartUploadInput, CompleteMultipartUploadInput,
}
use zipstash.Backend.Laws.{Row, attribute}

pub record Entry (V : Type 0) : Type 0 where
  pub p : Text
  pub k : Text
  pub row : Row V

unfoldable pub is_text : Option Text → Text → Bool
is_text none t = false
is_text (some s) t = text_eq s t

unfoldable pub begins_with : Option Text → Text → Bool
begins_with none t = false
begins_with (some s) t = has_prefix s t

module _ {V : Type 0} where
  -- the row that was written last
  unfoldable pub find : Text → Text → List (Entry V) → Option (Row V)
  find p k [] = none
  find p k (e ∷ es) =
      let rest = find p k es in if text_eq e.p p && text_eq e.k k then some e.row else rest

  unfoldable pub value_at : Option (Row V) → Result V
  value_at none = err (sentinel key_not_exists)
  value_at (some row) = ok row.value

  unfoldable pub is_some : Option (Row V) → Bool
  is_some none = false
  is_some (some _) = true

  unfoldable pub insert :
      Text → Text → V → WriteOptions → List (Entry V) → Result (Unit {0}) × List (Entry V)
  insert p k v o es =
      if not o.create_constraint_disabled && is_some (find p k es)
      then (err (sentinel conditional_check_failed), es)
      else (
        ok tt,
        record { p = p; k = k; row = record { value = v; extra_fields = o.extra_fields } } ∷ es,
      )

  unfoldable pub remove : Text → Text → List (Entry V) → List (Entry V)
  remove p k [] = []
  remove p k (e ∷ es) =
      let rest = remove p k es in if text_eq e.p p && text_eq e.k k then rest else e ∷ rest

  unfoldable pub matches : Text → Text → ReadOptions → Text → Text → Option (Row V) → Bool
  matches partition prefix o p k none = false
  matches partition prefix o p k (some row) =
      is_text (attribute p k row o.partition_attribute) partition
      && begins_with (attribute p k row o.sort_attribute) prefix

  unfoldable pub value_of : Option (Row V) → List V
  value_of none = []
  value_of (some row) = row.value ∷ []

  -- The first entry whose row matches; all are looked up in the whole table.
  unfoldable pub first_match : Text → Text → ReadOptions → List (Entry V) → List (Entry V) → List V
  first_match partition prefix o all [] = []
  first_match partition prefix o all (e ∷ es) =
      let rest = first_match partition prefix o all es in
      if matches partition prefix o e.p e.k (find e.p e.k all)
      then value_of (find e.p e.k all)
      else rest

pub record MemoryWorld : Type 0 where
  pub caches : List (Entry CacheRecord)
  pub tenants : List (Entry TenantRecord)
  pub clock : ℕ
  pub objects : List (Text × ℕ)

abbrev pub on_caches :
    MemoryWorld → Result (Unit {0}) × List (Entry CacheRecord) → Result (Unit {0}) × MemoryWorld
on_caches w (r, es) = (r, record w { caches = es; clock = suc w.clock })

abbrev pub on_tenants :
    MemoryWorld → Result (Unit {0}) × List (Entry TenantRecord) → Result (Unit {0}) × MemoryWorld
on_tenants w (r, es) = (r, record w { tenants = es; clock = suc w.clock })

unfoldable pub object_size : Text → List (Text × ℕ) → Result HeadObjectOutput
object_size key [] = err (sentinel s3_not_found)
object_size key ((k, n) ∷ os) =
    let rest = object_size key os in
    if text_eq k key then ok (record { content_length = some n; checksum_sha256 = none }) else rest

abbrev pub memory : Backend
memory = record {
  World = MemoryWorld;
  now = λ w. w.clock;
  format_rfc3339 = λ t. codes "2025-01-01T00:00:00Z";
  new_uuid = λ w. codes "upload-1";
  cache_store = record {
    get = λ p k w. value_at (find p k w.caches);
    create = λ p k v o w. on_caches w (insert p k v o w.caches);
    delete = λ p k w. on_caches w (ok tt, remove p k w.caches);
    list_by_sort_key_prefix = λ p prefix o w. ok (first_match p prefix o w.caches w.caches);
  };
  tenant_store = record {
    get = λ p k w. value_at (find p k w.tenants);
    create = λ p k v o w. on_tenants w (insert p k v o w.tenants);
    delete = λ p k w. on_tenants w (ok tt, remove p k w.tenants);
    list_by_sort_key_prefix = λ p prefix o w. ok (first_match p prefix o w.tenants w.tenants);
  };
  presign_put_object = λ i t w. ok i.key;
  presign_upload_part = λ i t w. ok (b'?' ∷ i.key);
  presign_get_object = λ i t w. ok i.key;
  create_multipart_upload = λ i w. (ok (some (codes "part-upload-1")), w);
  complete_multipart_upload = λ i w. (ok tt, w);
  head_object = λ bucket key w. object_size key w.objects;
}
