-- ===== src/Backend.antt =====
-- What the server calls and does not implement: the dynastorev2 store over DynamoDB, S3, the clock
-- and the generator of identifiers. A read is a function of the world; an operation that writes
-- returns the new world too.
pub mod Laws
use zipstash.Base.{ℕ, Bool, Option, List, Text, Result, Io}
use zipstash.Index.{CacheRecord, TenantRecord}

-- The write options that internal/index/dynamodb.go passes to `Create`.
pub record WriteOptions : Type 0 where
  pub create_constraint_disabled : Bool
  pub ttl_seconds : Option ℕ
  pub extra_fields : List (Text × Text)

-- The read options that it passes to `ListBySortKeyPrefix`: the index with its two attributes.
pub record ReadOptions : Type 0 where
  pub limit : ℕ
  pub reverse : Bool
  pub index : Text
  pub partition_attribute : Text
  pub sort_attribute : Text

-- dynastorev2.Store: keys are a partition and a sort key.
pub record Dynastore (World V : Type 0) : Type 0 where
  pub get : Text → Text → World → Result V
  pub create : Text → Text → V → WriteOptions → Io World (Unit {0})
  pub delete : Text → Text → Io World (Unit {0})
  pub list_by_sort_key_prefix : Text → Text → ReadOptions → World → Result (List V)

pub record PutObjectInput : Type 0 where
  pub bucket : Text
  pub key : Text
  pub checksum_sha256 : Text
  pub content_type : Text

pub record UploadPartInput : Type 0 where
  pub bucket : Text
  pub key : Text
  pub part_number : ℕ
  pub upload_id : Option Text
  pub checksum_sha256 : Text

pub record GetObjectInput : Type 0 where
  pub bucket : Text
  pub key : Text
  pub range : Option Text

pub record CreateMultipartUploadInput : Type 0 where
  pub bucket : Text
  pub key : Text
  pub content_type : Text

pub record CompletedPart : Type 0 where
  pub etag : Text
  pub part_number : ℕ

pub record CompleteMultipartUploadInput : Type 0 where
  pub bucket : Text
  pub key : Text
  pub upload_id : Option Text
  pub parts : List CompletedPart

pub record HeadObjectOutput : Type 0 where
  pub content_length : Option ℕ
  pub checksum_sha256 : Option Text

-- The presigned requests take the seconds after which they expire, and give a URL.
pub record Backend : Type 1 where
  pub World : Type 0
  pub now : World → ℕ
  pub format_rfc3339 : ℕ → Text
  pub new_uuid : World → Text
  pub cache_store : Dynastore World CacheRecord
  pub tenant_store : Dynastore World TenantRecord
  pub presign_put_object : PutObjectInput → ℕ → World → Result Text
  pub presign_upload_part : UploadPartInput → ℕ → World → Result Text
  pub presign_get_object : GetObjectInput → ℕ → World → Result Text
  pub create_multipart_upload : CreateMultipartUploadInput → Io World (Option Text)
  pub complete_multipart_upload : CompleteMultipartUploadInput → Io World (Unit {0})
  pub head_object : Text → Text → World → Result HeadObjectOutput
