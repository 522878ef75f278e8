-- ===== src/Api.antt =====
-- The messages of api/cache/v1 and api/provision/v1, as api/gen declares them. A pointer to a
-- message may be nil, which is `none`.
use zipstash.Base.{ℕ, Bool, Option, List, Text}
use zipstash.Keys.{Provider}

pub record Platform : Type 0 where
  pub architecture : Text
  pub operating_system : Text
  pub cpu_count : ℕ

pub record CacheEntry : Type 0 where
  pub key : Text
  pub file_size : ℕ
  pub owner : Text
  pub name : Text
  pub branch : Text
  pub compression : Text
  pub sha256sum : Text
  pub paths : List Text

pub record Offset : Type 0 where
  pub part : ℕ
  pub start : ℕ
  pub end : ℕ

pub record CacheUploadInstruction : Type 0 where
  pub url : Text
  pub method : Text
  pub offset : Option Offset

pub record CacheDownloadInstruction : Type 0 where
  pub url : Text
  pub method : Text
  pub offset : Option Offset

pub record CachePartETag : Type 0 where
  pub part : ℕ
  pub etag : Text
  pub part_size : ℕ

pub record CreateEntryRequest : Type 0 where
  pub provider_type : Provider
  pub cache_entry : Option CacheEntry
  pub multipart_supported : Bool
  pub platform : Option Platform

pub record CreateEntryResponse : Type 0 where
  pub id : Text
  pub upload_instructions : List CacheUploadInstruction
  pub multipart : Bool

pub record UpdateEntryRequest : Type 0 where
  pub id : Text
  pub multipart_etags : List CachePartETag

pub record UpdateEntryResponse : Type 0 where
  pub id : Text

pub record GetEntryRequest : Type 0 where
  pub provider_type : Provider
  pub key : Text
  pub name : Text
  pub branch : Text
  pub owner : Text
  pub fallback_branch : Text
  pub platform : Option Platform

pub record GetEntryResponse : Type 0 where
  pub cache_entry : CacheEntry
  pub download_instructions : List CacheDownloadInstruction
  pub multipart : Bool
  pub fallback : Bool

pub record CheckEntryRequest : Type 0 where
  pub provider_type : Provider
  pub key : Text
  pub name : Text
  pub branch : Text
  pub owner : Text
  pub platform : Option Platform

pub record CheckEntryResponse : Type 0 where
  pub exists : Bool
  pub sha256sum : Text

pub record CreateTenantRequest : Type 0 where
  pub id : Text
  pub provider_type : Provider
  pub slug : Text

pub record CreateTenantResponse : Type 0 where
  pub id : Text

pub record GetTenantRequest : Type 0 where
  pub id : Text

pub record GetTenantResponse : Type 0 where
  pub id : Text
  pub slug : Text
