-- ===== src/Index.antt =====
-- internal/index/index.go: the records of the index, and when a tenant record is valid.
use zipstash.Base.{
  ℕ, Bool, false, not, ◌||◌, List, [], ◌∷◌, Option, none, Text, text_eq, if◌then◌else◌, Result, ok,
  err, message,
}
use zipstash.Keys.{github_actions_name, gitlab_name, buildkite_name}

pub record Identity : Type 0 where
  pub subject : Text
  pub issuer : Text
  pub audience : List Text

-- `updated_at` is the time in nanoseconds.
pub record CacheRecord : Type 0 where
  pub updated_at : ℕ
  pub multipart_upload_id : Option Text
  pub identity : Option Identity
  pub owner : Text
  pub paths : Text
  pub provider : Text
  pub key : Text
  pub name : Text
  pub branch : Text
  pub sha256 : Text
  pub compression : Text
  pub architecture : Text
  pub operating_system : Text
  pub file_size : ℕ
  pub cpu_count : ℕ

-- CacheRecord{}
abbrev pub empty_cache_record : CacheRecord
empty_cache_record = record {
  updated_at = 0;
  multipart_upload_id = none;
  identity = none;
  owner = [];
  paths = [];
  provider = [];
  key = [];
  name = [];
  branch = [];
  sha256 = [];
  compression = [];
  architecture = [];
  operating_system = [];
  file_size = 0;
  cpu_count = 0;
}

pub record TenantRecord : Type 0 where
  pub id : Text
  pub provider_type : Text
  pub owner : Text

-- ciauth.DefaultProviderNames
abbrev pub default_provider_names : List Text
default_provider_names = github_actions_name ∷ gitlab_name ∷ buildkite_name ∷ []

-- slices.Contains
unfoldable pub contains : List Text → Text → Bool
contains [] v = false
contains (x ∷ xs) v = text_eq v x || contains xs v

unfoldable pub validate : TenantRecord → Result (Unit {0})
validate r =
    if not (contains default_provider_names r.provider_type)
    then err (message "invalid provider_type")
    else if text_eq r.owner []
    then err (message "provider is required")
    else ok tt
