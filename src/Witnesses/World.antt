-- ===== src/Witnesses/World.antt =====
-- The handlers on a table in memory with one tenant.
use zipstash.Base.{
  ℕ, ◌≡◌, refl, Bool, true, false, not, ◌&&◌, [], ◌∷◌, none, some, Text, codes, text_eq, has_prefix,
  Result, ok, err, crash, arith, on_error, reads, deref, guard, pure, ◌>>=◌, slt64, errors_is,
  Lacks, ltb, ltb→lt, ◌==◌,
}
use zipstash.GoStd.Strings.{join, split}
use zipstash.GoStd.CleanPath.{join_path, clean, clean_step}
use zipstash.GoStd.Query.{query_escape, escape_byte, is_unreserved}
use zipstash.Keys.{
  github_actions, from_provider_v1, build_cache_key, created_value, created_prefix, escape_value,
  tenant_key,
}
use zipstash.Api
use zipstash.Index.{CacheRecord, validate, contains}
use zipstash.Backend.Laws.{Row, attribute}
use zipstash.Store.{
  put_cache, exists_cache, exists_cache_by_fallback_branch, exists_tenant_by_key, put_tenant,
}
use zipstash.Presigner.{generate_file_upload_instructions, generate_file_download_instructions}
use zipstash.CiAuth.{OidcIdentity, no_claims}
use zipstash.CacheService.Handlers.{
  new_record, validate_owner, check_entry, create_entry, complete_upload, update_entry,
}
use zipstash.CacheService.Get.{get_entry, exists_with_fallback, exists_in_s3}
use zipstash.Provision.{create_tenant}
use zipstash.Memory.{
  find, value_at, is_some, insert, is_text, begins_with, matches, value_of, first_match,
  MemoryWorld, object_size, memory,
}
use zipstash.Memory.Lawful.{memory_lawful, find-All}
use zipstash.GoStd.Query.{AreBytes}
use zipstash.Keys.Created.{LackHash}
use zipstash.CacheService.Get.Fallback.{HasPlainFields, AsksPlainly}
use zipstash.CacheService.Indexed.{IsIndexed}
use zipstash.CacheService.Publish.{check_request}

abbrev pub bucket : Text
bucket = codes "cache"

abbrev pub identity : OidcIdentity
identity = record {
  provider = codes "github_actions";
  claims = no_claims;
  subject = codes "repo";
  issuer = codes "https://token.actions.githubusercontent.com";
}

abbrev pub tenant_request : Api.CreateTenantRequest
tenant_request = record { id = codes "t1"; provider_type = github_actions; slug = codes "octo" }

abbrev pub empty_world : MemoryWorld
empty_world = record { caches = []; tenants = []; clock = 0; objects = [] }

abbrev pub platform : Api.Platform
platform = record { architecture = codes "arm64"; operating_system = codes "linux"; cpu_count = 4 }

abbrev pub entry : Api.CacheEntry
entry = record {
  key = codes "k1";
  file_size = 10;
  owner = codes "octo";
  name = codes "app";
  branch = codes "main";
  compression = codes "zip";
  sha256sum = codes "ab";
  paths = codes "src" ∷ [];
}

abbrev pub create_request : Api.CreateEntryRequest
create_request = record {
  provider_type = github_actions;
  cache_entry = some entry;
  multipart_supported = true;
  platform = some platform;
}

abbrev pub value : {A : Type 0} → A → Result A → A
value d (ok a) = a
value d (err _) = d
value d (crash _) = d

abbrev pub run_tenant : Result Api.CreateTenantResponse × MemoryWorld
run_tenant = create_tenant memory tenant_request empty_world

pub tenant_ran :
    create_tenant memory tenant_request empty_world
    ≡ (ok (record { id = codes "t1" }), run_tenant.1)
unfolding create_tenant validate contains put_tenant insert is_some find on_error reads pure ◌>>=◌
    codes text_eq from_provider_v1
tenant_ran = refl

abbrev pub start : MemoryWorld
start = run_tenant.1

abbrev pub run_create : Result Api.CreateEntryResponse × MemoryWorld
run_create = create_entry memory bucket (some identity) create_request start

abbrev pub created : Api.CreateEntryResponse
created = value (record { id = []; upload_instructions = []; multipart = false }) run_create.0

pub create_ran :
    create_entry memory bucket (some identity) create_request start ≡ (ok created, run_create.1)
unfolding create_tenant validate contains put_tenant insert is_some find on_error reads pure ◌>>=◌
    codes text_eq from_provider_v1 create_entry deref guard validate_owner exists_tenant_by_key
    first_match matches is_text begins_with attribute value_of value_at tenant_key has_prefix
    exists_cache generate_file_upload_instructions put_cache slt64 errors_is build_cache_key
create_ran = refl

pub created_id : codes "upload-1" ≡ created.id
unfolding create_tenant validate contains put_tenant insert is_some find on_error reads pure ◌>>=◌
    codes text_eq from_provider_v1 create_entry deref guard validate_owner exists_tenant_by_key
    first_match matches is_text begins_with attribute value_of value_at tenant_key has_prefix
    exists_cache generate_file_upload_instructions put_cache slt64 errors_is build_cache_key
created_id = refl

abbrev pub update_request : Api.UpdateEntryRequest
update_request = record { id = codes "upload-1"; multipart_etags = [] }

abbrev pub run_update : Result Api.UpdateEntryResponse × MemoryWorld
run_update = update_entry memory bucket update_request run_create.1

pub update_ran :
    update_entry memory bucket update_request run_create.1
    ≡ (ok (record { id = codes "upload-1" }), run_update.1)
unfolding create_tenant validate contains put_tenant insert is_some find on_error reads pure ◌>>=◌
    codes text_eq from_provider_v1 create_entry deref guard validate_owner exists_tenant_by_key
    first_match matches is_text begins_with attribute value_of value_at tenant_key has_prefix
    exists_cache generate_file_upload_instructions put_cache slt64 errors_is update_entry
    complete_upload new_record
update_ran = refl

abbrev pub run_check : Result Api.CheckEntryResponse × MemoryWorld
run_check =
    check_entry memory bucket (some identity) (check_request create_request entry) run_update.1

abbrev pub checked : Api.CheckEntryResponse
checked = value (record { exists = false; sha256sum = [] }) run_check.0

pub check_ran :
    check_entry memory bucket (some identity) (check_request create_request entry) run_update.1
    ≡ (ok checked, run_check.1)
unfolding create_tenant validate contains put_tenant insert is_some find on_error reads pure ◌>>=◌
    codes text_eq from_provider_v1 create_entry deref guard validate_owner exists_tenant_by_key
    first_match matches is_text begins_with attribute value_of value_at tenant_key has_prefix
    exists_cache generate_file_upload_instructions put_cache slt64 errors_is update_entry
    complete_upload new_record check_entry build_cache_key join_path clean join split clean_step
check_ran = refl

abbrev pub stored : MemoryWorld
stored = record run_update.1 { objects = (codes "octo/github_actions/linux/arm64/k1", 10) ∷ [] }

-- The key is new, the branch is a fallback.
abbrev pub get_request : Api.GetEntryRequest
get_request = record {
  provider_type = github_actions;
  key = codes "k2";
  name = codes "app";
  branch = codes "topic";
  owner = codes "octo";
  fallback_branch = codes "main";
  platform = some platform;
}

abbrev pub run_get : Result Api.GetEntryResponse × MemoryWorld
run_get = get_entry memory bucket (some identity) get_request stored

abbrev pub got : Api.GetEntryResponse
got =
    value
      (record {
        cache_entry = entry;
        download_instructions = [];
        multipart = true;
        fallback = false;
      })
      run_get.0

pub get_ran : get_entry memory bucket (some identity) get_request stored ≡ (ok got, run_get.1)
unfolding create_tenant validate contains put_tenant insert is_some find on_error reads pure ◌>>=◌
    codes text_eq from_provider_v1 create_entry deref guard validate_owner exists_tenant_by_key
    first_match matches is_text begins_with attribute value_of value_at tenant_key has_prefix
    exists_cache generate_file_upload_instructions put_cache slt64 errors_is update_entry
    complete_upload new_record build_cache_key join_path clean join split clean_step get_entry
    exists_with_fallback exists_in_s3 exists_cache_by_fallback_branch
    generate_file_download_instructions object_size created_value created_prefix escape_value
    query_escape escape_byte is_unreserved
get_ran = refl

unfoldable pub no_byte : ℕ → Text → Bool
no_byte b [] = true
no_byte b (c ∷ s) = not (c == b) && no_byte b s

pub Lacks-if : (b : ℕ) (s : Text) → no_byte b s ≡ true → Lacks b s
unfolding no_byte
Lacks-if b [] h = tt
Lacks-if b (c ∷ s) h = (ground arith, Lacks-if b s (ground arith))

all_bytes : Text → Bool
all_bytes [] = true
all_bytes (c ∷ s) = ltb c 256 && all_bytes s

bytes_if : (s : Text) → all_bytes s ≡ true → AreBytes s
unfolding all_bytes
bytes_if [] h = tt
bytes_if (c ∷ s) h = (ltb→lt c 256 (ground arith), bytes_if s (ground arith))

pub octo_lacks :
    LackHash (codes "octo") (codes "github_actions") (codes "linux") (codes "arm64") (codes "app")
unfolding codes no_byte
octo_lacks = record {
  owner_lacks = Lacks-if 35 (codes "octo") refl;
  provider_lacks = Lacks-if 35 (codes "github_actions") refl;
  os_lacks = Lacks-if 35 (codes "linux") refl;
  arch_lacks = Lacks-if 35 (codes "arm64") refl;
  name_lacks = Lacks-if 35 (codes "app") refl;
}

pub main_bytes : AreBytes (codes "main")
unfolding codes all_bytes
main_bytes = bytes_if (codes "main") refl

pub asks_plainly : AsksPlainly get_request platform
unfolding from_provider_v1
asks_plainly = (octo_lacks, main_bytes)

pub stored_plain :
    (q k : Text) (row : Row CacheRecord)
    → find q k stored.caches ≡ some row
    → HasPlainFields row.value
unfolding create_tenant validate contains put_tenant insert is_some find on_error reads pure ◌>>=◌
    codes text_eq from_provider_v1 create_entry deref guard validate_owner exists_tenant_by_key
    first_match matches is_text begins_with attribute value_of value_at tenant_key has_prefix
    exists_cache generate_file_upload_instructions put_cache slt64 errors_is update_entry
    complete_upload new_record
stored_plain q k row at =
    find-All (λ r. HasPlainFields r.value) q k stored.caches
      ((octo_lacks, main_bytes), ((octo_lacks, main_bytes), tt)) at

pub start-IsIndexed : IsIndexed (memory_lawful.cache_rows start)
unfolding create_tenant validate contains put_tenant insert is_some find on_error reads pure ◌>>=◌
    codes text_eq from_provider_v1
start-IsIndexed q k row at = let e : none ≡ some row = at in cc
