-- ===== src/Witnesses/Refusals.antt =====
-- The early ends of the handlers, on the table in memory.
use zipstash.Base.{
  ◌&&◌, Text, Result, ◌≡◌, ◌≢◌, refl, sym, ap, true, false, [], ◌∷◌, ◌++◌, none, some, codes,
  text_eq, text_eq_refl, has_prefix, ok, err, crash, panic, connect_error, already_exists,
  permission_denied, on_error, reads, pure, ◌>>=◌, deref, guard, slt64, errors_is,
}
use zipstash.GoStd.CleanPath.{join_path, clean, clean_step}
use zipstash.GoStd.Strings.{join, split}
use zipstash.Keys.{github_actions, from_provider_v1, tenant_key, build_cache_key}
use zipstash.Api
use zipstash.Index.{TenantRecord, CacheRecord, empty_cache_record, validate, contains}
use zipstash.Backend.Laws.{Row, attribute}
use zipstash.Store.{
  put_tenant, put_cache, exists_cache, exists_tenant_by_key, tenant_partition, cache_partition,
  empty_tenant_record,
}
use zipstash.Presigner.{generate_file_upload_instructions}
use zipstash.CacheService.Handlers.{
  new_record, validate_owner, check_entry, create_entry, complete_upload, update_entry,
}
use zipstash.CacheService.Get.{record_key, get_entry}
use zipstash.CacheService.Owner.{handlers_denied, validate_owner_any_prefix, IsTenantRow, IsUnknown}
use zipstash.CacheService.Outcomes.{IsKnown, no_platform_panics, update_entry_only}
use zipstash.CacheService.Lifecycle.{entry_key}
use zipstash.CacheService.Publish.{check_request}
use zipstash.CacheService.Visible.{check_before_update, create_again}
use zipstash.Provision.{tenant_of, create_tenant}
use zipstash.Memory.{
  MemoryWorld, memory, insert, is_some, find, first_match, matches, is_text, begins_with, value_of,
  value_at,
}
use zipstash.Memory.Lawful.{memory-IsFollowed, memory_lawful}
use zipstash.Witnesses.World.{
  created, created_id, create_ran, bucket, identity, tenant_request, empty_world, platform, entry,
  create_request, start, run_create, update_request, run_update, update_ran, get_request, value,
}

octo-IsKnown : IsKnown memory github_actions (codes "octo") start
unfolding create_tenant validate contains put_tenant insert is_some find on_error reads pure ◌>>=◌
    codes text_eq from_provider_v1 create_entry deref guard validate_owner exists_tenant_by_key
    first_match matches is_text begins_with attribute value_of value_at tenant_key has_prefix
    exists_cache generate_file_upload_instructions put_cache slt64 errors_is update_entry
    complete_upload new_record
octo-IsKnown = (tenant_of tenant_request, refl)

octo-IsKnown_later : IsKnown memory github_actions (codes "octo") run_update.1
unfolding create_tenant validate contains put_tenant insert is_some find on_error reads pure ◌>>=◌
    codes text_eq from_provider_v1 create_entry deref guard validate_owner exists_tenant_by_key
    first_match matches is_text begins_with attribute value_of value_at tenant_key has_prefix
    exists_cache generate_file_upload_instructions put_cache slt64 errors_is update_entry
    complete_upload new_record
octo-IsKnown_later = (tenant_of tenant_request, refl)

abbrev kept : CacheRecord
kept =
    (value (false, empty_cache_record)
      (exists_cache memory (entry_key github_actions entry platform) run_update.1)).1

is_kept :
    exists_cache memory (entry_key github_actions entry platform) run_update.1 ≡ ok (true, kept)
unfolding create_tenant validate contains put_tenant insert is_some find on_error reads pure ◌>>=◌
    codes text_eq from_provider_v1 create_entry deref guard validate_owner exists_tenant_by_key
    first_match matches is_text begins_with attribute value_of value_at tenant_key has_prefix
    exists_cache generate_file_upload_instructions put_cache slt64 errors_is update_entry
    complete_upload new_record build_cache_key join_path clean join split clean_step
is_kept = refl

create_again_example : create_entry memory bucket (some identity) create_request run_update.1 ≡ (
  err (connect_error already_exists "cache.v1.CacheService.CreateEntry cache entry already exists"),
  run_update.1,
)
create_again_example =
    create_again memory bucket memory_lawful (some identity) identity create_request entry platform
      update_request start run_create.1 run_create.1 run_update.1 run_update.1 refl refl create_ran
      created_id refl update_ran refl octo-IsKnown_later is_kept

abbrev early : Result Api.CheckEntryResponse × MemoryWorld
early = check_entry memory bucket (some identity) (check_request create_request entry) run_create.1

abbrev seen : Api.CheckEntryResponse
seen = value (record { exists = true; sha256sum = [] }) early.0

early_ran :
    check_entry memory bucket (some identity) (check_request create_request entry) run_create.1
    ≡ (ok seen, early.1)
unfolding create_tenant validate contains put_tenant insert is_some find on_error reads pure ◌>>=◌
    codes text_eq from_provider_v1 create_entry deref guard validate_owner exists_tenant_by_key
    first_match matches is_text begins_with attribute value_of value_at tenant_key has_prefix
    exists_cache generate_file_upload_instructions put_cache slt64 errors_is update_entry
    complete_upload new_record check_entry build_cache_key join_path clean join split clean_step
early_ran = refl

id_is_no_key : created.id ≢ entry_key github_actions entry platform
unfolding create_tenant validate contains put_tenant insert is_some find on_error reads pure ◌>>=◌
    codes text_eq from_provider_v1 create_entry deref guard validate_owner exists_tenant_by_key
    first_match matches is_text begins_with attribute value_of value_at tenant_key has_prefix
    exists_cache generate_file_upload_instructions put_cache slt64 errors_is update_entry
    complete_upload new_record check_entry build_cache_key join_path clean join split clean_step
id_is_no_key e = let t : true ≡ false = ap (λ k. text_eq (codes "upload-1") k) e in cc

check_before_update_example : seen.exists ≡ false
check_before_update_example =
    check_before_update memory bucket memory_lawful (some identity) (some identity) create_request
      entry platform start run_create.1 run_create.1 refl refl create_ran id_is_no_key refl
      early_ran

abbrev no_platform_check : Api.CheckEntryRequest
no_platform_check = record (check_request create_request entry) { platform = none }

abbrev no_platform_create : Api.CreateEntryRequest
no_platform_create = record create_request { platform = none }

abbrev no_platform_get : Api.GetEntryRequest
no_platform_get = record get_request { platform = none }

no_platform_panics_example :
    (check_entry memory bucket (some identity) no_platform_check start ≡ (crash panic, start))
    × (create_entry memory bucket (some identity) no_platform_create start ≡ (crash panic, start))
    × (get_entry memory bucket (some identity) no_platform_get start ≡ (crash panic, start))
no_platform_panics_example =
    no_platform_panics memory bucket identity no_platform_check no_platform_create entry
      no_platform_get start refl refl refl refl octo-IsKnown octo-IsKnown octo-IsKnown

abbrev in_flight : CacheRecord
in_flight =
    (value (false, empty_cache_record) (exists_cache memory update_request.id run_create.1)).1

is_in_flight : exists_cache memory (codes "upload-1") run_create.1 ≡ ok (true, in_flight)
unfolding create_tenant validate contains put_tenant insert is_some find on_error reads pure ◌>>=◌
    codes text_eq from_provider_v1 create_entry deref guard validate_owner exists_tenant_by_key
    first_match matches is_text begins_with attribute value_of value_at tenant_key has_prefix
    exists_cache generate_file_upload_instructions put_cache slt64 errors_is update_entry
    complete_upload new_record
is_in_flight = refl

other_key : codes "upload-1" ≢ record_key in_flight
unfolding create_tenant validate contains put_tenant insert is_some find on_error reads pure ◌>>=◌
    codes text_eq from_provider_v1 create_entry deref guard validate_owner exists_tenant_by_key
    first_match matches is_text begins_with attribute value_of value_at tenant_key has_prefix
    exists_cache generate_file_upload_instructions put_cache slt64 errors_is update_entry
    complete_upload new_record build_cache_key join_path clean join split clean_step
other_key e =
    let same = sym (text_eq_refl (codes "upload-1")) in
    let t : true ≡ false = ap (λ k. text_eq (codes "upload-1") k) e in cc

update_entry_only_example :
    ((v : MemoryWorld) × (row : Row CacheRecord) × (memory_lawful.cache_rows run_update.1
          cache_partition
          (record_key in_flight)
        ≡ some row)
      × (row.value ≡ record in_flight { updated_at = memory.now v }))
    × ((q k : Text)
        → (text_eq cache_partition q && text_eq (record_key in_flight) k) ≡ false
        → memory_lawful.cache_rows run_update.1 q k ≡ memory_lawful.cache_rows run_create.1 q k)
update_entry_only_example =
    update_entry_only memory bucket memory_lawful update_request in_flight run_create.1 run_update.1
      is_in_flight update_ran

IsUnknown-octo : IsUnknown memory bucket github_actions (codes "octo") empty_world
unfolding create_tenant validate contains put_tenant insert is_some find on_error reads pure ◌>>=◌
    codes text_eq from_provider_v1 create_entry deref guard validate_owner exists_tenant_by_key
    first_match matches is_text begins_with attribute value_of value_at tenant_key has_prefix
    exists_cache generate_file_upload_instructions put_cache slt64 errors_is update_entry
    complete_upload new_record
IsUnknown-octo = (empty_tenant_record, refl)

handlers_denied_example :
    (check_entry memory bucket (some identity) (check_request create_request entry) empty_world ≡ (
      err (connect_error permission_denied "cache.v1.CacheService permission denied"),
      empty_world,
    ))
    × (create_entry memory bucket (some identity) create_request empty_world ≡ (
      err (connect_error permission_denied "cache.v1.CacheService permission denied"),
      empty_world,
    ))
    × (get_entry memory bucket (some identity) get_request empty_world ≡ (
      err (connect_error permission_denied "cache.v1.CacheService permission denied"),
      empty_world,
    ))
handlers_denied_example =
    handlers_denied memory bucket identity empty_world (check_request create_request entry)
      create_request entry get_request refl IsUnknown-octo IsUnknown-octo IsUnknown-octo

-- The row of the tenant "octo", and the name "oct", which is no tenant.
abbrev octo_row : Row TenantRecord
octo_row = record {
  value = tenant_of tenant_request;
  extra_fields =
      (codes "created", codes "2025-01-01T00:00:00Z")
      ∷ (codes "pk1", codes "tenant#key")
      ∷ (codes "sk1", tenant_key (codes "github_actions") (codes "octo"))
      ∷ [];
}

octo_stored : memory_lawful.tenant_rows start tenant_partition (codes "t1") ≡ some octo_row
unfolding create_tenant validate contains put_tenant insert is_some find on_error reads pure ◌>>=◌
    codes text_eq from_provider_v1 create_entry deref guard validate_owner exists_tenant_by_key
    first_match matches is_text begins_with attribute value_of value_at tenant_key has_prefix
    exists_cache generate_file_upload_instructions put_cache slt64 errors_is update_entry
    complete_upload new_record
octo_stored = refl

octo_is_row :
    IsTenantRow memory bucket
      (codes "github_actions")
      (codes "oct" ++ codes "o")
      tenant_partition
      (codes "t1")
      octo_row
unfolding attribute text_eq codes
octo_is_row = record { in_partition = refl; sorted_by = refl }

oct_answers :
    exists_tenant_by_key memory (tenant_key (codes "github_actions") (codes "oct")) start
    ≡ ok (true, tenant_of tenant_request)
unfolding create_tenant validate contains put_tenant insert is_some find on_error reads pure ◌>>=◌
    codes text_eq from_provider_v1 create_entry deref guard validate_owner exists_tenant_by_key
    first_match matches is_text begins_with attribute value_of value_at tenant_key has_prefix
    exists_cache generate_file_upload_instructions put_cache slt64 errors_is update_entry
    complete_upload new_record
oct_answers = refl

validate_owner_any_prefix_example :
    (rec : TenantRecord) × (validate_owner memory bucket
        (some identity)
        (codes "oct")
        (codes "github_actions")
        start
      ≡ (ok rec, start))
validate_owner_any_prefix_example =
    validate_owner_any_prefix memory bucket memory_lawful identity (codes "oct") (codes "o")
      (codes "github_actions") tenant_partition (codes "t1") octo_row start octo_stored octo_is_row
      (memory-IsFollowed start) oct_answers
