-- ===== src/Witnesses/Server.antt =====
-- The handlers on the table in memory.
use zipstash.Base.{
  ◌≡◌, refl, true, some, codes, text_eq, has_prefix, ok, on_error, reads, pure, ◌>>=◌,
}
use zipstash.Memory.{
  memory, insert, is_some, find, first_match, matches, is_text, begins_with, value_of,
}
use zipstash.Keys.{github_actions, from_provider_v1, tenant_key}
use zipstash.Index.{validate, contains}
use zipstash.Backend.Laws.{Holds, attribute}
use zipstash.Store.{put_tenant, exists_tenant_by_key, tenant_key_partition, by_tenant_key}
use zipstash.CacheService.Owner.{validate_owner_sound, validate_owner_found}
use zipstash.CacheService.Indexed.{IsIndexed, create_entry-IsIndexed, update_entry-IsIndexed}
use zipstash.CacheService.Get.Fallback.{Answered, get_entry-Answered}
use zipstash.Provision.{tenant_of, create_tenant}
use zipstash.Memory.Lawful.{memory_lawful}
use zipstash.Witnesses.World.{
  bucket, identity, tenant_request, platform, entry, create_request, start, run_create, create_ran,
  created_id, update_request, run_update, update_ran, checked, check_ran, stored, get_request,
  run_get, got, get_ran, start-IsIndexed, stored_plain, asks_plainly,
}
use zipstash.CacheService.Publish.{check_after_update}

check_after_update_example : checked ≡ record { exists = true; sha256sum = codes "ab" }
check_after_update_example =
    check_after_update memory bucket memory_lawful (some identity) (some identity) create_request
      entry platform update_request start run_create.1 run_create.1 run_update.1 run_update.1 refl
      refl create_ran created_id refl update_ran refl check_ran

stored-IsIndexed : IsIndexed (memory_lawful.cache_rows run_update.1)
stored-IsIndexed =
    update_entry-IsIndexed memory bucket memory_lawful update_request run_create.1 run_update.1
      (create_entry-IsIndexed memory bucket memory_lawful (some identity) create_request start
        run_create.1 start-IsIndexed create_ran)
      update_ran

get_entry-Answered_example :
    Answered (memory_lawful.cache_rows stored) get_request platform got × (run_get.1 ≡ stored)
get_entry-Answered_example =
    get_entry-Answered memory bucket memory_lawful (some identity) get_request platform stored
      run_get.1 stored-IsIndexed stored_plain asks_plainly refl get_ran

create_entry-IsIndexed_example : IsIndexed (memory_lawful.cache_rows run_create.1)
create_entry-IsIndexed_example =
    create_entry-IsIndexed memory bucket memory_lawful (some identity) create_request start
      run_create.1 start-IsIndexed create_ran

update_entry-IsIndexed_example : IsIndexed (memory_lawful.cache_rows run_update.1)
update_entry-IsIndexed_example =
    update_entry-IsIndexed memory bucket memory_lawful update_request run_create.1 run_update.1
      (create_entry-IsIndexed memory bucket memory_lawful (some identity) create_request start
        run_create.1 start-IsIndexed create_ran)
      update_ran

tenant_found :
    exists_tenant_by_key memory (tenant_key (from_provider_v1 github_actions) (codes "octo")) start
    ≡ ok (true, tenant_of tenant_request)
unfolding create_tenant validate contains put_tenant insert is_some find on_error reads pure ◌>>=◌
    codes text_eq from_provider_v1 exists_tenant_by_key first_match matches is_text begins_with
    attribute value_of tenant_key has_prefix
tenant_found = refl

validate_owner_sound_example :
    Holds
      (memory_lawful.tenant_rows start)
      tenant_key_partition
      (tenant_key (from_provider_v1 github_actions) (codes "octo"))
      by_tenant_key
      (tenant_of tenant_request)
    × (start ≡ start)
validate_owner_sound_example =
    validate_owner_sound memory bucket memory_lawful (some identity) (codes "octo")
      (from_provider_v1 github_actions)
      (validate_owner_found memory bucket identity (codes "octo") (from_provider_v1 github_actions)
        (tenant_of tenant_request) start tenant_found)
