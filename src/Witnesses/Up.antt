-- ===== src/Witnesses/Up.antt =====
-- The table in memory answers every call, so the handlers return.
use zipstash.Base.{
  ◌∷◌, ◌≡◌, refl, true, false, ◌⊎◌, inl, inr, Option, none, some, Text, codes, text_eq, has_prefix,
  ok, err, Err, errors_is, key_not_exists, on_error, reads, deref, guard, pure, ◌>>=◌, slt64, arith,
}
use zipstash.GoStd.CleanPath.{join_path, clean, clean_step}
use zipstash.GoStd.Strings.{join, split}
use zipstash.Keys.{github_actions, from_provider_v1, tenant_key, build_cache_key}
use zipstash.Index.{CacheRecord, empty_cache_record, validate, contains}
use zipstash.Backend.{WriteOptions}
use zipstash.Backend.Laws.{Row, attribute}
use zipstash.Store.{put_tenant, put_cache, exists_cache, exists_tenant_by_key}
use zipstash.Presigner.{generate_file_upload_instructions}
use zipstash.CacheService.Handlers.{
  new_record, validate_owner, check_entry, create_entry, complete_upload, update_entry,
}
use zipstash.CacheService.Lifecycle.{entry_key}
use zipstash.CacheService.Outcomes.{IsKnown}
use zipstash.CacheService.Publish.{check_request}
use zipstash.CacheService.Returns.{IsUp, Returned, handlers_return}
use zipstash.Provision.{tenant_of, create_tenant}
use zipstash.Memory.{
  MemoryWorld, memory, insert, is_some, find, first_match, matches, is_text, begins_with, value_of,
  value_at, on_caches,
}
use zipstash.Witnesses.World.{
  bucket, identity, tenant_request, platform, entry, create_request, run_create, update_request,
  value,
}

answers :
    (r : Option (Row CacheRecord))
    → ((v : CacheRecord) × (value_at r ≡ ok v))
      ⊎ ((e : Err) × (value_at r ≡ err e) × (errors_is e key_not_exists ≡ true))
unfolding value_at errors_is
answers none = inr (_, refl, refl)
answers (some row) = inl (row.value, refl)

writes :
    (p k : Text) (v : CacheRecord) (o : WriteOptions) (w : MemoryWorld)
    → o.create_constraint_disabled ≡ true
    → (w' : MemoryWorld) × (on_caches w (insert p k v o w.caches) ≡ (ok tt, w'))
unfolding insert
writes p k v o w h = rw h (_, refl)

memory_up : IsUp memory
memory_up = record {
  gets = λ p k w. answers (find p k w.caches);
  creates = writes;
  presigns_put = λ i t w. (i.key, refl);
  presigns_part = λ i t w. (b'?' ∷ i.key, refl);
  creates_multipart = λ i w. (_, w, refl);
  completes_multipart = λ i w. (w, refl);
}

known : IsKnown memory github_actions (codes "octo") run_create.1
unfolding create_tenant validate contains put_tenant insert is_some find on_error reads pure ◌>>=◌
    codes text_eq from_provider_v1 create_entry deref guard validate_owner exists_tenant_by_key
    first_match matches is_text begins_with attribute value_of value_at tenant_key has_prefix
    exists_cache generate_file_upload_instructions put_cache slt64 errors_is update_entry
    complete_upload new_record
known = (tenant_of tenant_request, refl)

not_yet :
    exists_cache memory (entry_key github_actions entry platform) run_create.1
    ≡ ok (false, empty_cache_record)
unfolding create_tenant validate contains put_tenant insert is_some find on_error reads pure ◌>>=◌
    codes text_eq from_provider_v1 create_entry deref guard validate_owner exists_tenant_by_key
    first_match matches is_text begins_with attribute value_of value_at tenant_key has_prefix
    exists_cache generate_file_upload_instructions put_cache slt64 errors_is update_entry
    complete_upload new_record build_cache_key join_path clean join split clean_step
not_yet = refl

abbrev in_flight : CacheRecord
in_flight =
    (value (false, empty_cache_record) (exists_cache memory update_request.id run_create.1)).1

is_in_flight : exists_cache memory (codes "upload-1") run_create.1 ≡ ok (true, in_flight)
unfolding create_tenant validate contains put_tenant insert is_some find on_error reads pure ◌>>=◌
    codes text_eq from_provider_v1 create_entry deref guard validate_owner exists_tenant_by_key
    first_match matches is_text begins_with attribute value_of value_at tenant_key has_prefix
    exists_cache generate_file_upload_instructions put_cache slt64 errors_is update_entry
    complete_upload new_record
is_in_flight = refl

handlers_return_example :
    Returned
      (check_entry memory bucket (some identity) (check_request create_request entry) run_create.1)
    × Returned (create_entry memory bucket (some identity) create_request run_create.1)
    × Returned (update_entry memory bucket update_request run_create.1)
handlers_return_example =
    handlers_return memory bucket memory_up identity (check_request create_request entry)
      create_request update_request entry platform platform empty_cache_record in_flight
      run_create.1 refl known refl refl (omega arith) known not_yet is_in_flight
