-- ===== src/Store.antt =====
-- internal/index/dynamodb.go: the operations of `Store` over the two dynastorev2 stores.
pub mod Lookup
pub mod Table
use zipstash.Base.{
  ℕ, Bool, true, false, List, [], ◌∷◌, Option, none, some, Text, codes, if◌then◌else◌, Result, ok,
  err, crash, Err, String, sentinel, wrap, errors_is, err_not_found, err_already_exists,
  key_not_exists, conditional_check_failed, map_err, Io, on_error,
}
use zipstash.Keys.{tenant_key}
use zipstash.Index.{CacheRecord, TenantRecord, empty_cache_record}
use zipstash.Backend.{Backend, Dynastore, WriteOptions, ReadOptions}

abbrev pub cache_partition : Text
cache_partition = codes "cache"

abbrev pub tenant_partition : Text
tenant_partition = codes "tenant"

abbrev pub tenant_key_partition : Text
tenant_key_partition = codes "tenant#key"

abbrev pub empty_tenant_record : TenantRecord
empty_tenant_record = record { id = []; provider_type = []; owner = [] }

-- "created" in idx_created, newest first
abbrev pub by_created : ReadOptions
by_created = record {
  limit = 1;
  reverse = true;
  index = codes "idx_created";
  partition_attribute = codes "id";
  sort_attribute = codes "created";
}

-- "sk1" in idx_global_1
abbrev pub by_tenant_key : ReadOptions
by_tenant_key = record {
  limit = 1;
  reverse = false;
  index = codes "idx_global_1";
  partition_attribute = codes "pk1";
  sort_attribute = codes "sk1";
}

-- What PutCache passes to `Create`.
abbrev pub cache_options : Text → CacheRecord → ℕ → WriteOptions
cache_options created value lifetime = record {
  create_constraint_disabled = true;
  ttl_seconds = some lifetime;
  extra_fields =
      (codes "created", created)
      ∷ (codes "pk1", codes "cache#owner")
      ∷ (codes "sk1", tenant_key value.provider value.owner)
      ∷ [];
}

-- What PutTenant passes to `Create`.
abbrev pub tenant_options : Text → TenantRecord → WriteOptions
tenant_options created value = record {
  create_constraint_disabled = false;
  ttl_seconds = none;
  extra_fields =
      (codes "created", created)
      ∷ (codes "pk1", tenant_key_partition)
      ∷ (codes "sk1", tenant_key value.provider_type value.owner)
      ∷ [];
}

get_error : String → Err → Err
get_error text e = if errors_is e key_not_exists then sentinel err_not_found else wrap text e

put_tenant_error : Err → Err
put_tenant_error e =
    if errors_is e conditional_check_failed
    then wrap "tenant already exists" (sentinel err_already_exists)
    else wrap "failed to put cache record" e

-- A record is there, is not there, or cannot be read.
found : Result CacheRecord → Result (Bool × CacheRecord)
found (ok r) = ok (true, r)
found (err e) =
    if errors_is e key_not_exists
    then ok (false, empty_cache_record)
    else err (wrap "failed to get cache record" e)
found (crash c) = crash c

first_cache : Result (List CacheRecord) → Result (Bool × CacheRecord)
first_cache (ok []) = ok (false, empty_cache_record)
first_cache (ok (r ∷ _)) = ok (true, r)
first_cache (err e) = err (wrap "failed to list tenants" e)
first_cache (crash c) = crash c

first_tenant : Result (List TenantRecord) → Result (Bool × TenantRecord)
first_tenant (ok []) = ok (false, empty_tenant_record)
first_tenant (ok (r ∷ _)) = ok (true, r)
first_tenant (err e) = err (wrap "failed to list tenants" e)
first_tenant (crash c) = crash c

module _ (b : Backend) where
  unfoldable pub get_cache : Text → b.World → Result CacheRecord
  unfolding get_error
  get_cache id w =
      map_err (get_error "failed to get cache record") (b.cache_store.get cache_partition id w)

  unfoldable pub exists_cache : Text → b.World → Result (Bool × CacheRecord)
  unfolding found
  exists_cache id w = found (b.cache_store.get cache_partition id w)

  unfoldable pub exists_cache_by_fallback_branch : Text → b.World → Result (Bool × CacheRecord)
  unfolding first_cache
  exists_cache_by_fallback_branch created_prefix w =
      first_cache
        (b.cache_store.list_by_sort_key_prefix cache_partition created_prefix by_created w)

  unfoldable pub put_cache : Text → Text → CacheRecord → ℕ → Io b.World (Unit {0})
  put_cache id created value lifetime =
      on_error (wrap "failed to put cache record")
        (b.cache_store.create cache_partition id value (cache_options created value lifetime))

  unfoldable pub delete_cache : Text → Io b.World (Unit {0})
  delete_cache id =
      on_error (wrap "failed to delete cache record") (b.cache_store.delete cache_partition id)

  unfoldable pub get_tenant : Text → b.World → Result TenantRecord
  unfolding get_error
  get_tenant id w =
      map_err (get_error "failed to get tenant record") (b.tenant_store.get tenant_partition id w)

  unfoldable pub put_tenant : Text → TenantRecord → Io b.World (Unit {0})
  unfolding put_tenant_error
  put_tenant id value w =
      on_error put_tenant_error
        (b.tenant_store.create tenant_partition id value
          (tenant_options (b.format_rfc3339 (b.now w)) value))
        w

  unfoldable pub exists_tenant_by_key : Text → b.World → Result (Bool × TenantRecord)
  unfolding first_tenant
  exists_tenant_by_key key w =
      first_tenant (b.tenant_store.list_by_sort_key_prefix tenant_key_partition key by_tenant_key w)
