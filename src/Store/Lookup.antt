-- ===== src/Store/Lookup.antt =====
-- What a lookup through `Store` says of the rows, where dynastorev2 keeps its laws.
use zipstash.Base.{
  if◌then◌else◌, inl, inr, Bool, ◌∙◌, ap, ◌⊎◌, wrap, ◌≡◌, refl, true, false, List, [], ◌∷◌, none,
  some, Text, arith, Result, ok, err, crash, Err, errors_is, key_not_exists,
}
use zipstash.Index.{CacheRecord, TenantRecord, empty_cache_record}
use zipstash.Backend.{Backend}
use zipstash.Backend.Laws.{Row, Holds, IsMatch, IsFollowed, IsLawful}
use zipstash.Store.{
  found, first_cache, first_tenant, exists_cache, exists_cache_by_fallback_branch,
  exists_tenant_by_key, cache_partition, tenant_key_partition, by_created, by_tenant_key,
}

found-true : (r : Result CacheRecord) {v : CacheRecord} → found r ≡ ok (true, v) → r ≡ ok v
unfolding found
found-true (ok v) h = cc
found-true (err e) h = ground arith
found-true (crash c) h = cc

found-false :
    (r : Result CacheRecord) {v : CacheRecord}
    → found r ≡ ok (false, v)
    → (e : Err) × (r ≡ err e) × (errors_is e key_not_exists ≡ true)
unfolding found
found-false (ok v) h = cc
found-false (err e) h = (e, refl, ground arith)
found-false (crash c) h = cc

first_cache-true :
    (r : Result (List CacheRecord)) {v : CacheRecord}
    → first_cache r ≡ ok (true, v)
    → (vs : List CacheRecord) × (r ≡ ok (v ∷ vs))
unfolding first_cache
first_cache-true (ok []) h = cc
first_cache-true (ok (v ∷ vs)) h = (vs, cc)
first_cache-true (err e) h = cc
first_cache-true (crash c) h = cc

first_tenant-true :
    (r : Result (List TenantRecord)) {v : TenantRecord}
    → first_tenant r ≡ ok (true, v)
    → (vs : List TenantRecord) × (r ≡ ok (v ∷ vs))
unfolding first_tenant
first_tenant-true (ok []) h = cc
first_tenant-true (ok (v ∷ vs)) h = (vs, cc)
first_tenant-true (err e) h = cc
first_tenant-true (crash c) h = cc

first_tenant-false :
    (r : Result (List TenantRecord)) {v : TenantRecord} → first_tenant r ≡ ok (false, v) → r ≡ ok []
unfolding first_tenant
first_tenant-false (ok []) h = refl
first_tenant-false (ok (v ∷ vs)) h = cc
first_tenant-false (err e) h = cc
first_tenant-false (crash c) h = cc

module _ (b : Backend) (l : IsLawful b) where
  open l use {cache_rows, tenant_rows, cache_lawful, tenant_lawful}

  -- A record that is reported is that of the row, and one that is reported missing has no row.
  pub exists_cache-true :
      (id : Text) (w : b.World) {v : CacheRecord}
      → exists_cache b id w ≡ ok (true, v)
      → (row : Row CacheRecord) × (cache_rows w cache_partition id ≡ some row) × (row.value ≡ v)
  unfolding exists_cache
  exists_cache-true id w h =
      cache_lawful.get_ok cache_partition id w
        (found-true (b.cache_store.get cache_partition id w) h)

  pub exists_cache-false :
      (id : Text) (w : b.World) {v : CacheRecord}
      → exists_cache b id w ≡ ok (false, v)
      → cache_rows w cache_partition id ≡ none
  unfolding exists_cache
  exists_cache-false id w h =
      let (e, failed, missing) = found-false (b.cache_store.get cache_partition id w) h in
      cache_lawful.get_missing cache_partition id w failed missing

  pub fallback-true :
      (prefix : Text) (w : b.World) {v : CacheRecord}
      → exists_cache_by_fallback_branch b prefix w ≡ ok (true, v)
      → Holds (cache_rows w) cache_partition prefix by_created v
  unfolding exists_cache_by_fallback_branch
  fallback-true prefix w h =
      let (vs, e) =
        first_cache-true (b.cache_store.list_by_sort_key_prefix cache_partition prefix by_created w)
          h in
      cache_lawful.list_found cache_partition prefix by_created w e

  pub exists_tenant-true :
      (key : Text) (w : b.World) {v : TenantRecord}
      → exists_tenant_by_key b key w ≡ ok (true, v)
      → Holds (tenant_rows w) tenant_key_partition key by_tenant_key v
  unfolding exists_tenant_by_key
  exists_tenant-true key w h =
      let (vs, e) =
        first_tenant-true
          (b.tenant_store.list_by_sort_key_prefix tenant_key_partition key by_tenant_key w) h in
      tenant_lawful.list_found tenant_key_partition key by_tenant_key w e

  pub exists_tenant-false :
      (key : Text) (w : b.World) {v : TenantRecord}
      → IsFollowed b.tenant_store tenant_rows w
      → exists_tenant_by_key b key w ≡ ok (false, v)
      → (q k : Text) (row : Row TenantRecord) → tenant_rows w q k ≡ some row
      → ¬ IsMatch tenant_key_partition key by_tenant_key q k row
  unfolding exists_tenant_by_key
  exists_tenant-false key w f h = f.list_none tenant_key_partition key by_tenant_key (
      first_tenant-false
        (b.tenant_store.list_by_sort_key_prefix tenant_key_partition key by_tenant_key w) h)

-- A lookup answers where the table does.
pub exists_cache_answers :
    (b : Backend) (id : Text) (w : b.World)
    → ((v : CacheRecord) × (b.cache_store.get cache_partition id w ≡ ok v))
      ⊎ ((e : Err) × (b.cache_store.get cache_partition id w ≡ err e)
          × (errors_is e key_not_exists ≡ true))
    → (exists : Bool) × (rec : CacheRecord) × (exists_cache b id w ≡ ok (exists, rec))
unfolding exists_cache found
exists_cache_answers b id w (inl (v, e)) = rw e (true, v, refl)
exists_cache_answers b id w (inr (x, e, missing)) = (
  false,
  _,
  ap found e
      ∙ ap
          (λ c.
            if c then ok (false, empty_cache_record) else err (wrap "failed to get cache record" x))
          missing,
)
