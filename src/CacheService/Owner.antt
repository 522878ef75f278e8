-- ===== src/CacheService/Owner.antt =====
-- Who passes `validateOwner`.
use zipstash.Base.{
  ◌≡◌, sym, ◌∙◌, Bool, true, false, ◌++◌, Option, some, Text, arith, Result, ok, err, connect_error,
  permission_denied, guard, deref, reads, on_error, pure, ◌>>=◌, bind_err, deref-some, run_deref,
  run_lookup, run_guard, run_pure,
}
use zipstash.Keys.{Provider, from_provider_v1, tenant_key}
use zipstash.Keys.Created.{tenant_key-prefix}
use zipstash.Index.{TenantRecord}
use zipstash.Backend.{Backend}
use zipstash.Backend.Laws.{IsFollowed, attribute, Row, Holds, IsLawful}
use zipstash.Store.{exists_tenant_by_key, tenant_key_partition, by_tenant_key}
use zipstash.Store.Lookup.{exists_tenant-true, exists_tenant-false}
use zipstash.CiAuth.{OidcIdentity}
use zipstash.Api
use zipstash.CacheService.Handlers.{validate_owner, check_entry, create_entry}
use zipstash.CacheService.Get.{get_entry}

module _ (b : Backend) (bucket : Text) where
  pub validate_owner-eq-ok :
      (ctx : Option OidcIdentity) (owner provider : Text) {rec : TenantRecord} {w w' : b.World}
      → validate_owner b bucket ctx owner provider w ≡ (ok rec, w')
      → (exists_tenant_by_key b (tenant_key provider owner) w ≡ ok (true, rec)) × (w' ≡ w)
  unfolding validate_owner
  validate_owner-eq-ok ctx owner provider h = run_deref ctx _ h λ identity _ h1.
      run_lookup _ (exists_tenant_by_key b (tenant_key provider owner)) _ h1 λ (exists, r) e h2.
        run_guard exists _ _ h2
          λ there h3. let (same, still) = run_pure r h3 in (ground arith, sym still)

  -- A caller is accepted only if the index has a tenant whose provider and owner begin with the ones
  -- that it names, and nothing is written.
  pub validate_owner_sound :
      (l : IsLawful b) (ctx : Option OidcIdentity) (owner provider : Text) {rec : TenantRecord}
      {w w' : b.World}
      → validate_owner b bucket ctx owner provider w ≡ (ok rec, w')
      → Holds (l.tenant_rows w) tenant_key_partition (tenant_key provider owner) by_tenant_key rec
        × (w' ≡ w)
  validate_owner_sound l ctx owner provider {w} h =
      let (e, still) = validate_owner-eq-ok ctx owner provider h in
      (exists_tenant-true b l (tenant_key provider owner) w e, still)

  -- With an identity, the answer is that of the index, whoever the caller is.
  pub validate_owner_found :
      (identity : OidcIdentity) (owner provider : Text) (rec : TenantRecord) (w : b.World)
      → exists_tenant_by_key b (tenant_key provider owner) w ≡ ok (true, rec)
      → validate_owner b bucket (some identity) owner provider w ≡ (ok rec, w)
  unfolding validate_owner ◌>>=◌ deref reads on_error guard pure
  validate_owner_found identity owner provider rec w e = ground arith

  pub validate_owner_missing :
      (identity : OidcIdentity) (owner provider : Text) (rec : TenantRecord) (w : b.World)
      → exists_tenant_by_key b (tenant_key provider owner) w ≡ ok (false, rec)
      → validate_owner b bucket (some identity) owner provider w
        ≡ (err (connect_error permission_denied "cache.v1.CacheService permission denied"), w)
  unfolding validate_owner ◌>>=◌ deref reads on_error guard pure
  validate_owner_missing identity owner provider rec w e = ground arith

  -- The row of a tenant in the index of tenant keys.
  pub record IsTenantRow (provider owner p k : Text) (row : Row TenantRecord) : Type 0 where
    pub in_partition :
        attribute p k row by_tenant_key.partition_attribute ≡ some tenant_key_partition
    pub sorted_by :
        attribute p k row by_tenant_key.sort_attribute ≡ some (tenant_key provider owner)

  -- Whoever the caller is, it passes for every name that the name of a tenant of the provider begins
  -- with, if the index answers and has followed the table.
  pub validate_owner_any_prefix :
      (l : IsLawful b) (identity : OidcIdentity) (owner rest provider p k : Text)
      (row : Row TenantRecord) (w : b.World) {found : Bool} {r : TenantRecord}
      → l.tenant_rows w p k ≡ some row
      → IsTenantRow provider (owner ++ rest) p k row
      → IsFollowed b.tenant_store l.tenant_rows w
      → exists_tenant_by_key b (tenant_key provider owner) w ≡ ok (found, r)
      → (rec : TenantRecord) × (validate_owner b bucket (some identity) owner provider w
          ≡ (ok rec, w))
  validate_owner_any_prefix l identity owner rest provider p k row w {found = true} {r} at is_row f
        e =
      (r, validate_owner_found identity owner provider r w e)
  validate_owner_any_prefix l identity owner rest provider p k row w {found = false} at is_row f e =
      absurd (
        exists_tenant-false b l (tenant_key provider owner) w f e p k row at (record {
          sort_value = tenant_key provider (owner ++ rest);
          in_partition = is_row.in_partition;
          sorted_by = is_row.sorted_by;
          begins = tenant_key-prefix provider owner rest;
        }))

  abbrev denied : {A : Type 0} → b.World → Result A × b.World
  denied w = (err (connect_error permission_denied "cache.v1.CacheService permission denied"), w)

  -- The index answers that it has no tenant whose key begins with that of the provider and owner.
  abbrev pub IsUnknown : Provider → Text → b.World → Type 0
  IsUnknown provider_type owner w =
      (rec : TenantRecord) × (exists_tenant_by_key b
          (tenant_key (from_provider_v1 provider_type) owner) w
        ≡ ok (false, rec))

  missing_of :
      (identity : OidcIdentity) (provider_type : Provider) (owner : Text) (w : b.World)
      → IsUnknown provider_type owner w
      → validate_owner b bucket (some identity) owner (from_provider_v1 provider_type) w ≡ denied w
  missing_of identity provider_type owner w (rec, e) =
      validate_owner_missing identity owner (from_provider_v1 provider_type) rec w e

  -- For an owner that the index does not know, CheckEntry, CreateEntry and GetEntry deny permission
  -- and write nothing.
  pub handlers_denied :
      (identity : OidcIdentity) (w : b.World) (check : Api.CheckEntryRequest)
      (create : Api.CreateEntryRequest) (entry : Api.CacheEntry) (get : Api.GetEntryRequest)
      → create.cache_entry ≡ some entry
      → IsUnknown check.provider_type check.owner w
      → IsUnknown create.provider_type entry.owner w
      → IsUnknown get.provider_type get.owner w
      → (check_entry b bucket (some identity) check w ≡ denied w)
        × (create_entry b bucket (some identity) create w ≡ denied w)
        × (get_entry b bucket (some identity) get w ≡ denied w)
  unfolding check_entry create_entry get_entry
  handlers_denied identity w check create entry get has h1 h2 h3 = (
    bind_err _ _ (missing_of identity check.provider_type check.owner w h1),
    deref-some create.cache_entry _ w has
        ∙ bind_err _ _ (missing_of identity create.provider_type entry.owner w h2),
    bind_err _ _ (missing_of identity get.provider_type get.owner w h3),
  )
