-- ===== src/Provision/Tenants.antt =====
-- Which tenants the provision service stores, and whom the cache service then accepts.
use zipstash.Base.{
  ◌≡◌, ◌≢◌, refl, sym, ap, ◌∙◌, true, false, [], none, some, Text, codes, text_eq, text_eq_refl, ok,
  arith, on_error-eq-ok, run_call, run_lookup, run_pure,
}
use zipstash.Keys.{
  Provider, unspecified, github_actions, gitlab, buildkite, unknown, from_provider_v1, tenant_key,
}
use zipstash.Api
use zipstash.Index.{TenantRecord, contains, validate, default_provider_names}
use zipstash.Backend.{Backend}
use zipstash.Backend.Laws.{attribute, Row, IsLawful}
use zipstash.Store.{
  put_tenant, tenant_partition, tenant_key_partition, tenant_options, by_tenant_key,
}
use zipstash.Provision.{tenant_of, create_tenant}

-- A provider that the enum names.
pub data IsNamed : Provider → Type 0 where
  github_named : IsNamed github_actions
  gitlab_named : IsNamed gitlab
  buildkite_named : IsNamed buildkite

valid :
    (r : TenantRecord) {u : Unit {0}}
    → validate r ≡ ok u
    → (contains default_provider_names r.provider_type ≡ true) × (text_eq r.owner [] ≡ false)
unfolding validate
valid r h = (ground arith, ground arith)

known-IsNamed :
    (p : Provider) → contains default_provider_names (from_provider_v1 p) ≡ true → IsNamed p
unfolding contains from_provider_v1 text_eq codes
known-IsNamed github_actions h = github_named
known-IsNamed gitlab h = gitlab_named
known-IsNamed buildkite h = buildkite_named
known-IsNamed unspecified h = cc
known-IsNamed (unknown n) h = cc

not_empty : (s : Text) → text_eq s [] ≡ false → s ≢ []
unfolding text_eq
not_empty s h e = let h' : text_eq [] [] ≡ false = rw e at h in cc

-- A row that CreateTenant writes.
pub record IsTenant (row : Row TenantRecord) (req : Api.CreateTenantRequest) : Type 0 where
  pub named : IsNamed req.provider_type
  pub has_owner : req.slug ≢ []
  pub is_record : row.value ≡ tenant_of req
  pub keyed :
      attribute tenant_partition req.id row by_tenant_key.sort_attribute
      ≡ some (tenant_key (from_provider_v1 req.provider_type) req.slug)
  pub in_index :
      attribute tenant_partition req.id row by_tenant_key.partition_attribute
      ≡ some tenant_key_partition

module _ (b : Backend) (l : IsLawful b) where
  open l use {tenant_rows}

  put_tenant_row :
      (id : Text) (v : TenantRecord) (w : b.World) {w' : b.World}
      → put_tenant b id v w ≡ (ok tt, w')
      → (tenant_rows w tenant_partition id ≡ none)
        × (tenant_rows w' tenant_partition id
            ≡ some (record {
              value = v;
              extra_fields = (tenant_options (b.format_rfc3339 (b.now w)) v).extra_fields;
            }))
  unfolding put_tenant
  put_tenant_row id v w h =
      let options = tenant_options (b.format_rfc3339 (b.now w)) v in
      let called = on_error-eq-ok _ (b.tenant_store.create tenant_partition id v options) h in
      (
        l.tenant_lawful.create_new tenant_partition id v options w refl called,
        l.tenant_lawful.create_ok tenant_partition id v options w called tenant_partition id
            ∙ rw (text_eq_refl tenant_partition, text_eq_refl id) refl,
      )

  -- CreateTenant, when it returns, has stored a new row, of a provider that the enum names and of an
  -- owner, under which the cache service looks the tenant up; it never replaces a tenant.
  pub create_tenant-IsTenant :
      (req : Api.CreateTenantRequest) (w w' : b.World) {resp : Api.CreateTenantResponse}
      → create_tenant b req w ≡ (ok resp, w')
      → (resp.id ≡ req.id)
        × (tenant_rows w tenant_partition req.id ≡ none)
        × ((row : Row TenantRecord) × (tenant_rows w' tenant_partition req.id ≡ some row)
            × IsTenant row req)
  unfolding create_tenant attribute text_eq codes
  create_tenant-IsTenant req w w' h = run_lookup _ _ _ h λ u checked h1.
      run_call _ _ _ h1 λ _ w1 stored h2.
        let (same, still) = run_pure _ h2 in
        let (new, at) = put_tenant_row req.id (tenant_of req) w stored in
        let (known, owned) = valid (tenant_of req) checked in
        (
          ap (λ r. r.id) (sym same),
          new,
          (
            _,
            ap (λ v. tenant_rows v tenant_partition req.id) (sym still) ∙ at,
            record {
              named = known-IsNamed req.provider_type known;
              has_owner = not_empty req.slug owned;
              is_record = refl;
              keyed = refl;
              in_index = refl;
            },
          ),
        )
