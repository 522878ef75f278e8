-- ===== src/Provision/Admission.antt =====
-- A tenant that the provision service stored, as the cache service sees it.
use zipstash.Base.{◌≡◌, sym, ap, ◌∙◌, Bool, [], append-nil, some, Text, ok}
use zipstash.Keys.{from_provider_v1, tenant_key}
use zipstash.Api
use zipstash.Index.{TenantRecord}
use zipstash.Backend.{Backend}
use zipstash.Backend.Laws.{IsFollowed, IsLawful}
use zipstash.Store.{exists_tenant_by_key, tenant_partition}
use zipstash.CiAuth.{OidcIdentity}
use zipstash.CacheService.Handlers.{validate_owner}
use zipstash.CacheService.Owner.{validate_owner_any_prefix}
use zipstash.Provision.{create_tenant}
use zipstash.Provision.Tenants.{create_tenant-IsTenant}

-- Once CreateTenant has returned and the index has followed the table, every caller with an identity
-- passes the owner check for the provider and slug of the request, if the row is still there and the
-- index answers, and nothing is written by it.
pub created_tenant_passes :
    (b : Backend) (bucket : Text) (l : IsLawful b) (req : Api.CreateTenantRequest)
    (identity : OidcIdentity) (w w' v : b.World) {resp : Api.CreateTenantResponse} {found : Bool}
    {r : TenantRecord}
    → create_tenant b req w ≡ (ok resp, w')
    → l.tenant_rows v tenant_partition req.id ≡ l.tenant_rows w' tenant_partition req.id
    → IsFollowed b.tenant_store l.tenant_rows v
    → exists_tenant_by_key b (tenant_key (from_provider_v1 req.provider_type) req.slug) v
      ≡ ok (found, r)
    → (rec : TenantRecord) × (validate_owner b bucket
          (some identity)
          req.slug
          (from_provider_v1 req.provider_type)
          v
        ≡ (ok rec, v))
created_tenant_passes b bucket l req identity w w' v created still followed answers =
    let (_, _, (row, at, tenant)) = create_tenant-IsTenant b l req w w' created in
    let provider = from_provider_v1 req.provider_type in
    validate_owner_any_prefix b bucket l identity req.slug [] provider tenant_partition req.id row v
      (still ∙ at)
      (record {
        in_partition = tenant.in_index;
        sorted_by =
            tenant.keyed ∙ ap (λ s. some (tenant_key provider s)) (sym (append-nil req.slug));
      })
      followed answers
