-- ===== src/Provision.antt =====
-- internal/server/rpc_provision.go: the two handlers of the provision service.
pub mod Tenants
pub mod Admission
use zipstash.Base.{
  ℕ, Bool, true, false, Text, if◌then◌else◌, Result, ok, err, Err, String, connect_error, internal,
  already_exists, not_found, errors_is, err_already_exists, err_not_found, Io, pure, reads,
  on_error, ◌>>=◌, ◌>>◌,
}
use zipstash.Keys.{from_provider_v1}
use zipstash.Api
use zipstash.Index.{TenantRecord, validate}
use zipstash.Backend.{Backend}
use zipstash.Store.{get_tenant, put_tenant}

-- The record that CreateTenant makes.
abbrev pub tenant_of : Api.CreateTenantRequest → TenantRecord
tenant_of req = record {
  id = req.id;
  provider_type = from_provider_v1 req.provider_type;
  owner = req.slug;
}

create_failed : Err → Err
create_failed e =
    if errors_is e err_already_exists
    then connect_error already_exists "cache.v1.ProvisionService.CreateTenant already exists"
    else connect_error internal "cache.v1.ProvisionService.CreateTenant internal error"

get_failed : Err → Err
get_failed e =
    if errors_is e err_not_found
    then connect_error not_found "cache.v1.ProvisionService.GetTenant tenant not found"
    else connect_error internal "cache.v1.ProvisionService.GetTenant internal error"

invalid : Err → Err
invalid _ = connect_error internal "cache.v1.ProvisionService.CreateTenant internal error"

module _ (b : Backend) where
  unfoldable pub create_tenant : Api.CreateTenantRequest → Io b.World Api.CreateTenantResponse
  unfolding create_failed invalid
  create_tenant req = do
    on_error invalid (reads (λ _. validate (tenant_of req)))
    on_error create_failed (put_tenant b req.id (tenant_of req))
    pure (record { id = req.id })

  unfoldable pub rpc_get_tenant : Api.GetTenantRequest → Io b.World Api.GetTenantResponse
  unfolding get_failed
  rpc_get_tenant req = do
    tenant ← on_error get_failed (reads (get_tenant b req.id))
    pure (record { id = tenant.id; slug = tenant.owner })
