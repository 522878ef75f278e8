-- ===== src/Admin.antt =====
-- CreateTenantCmd of internal/commands/admin/create_tenant.go, and the tenant it makes at the server.
use zipstash.Base.{
  ◌≡◌, ◌≢◌, Bool, some, Text, codes, text_eq, if◌then◌else◌, Result, ok, err, message, wrap, Io,
  pure, reads, on_error, ◌>>=◌, run_call, run_reads, run_pure, ap, ◌∙◌, inl, inr, Bool-cases,
}
use zipstash.Keys.{
  Provider, github_actions, gitlab, buildkite, unspecified, from_provider_v1, tenant_key,
}
use zipstash.Api
use zipstash.Index.{TenantRecord}
use zipstash.Backend.{Backend}
use zipstash.Backend.Laws.{IsFollowed, IsLawful}
use zipstash.Store.{exists_tenant_by_key, tenant_partition}
use zipstash.CiAuth.{OidcIdentity}
use zipstash.CacheService.Handlers.{validate_owner}
use zipstash.Provision.{create_tenant}
use zipstash.Provision.Admission.{created_tenant_passes}

pub record CreateTenantCmd : Type 0 where
  pub provider : Text
  pub tenant_id : Text
  pub slug : Text

unfoldable pub provider_of : Text → Result Provider
provider_of name =
    if text_eq name (codes "github")
    then ok github_actions
    else if text_eq name (codes "gitlab")
    then ok gitlab
    else if text_eq name (codes "buildkite")
    then ok buildkite
    else err (message "invalid provider type")

abbrev pub tenant_request_of : CreateTenantCmd → Provider → Api.CreateTenantRequest
tenant_request_of c provider = record { id = c.tenant_id; provider_type = provider; slug = c.slug }

-- `Run`, over the call of the service
module _ {W : Type 0} (call : Api.CreateTenantRequest → Io W Api.CreateTenantResponse) where
  unfoldable pub run_create_tenant : CreateTenantCmd → Io W (Unit {0})
  run_create_tenant c = do
    provider ← reads (λ _. provider_of c.provider)
    _ ← on_error (wrap "failed to create tenant") (call (tenant_request_of c provider))
    pure tt

provider_of-ne :
    (name : Text) {provider : Provider}
    → provider_of name ≡ ok provider
    → from_provider_v1 provider ≢ from_provider_v1 unspecified
unfolding provider_of from_provider_v1 text_eq codes
provider_of-ne name {provider} h e = elim (Bool-cases (text_eq name (codes "github"))) [
  | inl a ↦
      let k : ok github_actions ≡ ok provider = rw a at h in
      let s : github_actions ≡ provider = cc in
      let q : from_provider_v1 github_actions ≡ from_provider_v1 unspecified =
        ap from_provider_v1 s ∙ e in
      cc
  | inr a ↦ elim (Bool-cases (text_eq name (codes "gitlab"))) [
    | inl b ↦
        let k : ok gitlab ≡ ok provider = rw (a, b) at h in
        let s : gitlab ≡ provider = cc in
        let q : from_provider_v1 gitlab ≡ from_provider_v1 unspecified =
          ap from_provider_v1 s ∙ e in
        cc
    | inr b ↦ elim (Bool-cases (text_eq name (codes "buildkite"))) [
      | inl c ↦
          let k : ok buildkite ≡ ok provider = rw (a, b, c) at h in
          let s : buildkite ≡ provider = cc in
          let q : from_provider_v1 buildkite ≡ from_provider_v1 unspecified =
            ap from_provider_v1 s ∙ e in
          cc
      | inr c ↦
          let k : err (message "invalid provider type") ≡ ok provider = rw (a, b, c) at h in cc
    ]
  ]
]

-- The admin command, when it returns, has a provider that is not "unspecified", and once the index has
-- followed the table, every caller with an identity passes the owner check for that provider and the
-- slug of the command, if the row of the tenant is still there and the index answers; the check writes
-- nothing.
pub run_create_tenant_passes :
    (b : Backend) (bucket : Text) (l : IsLawful b) (c : CreateTenantCmd) (identity : OidcIdentity)
    (w w' v : b.World)
    → run_create_tenant (create_tenant b) c w ≡ (ok tt, w')
    → l.tenant_rows v tenant_partition c.tenant_id ≡ l.tenant_rows w' tenant_partition c.tenant_id
    → IsFollowed b.tenant_store l.tenant_rows v
    → ((key : Text)
        → (found : Bool) × (r : TenantRecord) × (exists_tenant_by_key b key v ≡ ok (found, r)))
    → (provider : Provider) × (rec : TenantRecord) × (provider_of c.provider ≡ ok provider)
      × (from_provider_v1 provider ≢ from_provider_v1 unspecified)
      × (validate_owner b bucket (some identity) c.slug (from_provider_v1 provider) v ≡ (ok rec, v))
unfolding run_create_tenant
run_create_tenant_passes b bucket l c identity w w' v h same followed answers =
    run_reads _ _ h λ provider known h1. run_call _ _ _ h1 λ resp u created h2.
      let (_, still) = run_pure tt h2 in
      let made : create_tenant b (tenant_request_of c provider) w ≡ (ok resp, w') =
        created ∙ ap (λ x. (ok resp, x)) still in
      let (found, r, answer) = answers (tenant_key (from_provider_v1 provider) c.slug) in
      let (rec, passes) =
        created_tenant_passes b bucket l (tenant_request_of c provider) identity w w' v made same
          followed answer in
      (provider, rec, known, provider_of-ne c.provider known, passes)
