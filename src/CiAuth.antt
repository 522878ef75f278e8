-- ===== src/CiAuth.antt =====
-- internal/ciauth: the identity of a caller, its claims and the providers that are known.
pub mod Jwt
pub mod Bearer
pub mod Middleware
use zipstash.Base.{ℕ, List, [], ◌∷◌, ◌++◌, Text, codes, Option, none, some, text_eq, if◌then◌else◌}
use zipstash.Keys.{github_actions_name, gitlab_name, buildkite_name}

pub record BuildkiteClaims : Type 0 where
  pub organization_slug : Text
  pub organization_id : Text
  pub pipeline_slug : Text
  pub build_branch : Text
  pub build_tag : Text
  pub build_commit : Text
  pub step_key : Text
  pub job_id : Text
  pub agent_id : Text
  pub build_source : Text
  pub runner_environment : Text
  pub build_number : ℕ

pub record GitHubActionsClaims : Type 0 where
  pub ref : Text
  pub sha : Text
  pub repository : Text
  pub repository_owner : Text
  pub repository_owner_id : Text
  pub run_id : Text
  pub run_number : Text
  pub run_attempt : Text
  pub repository_visibility : Text
  pub repository_id : Text
  pub actor_id : Text
  pub actor : Text
  pub workflow : Text
  pub head_ref : Text
  pub base_ref : Text
  pub event_name : Text
  pub ref_protected : Text
  pub ref_type : Text
  pub workflow_ref : Text
  pub workflow_sha : Text
  pub job_workflow_ref : Text
  pub job_workflow_sha : Text
  pub runner_environment : Text

-- the `any` that parseClaims fills
pub data Claims : Type 0 where
  no_claims : Claims
  github : GitHubActionsClaims → Claims
  buildkite : BuildkiteClaims → Claims

-- `oidcIdentity`, with the subject and the issuer read off its token.
pub record OidcIdentity : Type 0 where
  pub provider : Text
  pub claims : Claims
  pub subject : Text
  pub issuer : Text

owner_of : Claims → Text
owner_of (github c) = c.repository_owner
owner_of (buildkite c) = c.organization_slug
owner_of no_claims = []

unfoldable pub owner : OidcIdentity → Text
unfolding owner_of
owner oi = owner_of oi.claims

pub record OidcProvider : Type 0 where
  pub name : Text
  pub jwks_url : Text

abbrev pub github_issuer : Text
github_issuer = codes "https://token.actions.githubusercontent.com"

abbrev pub gitlab_issuer : Text
gitlab_issuer = codes "https://gitlab.com"

abbrev pub buildkite_issuer : Text
buildkite_issuer = codes "https://agent.buildkite.com"

-- DefaultOIDCProviders, by issuer
abbrev pub default_oidc_providers : List (Text × OidcProvider)
default_oidc_providers =
    (
      github_issuer,
      record {
        name = github_actions_name;
        jwks_url = codes "https://token.actions.githubusercontent.com/.well-known/jwks";
      },
    )
    ∷ (
      gitlab_issuer,
      record { name = gitlab_name; jwks_url = codes "https://gitlab.com/oauth/discovery/keys" },
    )
    ∷ (
      buildkite_issuer,
      record {
        name = buildkite_name;
        jwks_url = codes "https://agent.buildkite.com/.well-known/jwks";
      },
    )
    ∷ []

-- a lookup in a Go map with keys of type string
unfoldable pub lookup : Text → List (Text × OidcProvider) → Option OidcProvider
lookup k [] = none
lookup k ((j, v) ∷ m) = if text_eq j k then some v else lookup k m
