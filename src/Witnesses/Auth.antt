-- ===== src/Witnesses/Auth.antt =====
-- The middleware with a library of tokens that knows one token.
use zipstash.Base.{
  ℕ, ◌+◌, ◌≡◌, refl, false, [], some, Text, codes, text_eq, ok, err, external, if◌then◌else◌, pure,
  reads, on_error, ◌>>=◌,
}
use zipstash.CiAuth.{
  OidcIdentity, BuildkiteClaims, buildkite, lookup, buildkite_issuer, default_oidc_providers,
}
use zipstash.CiAuth.Jwt.{
  JwtLibrary, AreOf, parse_claims, register_jwks_endpoints, validate_token, validate_token-AreOf,
}

abbrev pub acme : BuildkiteClaims
acme = record {
  organization_slug = codes "acme";
  organization_id = codes "1";
  pipeline_slug = codes "p";
  build_branch = codes "main";
  build_tag = [];
  build_commit = codes "c";
  step_key = [];
  job_id = codes "j";
  agent_id = codes "a";
  build_source = codes "ui";
  runner_environment = [];
  build_number = 7;
}

-- A token is its own text; only "tok" verifies, as one of Buildkite for the audience "zs".
abbrev library : JwtLibrary
library = record {
  World = ℕ;
  Token = Text;
  KeySet = Text;
  parse_unverified = λ token audience. ok token;
  parse_verified = λ token set issuer audience w.
      if text_eq token (codes "tok") then ok token else err (external 1);
  issuer = λ token. some buildkite_issuer;
  subject = λ token. some (codes "pipeline");
  is_registered = λ url w. false;
  register = λ url w. (ok tt, w + 1);
  cached_set = λ url w. ok url;
  github_claims = λ token. err (external 2);
  buildkite_claims = λ token. ok acme;
}

abbrev caller : OidcIdentity
caller = record {
  provider = codes "buildkite";
  claims = buildkite acme;
  subject = codes "pipeline";
  issuer = buildkite_issuer;
}

validated :
    validate_token library default_oidc_providers (codes "tok") (codes "zs") 0 ≡ (ok caller, 1)
unfolding validate_token register_jwks_endpoints parse_claims lookup text_eq codes on_error reads
    pure ◌>>=◌
validated = refl

validate_token-AreOf_example : AreOf (codes "buildkite") (buildkite acme)
validate_token-AreOf_example =
    validate_token-AreOf library default_oidc_providers (codes "tok") (codes "zs") 0 validated
