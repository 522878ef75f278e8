-- ===== src/CiAuth/Jwt.antt =====
-- internal/ciauth/jwx.go: a token is read, its issuer looked up, and the token verified with the
-- issuer's keys.
use zipstash.Base.{
  ◌≡◌, refl, sym, ap, ◌∙◌, Bool, List, [], Option, none, some, Text, text_eq, text_eq→eq,
  if◌then◌else◌, Result, ok, err, crash, Err, message, annotate, wrap, Io, pure, reads, on_error,
  ◌>>=◌, ◌>>◌, inl, inr, ◌⊎◌, Bool-cases, run_bind, run_lookup, run_pure,
}
use zipstash.Keys.{github_actions_name, buildkite_name}
use zipstash.CiAuth.{
  OidcIdentity, OidcProvider, Claims, GitHubActionsClaims, BuildkiteClaims, github, buildkite,
  lookup,
}

-- jwx: the two ways in which a token is parsed, the cache of key sets and the claims of a token as
-- JSON.
pub record JwtLibrary : Type 1 where
  pub World : Type 0
  pub Token : Type 0
  pub KeySet : Type 0
  pub parse_unverified : Text → Text → Result Token
  pub parse_verified : Text → KeySet → Text → Text → World → Result Token
  pub issuer : Token → Option Text
  pub subject : Token → Option Text
  pub is_registered : Text → World → Bool
  pub register : Text → Io World (Unit {0})
  pub cached_set : Text → World → Result KeySet
  pub github_claims : Token → Result GitHubActionsClaims
  pub buildkite_claims : Token → Result BuildkiteClaims

-- `s, _ := …`
abbrev pub or_empty : Option Text → Text
or_empty none = []
or_empty (some s) = s

-- the second result of a Go function or map, tested with `if !ok`
present : {W A : Type 0} → Option A → Err → Io W A
present none e w = (err e, w)
present (some a) e w = (ok a, w)

map_claims : {A : Type 0} → (A → Claims) → Result A → Result Claims
map_claims f (ok c) = ok (f c)
map_claims f (err e) = err (wrap "failed to parse claims" e)
map_claims f (crash c) = crash c

module _ (j : JwtLibrary) where
  -- What parseClaims does with the claims of a token, for the name of its provider.
  unfoldable pub parse_claims : Text → j.Token → Result Claims
  unfolding map_claims
  parse_claims provider token =
      if text_eq provider github_actions_name
      then map_claims github (j.github_claims token)
      else if text_eq provider buildkite_name
      then map_claims buildkite (j.buildkite_claims token)
      else err (message "unsupported provider")

  unfoldable pub register_jwks_endpoints : OidcProvider → Io j.World (Unit {0})
  register_jwks_endpoints provider w =
      if j.is_registered provider.jwks_url w
      then (ok tt, w)
      else on_error (annotate "failed to register providers jwks URL")
          (j.register provider.jwks_url) w

  unfoldable pub validate_token : List (Text × OidcProvider) → Text → Text → Io j.World OidcIdentity
  unfolding present
  validate_token providers token_str expected_audience = do
    token ←
        on_error (annotate "failed to parse token")
          (reads (λ _. j.parse_unverified token_str expected_audience))
    token_issuer ← present (j.issuer token) (message "token has no issuer")
    provider ← present (lookup token_issuer providers) (message "unknown issuer")
    on_error (annotate "failed to register JWK endpoints") (register_jwks_endpoints provider)
    set ← on_error (annotate "failed to get JWK set") (reads (j.cached_set provider.jwks_url))
    verified ←
        on_error (annotate "token validation failed")
          (reads (j.parse_verified token_str set token_issuer expected_audience))
    claims ←
        on_error (annotate "failed to parse claims")
          (reads (λ _. parse_claims provider.name verified))
    pure (record {
      provider = provider.name;
      claims = claims;
      subject = or_empty (j.subject verified);
      issuer = or_empty (j.issuer verified);
    })

-- Where an identity comes from: a known issuer, whose keys verified the token for the audience.
pub record IsVouched (j : JwtLibrary) (providers : List (Text × OidcProvider))
    (token_str expected_audience : Text) (i : OidcIdentity) : Type 0 where
  pub token_issuer : Text
  pub provider : OidcProvider
  pub set : j.KeySet
  pub verified : j.Token
  pub registered : j.World
  pub known : lookup token_issuer providers ≡ some provider
  pub keys : j.cached_set provider.jwks_url registered ≡ ok set
  pub verifies :
      j.parse_verified token_str set token_issuer expected_audience registered ≡ ok verified
  pub named : i.provider ≡ provider.name
  pub issued : i.issuer ≡ or_empty (j.issuer verified)
  pub claimed : parse_claims j provider.name verified ≡ ok i.claims

module _ {W A B C : Type 0} where
  run_present :
      (o : Option A) (e : Err) (f : A → Io W B) {b : B} {w w' : W}
      → (present o e >>= f) w ≡ (ok b, w')
      → ((a : A) → o ≡ some a → f a w ≡ (ok b, w') → C)
      → C
  unfolding present ◌>>=◌
  run_present none e f h k = cc
  run_present (some a) e f h k = k a refl h

-- ValidateToken returns an identity only for a token whose issuer is one of the providers, and that
-- the key set of that provider verified for the issuer and the expected audience.
pub validate_token-IsVouched :
    (j : JwtLibrary) (providers : List (Text × OidcProvider)) (token_str expected_audience : Text)
    {i : OidcIdentity} (w : j.World) {w' : j.World}
    → validate_token j providers token_str expected_audience w ≡ (ok i, w')
    → IsVouched j providers token_str expected_audience i
unfolding validate_token
validate_token-IsVouched j providers token_str expected_audience {i} w h =
    run_lookup _ _ _ h λ token _ h1. run_present _ _ _ h1 λ token_issuer _ h2.
      run_present _ _ _ h2 λ provider known h3. run_bind _ _ h3 λ _ w1 _ h4.
        run_lookup _ _ _ h4 λ set keys h5. run_lookup _ _ _ h5 λ verified verifies h6.
          run_lookup _ _ _ h6 λ claims claimed h7.
            let (same, _) = run_pure _ h7 in
            record {
              token_issuer = token_issuer;
              provider = provider;
              set = set;
              verified = verified;
              registered = w1;
              known = known;
              keys = keys;
              verifies = verifies;
              named = ap (λ x. x.provider) (sym same);
              issued = ap (λ x. x.issuer) (sym same);
              claimed = claimed ∙ ap (λ x. ok x.claims) same;
            }

-- A claims value of the provider with this name.
abbrev pub AreOf : Text → Claims → Type 0
AreOf name c =
    ((name ≡ github_actions_name) × ((g : GitHubActionsClaims) × (c ≡ github g)))
    ⊎ ((name ≡ buildkite_name) × ((k : BuildkiteClaims) × (c ≡ buildkite k)))

mapped :
    {A : Type 0} (f : A → Claims) (r : Result A) {c : Claims}
    → map_claims f r ≡ ok c
    → (a : A) × (c ≡ f a)
unfolding map_claims
mapped f (ok a) h = (a, cc)
mapped f (err e) h = cc
mapped f (crash e) h = cc

parse_claims-AreOf :
    (j : JwtLibrary) (provider : Text) (token : j.Token) {c : Claims}
    → parse_claims j provider token ≡ ok c
    → AreOf provider c
unfolding parse_claims
parse_claims-AreOf j provider token h = elim (Bool-cases (text_eq provider github_actions_name)) [
  | inl is_github ↦ inl (
    text_eq→eq provider github_actions_name is_github,
    mapped github (j.github_claims token) (rw is_github at h),
  )
  | inr other ↦ elim (Bool-cases (text_eq provider buildkite_name)) [
    | inl is_buildkite ↦ inr (
      text_eq→eq provider buildkite_name is_buildkite,
      mapped buildkite (j.buildkite_claims token) (rw (other, is_buildkite) at h),
    )
    | inr neither ↦
        absurd
          (let e : err (message "unsupported provider") ≡ ok _ = rw (other, neither) at h in cc)
  ]
]

-- An identity is one of GitHub Actions or of Buildkite and has the claims of its provider, whatever
-- providers are configured: GitLab, which is among the default ones, is never accepted.
pub validate_token-AreOf :
    (j : JwtLibrary) (providers : List (Text × OidcProvider)) (token_str expected_audience : Text)
    {i : OidcIdentity} (w : j.World) {w' : j.World}
    → validate_token j providers token_str expected_audience w ≡ (ok i, w')
    → AreOf i.provider i.claims
validate_token-AreOf j providers token_str expected_audience {i} w h =
    let v = validate_token-IsVouched j providers token_str expected_audience w h in
    rw v.named (parse_claims-AreOf j v.provider.name v.verified v.claimed)
