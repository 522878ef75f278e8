-- ===== src/CiAuth/Middleware.antt =====
-- internal/ciauth/middleware.go: a request reaches the handler with the identity of its token, or is
-- answered with 401.
use zipstash.Base.{ℕ, ◌≡◌, refl, List, Text, Result, ok, err, crash, Crash, Err}
use zipstash.CiAuth.{OidcIdentity, OidcProvider}
use zipstash.CiAuth.Bearer.{extract_bearer_token}
use zipstash.CiAuth.Jwt.{JwtLibrary, IsVouched, validate_token, validate_token-IsVouched}

-- What the client gets: an error with a status, what the next handler answered, or nothing.
pub data Response (R : Type 0) : Type 0 where
  http_error : ℕ → Response R
  answered : R → Response R
  crashed : Crash → Response R

-- StatusUnauthorized
abbrev pub unauthorized : ℕ
unauthorized = 401

module _ (j : JwtLibrary) (providers : List (Text × OidcProvider)) (audience : Text)
    {R : Type 0} where
  serve :
      (OidcIdentity → j.World → R × j.World) → Result OidcIdentity × j.World → Response R × j.World
  serve next (ok identity, w) = let r = next identity w in (answered r.0, r.1)
  serve next (err e, w) = (http_error unauthorized, w)
  serve next (crash c, w) = (crashed c, w)

  authorize : (OidcIdentity → j.World → R × j.World) → Result Text → j.World → Response R × j.World
  unfolding serve
  authorize next (ok token) w = serve next (validate_token j providers token audience w)
  authorize next (err e) w = (http_error unauthorized, w)
  authorize next (crash c) w = (crashed c, w)

  -- NewOIDCAuthMiddleware: `next` finds the identity in its context.
  unfoldable pub oidc_auth_middleware :
      (OidcIdentity → j.World → R × j.World) → Text → j.World → Response R × j.World
  unfolding authorize
  oidc_auth_middleware next authorization = authorize next (extract_bearer_token authorization)

  -- The handler answered, to a request that was vouched for.
  pub record IsServed (next : OidcIdentity → j.World → R × j.World) (authorization : Text)
      (w : j.World) (r : R) (w' : j.World) : Type 0 where
    pub token : Text
    pub identity : OidcIdentity
    pub validated : j.World
    pub extracts : extract_bearer_token authorization ≡ ok token
    pub validates : validate_token j providers token audience w ≡ (ok identity, validated)
    pub vouched : IsVouched j providers token audience identity
    pub answers : next identity validated ≡ (r, w')

  serve_cases :
      (next : OidcIdentity → j.World → R × j.World) (r : Result OidcIdentity × j.World) {a : R}
      {w' : j.World}
      → serve next r ≡ (answered a, w')
      → (i : OidcIdentity) × (v : j.World) × (r ≡ (ok i, v)) × (next i v ≡ (a, w'))
  unfolding serve
  serve_cases next (ok i, v) h = (i, v, refl, cc)
  serve_cases next (err e, v) h = cc
  serve_cases next (crash c, v) h = cc

  authorize_cases :
      (next : OidcIdentity → j.World → R × j.World) (t : Result Text) (w : j.World) {a : R}
      {w' : j.World}
      → authorize next t w ≡ (answered a, w')
      → (token : Text) × (t ≡ ok token)
        × (serve next (validate_token j providers token audience w) ≡ (answered a, w'))
  unfolding authorize
  authorize_cases next (ok token) w h = (token, refl, h)
  authorize_cases next (err e) w h = cc
  authorize_cases next (crash c) w h = cc

  -- The next handler answers only a request whose token was read from the header and vouched for, and
  -- it is given the identity of that token.
  pub oidc_auth_middleware-IsServed :
      (next : OidcIdentity → j.World → R × j.World) (authorization : Text) (w : j.World) {a : R}
      {w' : j.World}
      → oidc_auth_middleware next authorization w ≡ (answered a, w')
      → IsServed next authorization w a w'
  unfolding oidc_auth_middleware
  oidc_auth_middleware-IsServed next authorization w h =
      let (token, extracts, h1) = authorize_cases next (extract_bearer_token authorization) w h in
      let (i, v, validates, answers) =
        serve_cases next (validate_token j providers token audience w) h1 in
      record {
        token = token;
        identity = i;
        validated = v;
        extracts = extracts;
        validates = validates;
        vouched = validate_token-IsVouched j providers token audience w validates;
        answers = answers;
      }

  -- A header from which no token can be read is answered with 401, and nothing is done.
  pub oidc_auth_middleware_malformed :
      (next : OidcIdentity → j.World → R × j.World) (authorization : Text) (w : j.World) {e : Err}
      → extract_bearer_token authorization ≡ err e
      → oidc_auth_middleware next authorization w ≡ (http_error unauthorized, w)
  unfolding oidc_auth_middleware
  oidc_auth_middleware_malformed next authorization w h = rw h refl
