-- ===== src/Rpc/Servers.antt =====
-- internal/commands: what the three servers serve: rpc.go, lambda.go and admin_lambda.go.
use zipstash.Base.{
  Bool, true, false, ◌&&◌, ◌||◌, ◌==◌, List, [], ◌∷◌, ◌++◌, none, some, Text, codes, text_eq,
  has_prefix, if◌then◌else◌,
}
use zipstash.GoStd.CleanPath.{slash, clean}
use zipstash.CiAuth.{default_oidc_providers}
use zipstash.CiAuth.Jwt.{JwtLibrary}
use zipstash.CiAuth.Middleware.{Response, oidc_auth_middleware}
use zipstash.CiAuth.Middleware
use zipstash.Rpc.{
  Web, Handler, Reply, page_not_found, moved, CacheServiceHandler, ProvisionServiceHandler,
  cache_service_path, provision_service_path, new_cache_service_handler,
  new_provision_service_handler,
}

unfoldable pub ends_in_slash : Text → Bool
ends_in_slash [] = false
ends_in_slash (c ∷ []) = c == slash
ends_in_slash (c ∷ d ∷ s) = ends_in_slash (d ∷ s)

rooted : Text → Text
rooted [] = slash ∷ []
rooted (c ∷ s) = if c == slash then c ∷ s else slash ∷ c ∷ s

unslashed : Text → Text → Text
unslashed p np =
    if ends_in_slash p && (if text_eq np (slash ∷ []) then false else true)
    then np ++ slash ∷ []
    else np

-- net/http: the path that ServeMux asks for in place of this one.
unfoldable pub clean_url_path : Text → Text
unfolding rooted unslashed
clean_url_path p = unslashed (rooted p) (clean (rooted p))

module _ {World : Type 0} (web : Web World) {R : Type 0} (lift : Reply web.Answer → R) where
  -- The first of the patterns that begins the path; no pattern here begins another one.
  unfoldable pub dispatch : List (Text × Handler web R) → Handler web R
  dispatch [] ctx req w = (lift page_not_found, w)
  dispatch ((pattern, handler) ∷ routes) ctx req w =
      let rest = dispatch routes ctx req w in
      if has_prefix (web.path req) pattern then handler ctx req w else rest

  unfoldable pub is_pattern : List (Text × Handler web R) → Text → Bool
  is_pattern [] p = false
  is_pattern ((pattern, handler) ∷ routes) p = text_eq p pattern || is_pattern routes p

  -- http.ServeMux, for a request that is no CONNECT: a path without the slash of a pattern and one
  -- that is not clean are redirected. No pattern here ends in two slashes.
  unfoldable pub serve_mux : List (Text × Handler web R) → Handler web R
  serve_mux routes ctx req w =
      let p = clean_url_path (web.path req) in
      if is_pattern routes (p ++ slash ∷ [])
      then (lift (moved (p ++ slash ∷ [])), w)
      else if text_eq p (web.path req)
      then dispatch routes ctx req w
      else (lift (moved p), w)

-- The audiences that RPCServerCmd.Run and LambdaServerCmd.Run pass to the middleware.
abbrev pub rpc_audience : Text
rpc_audience = codes "zipstash.wolfe.id.au"

abbrev pub lambda_audience : Text
lambda_audience = codes "zipstash.wolfe.id.au"

module _ (j : JwtLibrary) (web : Web j.World) where
  -- NewOIDCAuthMiddleware around a handler
  abbrev pub auth_middleware :
      Text → Handler web (Reply web.Answer) → Handler web (Response (Reply web.Answer))
  auth_middleware audience next ctx req =
      oidc_auth_middleware j default_oidc_providers audience (λ i. next (some i) req)
        (web.authorization req)

  abbrev same : Reply web.Answer → Reply web.Answer
  same r = r

  -- RPCServerCmd.Run: both services behind the middleware.
  unfoldable pub rpc_server :
      CacheServiceHandler j.World
      → ProvisionServiceHandler j.World
      → web.Request
      → j.World
      → Response (Reply web.Answer) × j.World
  rpc_server csh psh =
      auth_middleware rpc_audience
        (serve_mux web same (
          (cache_service_path, new_cache_service_handler web csh)
          ∷ (provision_service_path, new_provision_service_handler web psh)
          ∷ []))
        none

  -- LambdaServerCmd.Run: the cache service, whose handler is behind the middleware.
  unfoldable pub lambda_server :
      CacheServiceHandler j.World → web.Request → j.World → Response (Reply web.Answer) × j.World
  lambda_server csh =
      serve_mux web Middleware.answered
        ((cache_service_path, auth_middleware lambda_audience (new_cache_service_handler web csh))
          ∷ [])
        none

  -- AdminLambdaServerCmd.Run: the provision service, without the middleware.
  unfoldable pub admin_lambda_server :
      ProvisionServiceHandler j.World → web.Request → j.World → Reply web.Answer × j.World
  admin_lambda_server psh =
      serve_mux web same ((provision_service_path, new_provision_service_handler web psh) ∷ []) none
