-- ===== src/Rpc/Alike.antt =====
-- internal/commands: rpc.go and lambda.go serve the same cache service.
use zipstash.Base.{
  ℕ, ◌≡◌, refl, sym, ap, ◌∙◌, true, false, [], ◌∷◌, ◌++◌, some, none, Text, codes, text_eq,
  has_prefix, text_eq→eq, eq→text_eq, Option, Bool-cases, inl, inr, arith,
}
use zipstash.GoStd.CleanPath.{slash}
use zipstash.CiAuth.{OidcIdentity, default_oidc_providers}
use zipstash.CiAuth.Jwt.{JwtLibrary}
use zipstash.CiAuth.Middleware.{answered, oidc_auth_middleware}
use zipstash.Rpc.{
  Web, Handler, Reply, CacheServiceHandler, ProvisionServiceHandler, cache_service_path,
  provision_service_path, new_cache_service_handler, new_provision_service_handler,
}
use zipstash.Rpc.Servers.{
  clean_url_path, dispatch, is_pattern, serve_mux, rpc_audience, lambda_audience, rpc_server,
  lambda_server,
}

-- A text that begins with another one begins so when it goes on.
has_prefix_more : (p q t : Text) → has_prefix p q ≡ true → has_prefix (p ++ t) q ≡ true
unfolding has_prefix
has_prefix_more p [] t h = refl
has_prefix_more [] (d ∷ q) t h = cc
has_prefix_more (c ∷ p) (d ∷ q) t h =
    let rest : has_prefix p q ≡ true = ground arith in
    let more = has_prefix_more p q t rest in ground arith

-- Nothing that is longer than a text is that text.
longer : (p q : Text) (c : ℕ) → has_prefix p q ≡ true → text_eq (p ++ c ∷ []) q ≡ false
unfolding has_prefix text_eq
longer [] [] c h = refl
longer (d ∷ p) [] c h = refl
longer [] (e ∷ q) c h = cc
longer (d ∷ p) (e ∷ q) c h =
    let rest : has_prefix p q ≡ true = ground arith in let more = longer p q c rest in ground arith

apart : has_prefix provision_service_path cache_service_path ≡ true → ⊥
unfolding has_prefix codes
apart h = cc

not_provision :
    (p : Text)
    → has_prefix p cache_service_path ≡ true
    → text_eq (p ++ slash ∷ []) provision_service_path ≡ false
not_provision p h = elim (Bool-cases (text_eq (p ++ slash ∷ []) provision_service_path)) [
  | inl is ↦
      let same = text_eq→eq (p ++ slash ∷ []) provision_service_path is in
      absurd (
        apart (
          ap (λ t. has_prefix t cache_service_path) (sym same)
          ∙ has_prefix_more p cache_service_path (slash ∷ []) h))
  | inr other ↦ other
]

module _ (j : JwtLibrary) (web : Web j.World) (csh : CacheServiceHandler j.World)
    (psh : ProvisionServiceHandler j.World) where
  cache_route :
      {R : Type 0} (lift : Reply web.Answer → R) (h : Handler web R) (ctx : Option OidcIdentity)
      (req : web.Request) (w : j.World)
      → text_eq (clean_url_path (web.path req)) (web.path req) ≡ true
      → has_prefix (web.path req) cache_service_path ≡ true
      → serve_mux web lift ((cache_service_path, h) ∷ []) ctx req w ≡ h ctx req w
  unfolding serve_mux dispatch is_pattern
  cache_route lift h ctx req w clean begins =
      let same = text_eq→eq (clean_url_path (web.path req)) (web.path req) clean in
      let no = longer (web.path req) cache_service_path slash begins in
      rw (clean, same, no, begins) refl

  cache_routes :
      {R : Type 0} (lift : Reply web.Answer → R) (h k : Handler web R) (ctx : Option OidcIdentity)
      (req : web.Request) (w : j.World)
      → text_eq (clean_url_path (web.path req)) (web.path req) ≡ true
      → has_prefix (web.path req) cache_service_path ≡ true
      → serve_mux web lift ((cache_service_path, h) ∷ (provision_service_path, k) ∷ []) ctx req w
        ≡ h ctx req w
  unfolding serve_mux dispatch is_pattern
  cache_routes lift h k ctx req w clean begins =
      let same = text_eq→eq (clean_url_path (web.path req)) (web.path req) clean in
      let no = longer (web.path req) cache_service_path slash begins in
      let nor = not_provision (web.path req) begins in rw (clean, same, no, nor, begins) refl

  -- Every request for a path of the cache service, if the path is clean, gets the same answer from the
  -- RPC server and from the Lambda function, and has the same effect.
  pub rpc_lambda_alike :
      (req : web.Request) (w : j.World)
      → clean_url_path (web.path req) ≡ web.path req
      → has_prefix (web.path req) cache_service_path ≡ true
      → rpc_server j web csh psh req w ≡ lambda_server j web csh req w
  unfolding rpc_server lambda_server
  rpc_lambda_alike req w clean begins =
      let same = eq→text_eq (clean_url_path (web.path req)) (web.path req) clean in
      ap
        (λ next.
          oidc_auth_middleware j default_oidc_providers rpc_audience next (web.authorization req) w)
        (λ k i v.
          cache_routes (λ r. r) (new_cache_service_handler web csh)
            (new_provision_service_handler web psh) (some i) req v same begins k)
      ∙ sym (
          cache_route answered
            (λ ctx req.
              oidc_auth_middleware j default_oidc_providers lambda_audience
                (λ i. new_cache_service_handler web csh (some i) req) (web.authorization req))
            none req w same begins)
