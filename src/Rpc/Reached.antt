-- ===== src/Rpc/Reached.antt =====
-- internal/commands/rpc.go and lambda.go: which request reaches which operation, and as whom.
use zipstash.Base.{
  ◌≡◌, ap, true, inl, inr, List, [], ◌∷◌, ◌++◌, Option, some, Text, text_eq, has_prefix, text_eq→eq,
  Bool-cases, ok,
}
use zipstash.GoStd.CleanPath.{slash}
use zipstash.CiAuth.{OidcIdentity, default_oidc_providers}
use zipstash.CiAuth.Bearer.{extract_bearer_token}
use zipstash.CiAuth.Jwt.{JwtLibrary, IsVouched}
use zipstash.CiAuth.Middleware.{answered, oidc_auth_middleware-IsServed}
use zipstash.Rpc.{
  Web, Handler, Message, Operation, Reply, reply, page_not_found, moved, CacheServiceHandler,
  ProvisionServiceHandler, create_entry_request, create_entry_response, update_entry_request,
  update_entry_response, get_entry_request, get_entry_response, check_entry_request,
  check_entry_response, create_tenant_request, create_tenant_response, get_tenant_request,
  get_tenant_response, create_entry_procedure, update_entry_procedure, get_entry_procedure,
  check_entry_procedure, create_tenant_procedure, get_tenant_procedure, answer_by,
  cache_service_path, provision_service_path, new_cache_service_handler,
  new_provision_service_handler,
}
use zipstash.Rpc.Servers.{clean_url_path, dispatch, serve_mux, rpc_audience, rpc_server, is_pattern}

module _ {World : Type 0} (csh : CacheServiceHandler World)
    (psh : ProvisionServiceHandler World) where
  -- Which operation stands under which procedure.
  pub data IsProcedure : (m n : Message) → Text → Operation World m n → Type 0 where
    creates_entry :
        IsProcedure create_entry_request create_entry_response create_entry_procedure
          csh.create_entry
    updates_entry :
        IsProcedure update_entry_request update_entry_response update_entry_procedure
          csh.update_entry
    gets_entry : IsProcedure get_entry_request get_entry_response get_entry_procedure csh.get_entry
    checks_entry :
        IsProcedure check_entry_request check_entry_response check_entry_procedure csh.check_entry
    creates_tenant :
        IsProcedure create_tenant_request create_tenant_response create_tenant_procedure
          psh.create_tenant
    gets_tenant :
        IsProcedure get_tenant_request get_tenant_response get_tenant_procedure psh.get_tenant

module _ {World : Type 0} (web : Web World) (csh : CacheServiceHandler World)
    (psh : ProvisionServiceHandler World) where
  -- The operation under the path of the request gave the answer.
  pub record IsAnswered (ctx : Option OidcIdentity) (req : web.Request) (w : World) (a : web.Answer)
      (w' : World) : Type 0 where
    pub m : Message
    pub n : Message
    pub operation : Operation World m n
    pub procedure : IsProcedure csh psh m n (web.path req) operation
    pub answers : web.new_unary_handler m n (web.path req) operation ctx req w ≡ (a, w')

  by_procedure :
      (m n : Message) (procedure : Text) (f : Operation World m n) (ctx : Option OidcIdentity)
      (req : web.Request) (w : World) {a : web.Answer} {w' : World}
      → IsProcedure csh psh m n procedure f
      → text_eq (web.path req) procedure ≡ true
      → answer_by web m n procedure f ctx req w ≡ (reply a, w')
      → IsAnswered ctx req w a w'
  by_procedure m n procedure f ctx req w {a} {w'} p e h =
      let same = text_eq→eq (web.path req) procedure e in
      let r = web.new_unary_handler m n procedure f ctx req w in
      let first : reply r.0 ≡ reply a = ap (λ p. p.0) h in
      let second : r.1 ≡ w' = ap (λ p. p.1) h in
      let answer : r.0 ≡ a = cc in
      record {
        m = m;
        n = n;
        operation = f;
        procedure = rw same p;
        answers = rw same (λ i. (answer i, second i));
      }

  not_reply :
      {C : Type 0} (w : World) {a : web.Answer} {w' : World}
      → ◌≡◌ {A = Reply web.Answer × World} (page_not_found, w) (reply a, w')
      → C
  not_reply w h = cc

  not_moved :
      {C : Type 0} (w : World) {p : Text} {a : web.Answer} {w' : World}
      → ◌≡◌ {A = Reply web.Answer × World} (moved p, w) (reply a, w')
      → C
  not_moved w h = cc

  cache-IsAnswered :
      (ctx : Option OidcIdentity) (req : web.Request) (w : World) {a : web.Answer} {w' : World}
      → new_cache_service_handler web csh ctx req w ≡ (reply a, w')
      → IsAnswered ctx req w a w'
  unfolding new_cache_service_handler
  cache-IsAnswered ctx req w h = elim (Bool-cases (text_eq (web.path req) create_entry_procedure)) [
    | inl is ↦
        by_procedure create_entry_request create_entry_response create_entry_procedure
          csh.create_entry ctx req w creates_entry is (rw is at h)
    | inr no1 ↦ elim (Bool-cases (text_eq (web.path req) update_entry_procedure)) [
      | inl is ↦
          by_procedure update_entry_request update_entry_response update_entry_procedure
            csh.update_entry ctx req w updates_entry is (rw (no1, is) at h)
      | inr no2 ↦ elim (Bool-cases (text_eq (web.path req) get_entry_procedure)) [
        | inl is ↦
            by_procedure get_entry_request get_entry_response get_entry_procedure csh.get_entry ctx
              req w gets_entry is (rw (no1, no2, is) at h)
        | inr no3 ↦ elim (Bool-cases (text_eq (web.path req) check_entry_procedure)) [
          | inl is ↦
              by_procedure check_entry_request check_entry_response check_entry_procedure
                csh.check_entry ctx req w checks_entry is (rw (no1, no2, no3, is) at h)
          | inr no4 ↦ not_reply w (rw (no1, no2, no3, no4) at h)
        ]
      ]
    ]
  ]

  provision-IsAnswered :
      (ctx : Option OidcIdentity) (req : web.Request) (w : World) {a : web.Answer} {w' : World}
      → new_provision_service_handler web psh ctx req w ≡ (reply a, w')
      → IsAnswered ctx req w a w'
  unfolding new_provision_service_handler
  provision-IsAnswered ctx req w h =
      elim (Bool-cases (text_eq (web.path req) create_tenant_procedure)) [
        | inl is ↦
            by_procedure create_tenant_request create_tenant_response create_tenant_procedure
              psh.create_tenant ctx req w creates_tenant is (rw is at h)
        | inr no1 ↦ elim (Bool-cases (text_eq (web.path req) get_tenant_procedure)) [
          | inl is ↦
              by_procedure get_tenant_request get_tenant_response get_tenant_procedure
                psh.get_tenant ctx req w gets_tenant is (rw (no1, is) at h)
          | inr no2 ↦ not_reply w (rw (no1, no2) at h)
        ]
      ]

  mux-IsAnswered :
      (ctx : Option OidcIdentity) (req : web.Request) (w : World) {a : web.Answer} {w' : World}
      → serve_mux web
          (λ r. r)
          ((cache_service_path, new_cache_service_handler web csh)
            ∷ (provision_service_path, new_provision_service_handler web psh)
            ∷ [])
          ctx
          req
          w
        ≡ (reply a, w')
      → IsAnswered ctx req w a w'
  unfolding serve_mux dispatch
  mux-IsAnswered ctx req w h =
      let routes : List (Text × Handler web (Reply web.Answer)) =
        (cache_service_path, new_cache_service_handler web csh)
        ∷ (provision_service_path, new_provision_service_handler web psh)
        ∷ [] in
      elim (Bool-cases
        (is_pattern web (λ r. r) routes (clean_url_path (web.path req) ++ slash ∷ []))) [
          | inl is ↦ not_moved w (rw is at h)
          | inr no1 ↦ elim (Bool-cases (text_eq (clean_url_path (web.path req)) (web.path req))) [
            | inr no2 ↦ not_moved w (rw (no1, no2) at h)
            | inl is ↦ elim (Bool-cases (has_prefix (web.path req) cache_service_path)) [
              | inl begins ↦ cache-IsAnswered ctx req w (rw (no1, is, begins) at h)
              | inr no2 ↦ elim (Bool-cases (has_prefix (web.path req) provision_service_path)) [
                | inl begins ↦ provision-IsAnswered ctx req w (rw (no1, is, no2, begins) at h)
                | inr no3 ↦ not_reply w (rw (no1, is, no2, no3) at h)
              ]
            ]
          ]
        ]

-- A request that was vouched for, and the operation that answered it.
pub record IsReached (j : JwtLibrary) (web : Web j.World) (csh : CacheServiceHandler j.World)
    (psh : ProvisionServiceHandler j.World) (req : web.Request) (w : j.World) (a : web.Answer)
    (w' : j.World) : Type 0 where
  pub token : Text
  pub identity : OidcIdentity
  pub validated : j.World
  pub extracts : extract_bearer_token (web.authorization req) ≡ ok token
  pub vouched : IsVouched j default_oidc_providers token rpc_audience identity
  pub answered : IsAnswered web csh psh (some identity) req validated a w'

-- A client of the RPC server gets an answer of an operation only for a request whose token was
-- vouched for; the operation is the one that belongs to the path, and its context holds the identity
-- of that token.
pub rpc_server-IsReached :
    (j : JwtLibrary) (web : Web j.World) (csh : CacheServiceHandler j.World)
    (psh : ProvisionServiceHandler j.World) (req : web.Request) (w : j.World) {a : web.Answer}
    {w' : j.World}
    → rpc_server j web csh psh req w ≡ (answered (reply a), w')
    → IsReached j web csh psh req w a w'
unfolding rpc_server
rpc_server-IsReached j web csh psh req w h =
    let s =
      oidc_auth_middleware-IsServed j default_oidc_providers rpc_audience _ (web.authorization req)
        w h in
    record {
      token = s.token;
      identity = s.identity;
      validated = s.validated;
      extracts = s.extracts;
      vouched = s.vouched;
      answered = mux-IsAnswered web csh psh (some s.identity) req s.validated s.answers;
    }
