-- ===== src/Witnesses/Rpc.antt =====
-- A caller with a token of a pipeline makes a tenant on the RPC server.
use zipstash.Base.{
  ℕ, ◌≡◌, refl, true, some, none, Option, Text, codes, text_eq, has_prefix, Result, ok, err, crash,
  external, if◌then◌else◌, pure, reads, on_error, ◌>>=◌,
}
use zipstash.GoStd.Words.{split_word, trim_space, is_space}
use zipstash.GoStd.CleanPath.{clean, clean_step, go_up, or_dot, resolve, rev_onto}
use zipstash.GoStd.Strings.{join, split, add_to_head}
use zipstash.Index.{validate, contains}
use zipstash.Keys.{from_provider_v1}
use zipstash.Store.{put_tenant}
use zipstash.Provision.{create_tenant}
use zipstash.Memory.{MemoryWorld, memory, insert, is_some, find}
use zipstash.CiAuth.{OidcIdentity, lookup, buildkite_issuer}
use zipstash.CiAuth.Bearer.{extract_bearer_token, bearer_header}
use zipstash.CiAuth.Jwt.{JwtLibrary, parse_claims, register_jwks_endpoints, validate_token}
use zipstash.CiAuth.Middleware.{answered, oidc_auth_middleware}
use zipstash.Rpc.{
  Message, MessageOf, Operation, Web, reply, create_tenant_request, create_tenant_procedure,
  get_entry_procedure, cache_service_path, new_cache_service_handler, new_provision_service_handler,
}
use zipstash.Rpc.Servers.{
  ends_in_slash, clean_url_path, dispatch, is_pattern, serve_mux, rpc_server, lambda_server,
}
use zipstash.Rpc.Services.{cache_service, provision_service}
use zipstash.Rpc.Reached.{IsReached, rpc_server-IsReached}
use zipstash.Rpc.Alike.{rpc_lambda_alike}
use zipstash.Witnesses.World.{bucket, empty_world, start, tenant_request}
use zipstash.Witnesses.Auth.{acme}

-- The library of Witnesses.Auth over the world of the tables.
abbrev library : JwtLibrary
library = record {
  World = MemoryWorld;
  Token = Text;
  KeySet = Text;
  parse_unverified = λ token audience. ok token;
  parse_verified = λ token set issuer audience w.
      if text_eq token (codes "tok") then ok token else err (external 1);
  issuer = λ token. some buildkite_issuer;
  subject = λ token. some (codes "pipeline");
  is_registered = λ url w. true;
  register = λ url w. (ok tt, w);
  cached_set = λ url w. ok url;
  github_claims = λ token. err (external 2);
  buildkite_claims = λ token. ok acme;
}

-- The only body is that of a tenant.
body : (m : Message) → Option (MessageOf m)
body create_tenant_request = some tenant_request
body _ = none

status : {A : Type 0} → Result A × MemoryWorld → ℕ × MemoryWorld
status (ok _, w) = (200, w)
status (err _, w) = (500, w)
status (crash _, w) = (500, w)

handle :
    (m n : Message)
    → Option (MessageOf m)
    → Operation MemoryWorld m n
    → Option OidcIdentity
    → MemoryWorld
    → ℕ × MemoryWorld
handle m n none f ctx w = (400, w)
handle m n (some x) f ctx w = status (f ctx x w)

-- A request is its path; the answer is a status.
abbrev web : Web MemoryWorld
web = record {
  Request = Text;
  Answer = ℕ;
  path = λ req. req;
  authorization = λ req. bearer_header (codes "tok");
  new_unary_handler = λ m n procedure f ctx req w. handle m n (body m) f ctx w;
}

served :
    rpc_server library web
      (cache_service memory bucket)
      (provision_service memory)
      create_tenant_procedure
      empty_world
    ≡ (answered (reply 200), start)
unfolding rpc_server oidc_auth_middleware extract_bearer_token split_word bearer_header codes
    has_prefix validate_token ◌>>=◌ on_error reads lookup text_eq register_jwks_endpoints trim_space
    is_space parse_claims pure clean clean_step go_up or_dot resolve rev_onto add_to_head join split
    clean_url_path dispatch ends_in_slash is_pattern serve_mux new_cache_service_handler
    new_provision_service_handler create_tenant validate contains put_tenant insert is_some find
    from_provider_v1 cache_service provision_service body status handle
served = refl

rpc_server-IsReached_example :
    IsReached library web
      (cache_service memory bucket)
      (provision_service memory)
      create_tenant_procedure
      empty_world
      200
      start
rpc_server-IsReached_example =
    rpc_server-IsReached library web (cache_service memory bucket) (provision_service memory)
      create_tenant_procedure empty_world served

get_entry_clean : clean_url_path get_entry_procedure ≡ get_entry_procedure
unfolding clean_url_path clean clean_step go_up or_dot resolve rev_onto add_to_head join split
    ends_in_slash text_eq codes
get_entry_clean = refl

get_entry_begins : has_prefix get_entry_procedure cache_service_path ≡ true
unfolding has_prefix codes
get_entry_begins = refl

rpc_lambda_alike_example :
    rpc_server library web
      (cache_service memory bucket)
      (provision_service memory)
      get_entry_procedure
      start
    ≡ lambda_server library web (cache_service memory bucket) get_entry_procedure start
rpc_lambda_alike_example =
    rpc_lambda_alike library web (cache_service memory bucket) (provision_service memory)
      get_entry_procedure start get_entry_clean get_entry_begins
