-- ===== src/Witnesses/Tokens.antt =====
-- Tokens, a signed request and a tenant that the admin command makes.
use zipstash.Base.{
  ◌≡◌, ◌≢◌, refl, [], ◌∷◌, ◌++◌, none, some, Bool, true, false, Text, codes, text_eq, ok, on_error,
  reads, pure, ◌>>=◌, List, ◌⊎◌, inl, inr,
}
use zipstash.GoStd.Words.{trim_space, is_space}
use zipstash.GoStd.Encoding.{hex_encode}
use zipstash.Keys.{Provider, from_provider_v1, unspecified}
use zipstash.Index.{TenantRecord, validate, contains}
use zipstash.Store.{
  put_tenant, exists_tenant_by_key, by_tenant_key, empty_tenant_record, tenant_key_partition,
}
use zipstash.CacheService.Handlers.{validate_owner}
use zipstash.Provision.{create_tenant}
use zipstash.Memory.{memory, insert, is_some, find, first_match}
use zipstash.Memory.Lawful.{memory_lawful, memory-IsFollowed}
use zipstash.Tokens.{
  System, succeeded, get_token, github_token, required, with_audience, token_of, read_limited,
}
use zipstash.Tokens.Minted.{IsMinted, get_token-IsMinted}
use zipstash.Sigv4.{
  reader_of, Signing, copy_body, bytes_of, generate_payload_hash, round_trip, IsSigned,
  round_trip-IsSigned,
}
use zipstash.Admin.{CreateTenantCmd, provider_of, run_create_tenant, run_create_tenant_passes}
use zipstash.Witnesses.World.{bucket, identity, empty_world, start}

-- GitHub answers, and the agent prints a token with a line feed.
abbrev system : System
system = record {
  World = Unit {0};
  Url = Text;
  getenv = λ name w. codes "http://github/token";
  exec = λ dir args w. (record { exit = succeeded; stdout = codes " tok "; stderr = [] }, w);
  parse_url = λ s. ok s;
  set_query = λ u k v. u ++ k ++ v;
  url_string = λ u. u;
  new_request = λ _. ok tt;
  do_get = λ url auth w. (
    ok (record { status_code = 200; body = record { bytes = codes " json "; failure = none } }),
    w,
  );
  value_of_json = λ s. ok s;
}

minted : get_token system (codes "github_actions") (codes "aud") tt ≡ (ok (codes "json"), tt)
unfolding get_token github_token text_eq codes ◌>>=◌ on_error reads required with_audience token_of
    read_limited trim_space is_space
minted = refl

get_token-IsMinted_example :
    IsMinted system (codes "github_actions") (codes "aud") (codes "json") tt tt
get_token-IsMinted_example =
    get_token-IsMinted system (codes "github_actions") (codes "aud") tt minted

-- The transport answers with what it was sent.
abbrev signing : Signing
signing = record {
  World = Unit {0};
  Head = Text;
  Credentials = Text;
  Response = Text;
  service_name = codes "execute-api";
  region = codes "eu";
  sha256 = λ s. s;
  retrieve = λ w. (ok (codes "id"), w);
  sign_http = λ creds head body hash service region w. (ok (creds ++ hash), w);
  transport = λ head body w. (ok (head ++ bytes_of body), w);
}

signed : round_trip signing (codes "POST") (reader_of (90 ∷ [])) tt ≡ (ok (codes "id5aZ"), tt)
unfolding round_trip ◌>>=◌ reads copy_body generate_payload_hash bytes_of hex_encode codes
signed = refl

round_trip-IsSigned_example :
    IsSigned signing (codes "POST") (reader_of (90 ∷ [])) (codes "id5aZ") tt tt
round_trip-IsSigned_example =
    round_trip-IsSigned signing (codes "POST") (reader_of (90 ∷ [])) tt signed

abbrev admin_command : CreateTenantCmd
admin_command = record { provider = codes "github"; tenant_id = codes "t1"; slug = codes "octo" }

tenant_made : run_create_tenant (create_tenant memory) admin_command empty_world ≡ (ok tt, start)
unfolding create_tenant validate contains put_tenant insert is_some find on_error reads pure ◌>>=◌
    codes text_eq from_provider_v1 run_create_tenant provider_of
tenant_made = refl

List-cases :
    (ts : List TenantRecord)
    → (ts ≡ []) ⊎ ((r : TenantRecord) × (rs : List TenantRecord) × (ts ≡ r ∷ rs))
List-cases [] = inl refl
List-cases (r ∷ rs) = inr (r, rs, refl)

index_answers :
    (key : Text)
    → (found : Bool) × (r : TenantRecord) × (exists_tenant_by_key memory key start ≡ ok (found, r))
unfolding exists_tenant_by_key
index_answers key =
    elim (List-cases
      (first_match tenant_key_partition key by_tenant_key start.tenants start.tenants)) [
        | inl e ↦ (false, empty_tenant_record, rw e refl)
        | inr (r, rs, e) ↦ (true, r, rw e refl)
      ]

run_create_tenant_passes_example :
    (provider : Provider) × (rec : TenantRecord) × (provider_of (codes "github") ≡ ok provider)
    × (from_provider_v1 provider ≢ from_provider_v1 unspecified)
    × (validate_owner memory bucket (some identity) (codes "octo") (from_provider_v1 provider) start
        ≡ (ok rec, start))
run_create_tenant_passes_example =
    run_create_tenant_passes memory bucket memory_lawful admin_command identity empty_world start
      start tenant_made refl (memory-IsFollowed start) index_answers
