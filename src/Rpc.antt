-- ===== src/Rpc.antt =====
-- api/gen/proto/go/cache/v1/cachev1connect and provision/v1/provisionv1connect: the two services, and
-- the handlers that route a request to their operations.
pub mod Servers
pub mod Services
pub mod Alike
pub mod Reached
use zipstash.Base.{Bool, Option, Text, codes, text_eq, if◌then◌else◌, Io}
use zipstash.Api
use zipstash.CiAuth.{OidcIdentity}

-- The messages of the operations.
pub data Message : Type 0 where
  create_entry_request create_entry_response update_entry_request update_entry_response : Message
  get_entry_request get_entry_response check_entry_request check_entry_response : Message
  create_tenant_request create_tenant_response get_tenant_request get_tenant_response : Message

abbrev pub MessageOf : Message → Type 0
MessageOf create_entry_request = Api.CreateEntryRequest
MessageOf create_entry_response = Api.CreateEntryResponse
MessageOf update_entry_request = Api.UpdateEntryRequest
MessageOf update_entry_response = Api.UpdateEntryResponse
MessageOf get_entry_request = Api.GetEntryRequest
MessageOf get_entry_response = Api.GetEntryResponse
MessageOf check_entry_request = Api.CheckEntryRequest
MessageOf check_entry_response = Api.CheckEntryResponse
MessageOf create_tenant_request = Api.CreateTenantRequest
MessageOf create_tenant_response = Api.CreateTenantResponse
MessageOf get_tenant_request = Api.GetTenantRequest
MessageOf get_tenant_response = Api.GetTenantResponse

-- An operation, with the identity that its context may hold.
abbrev pub Operation : Type 0 → Message → Message → Type 0
Operation World m n = Option OidcIdentity → MessageOf m → Io World (MessageOf n)

-- net/http and connect: requests, and the handler that decodes a request, runs an operation and
-- encodes its answer.
pub record Web (World : Type 0) : Type 1 where
  pub Request : Type 0
  pub Answer : Type 0
  pub path : Request → Text
  pub authorization : Request → Text
  pub new_unary_handler :
      (m n : Message)
      → Text
      → Operation World m n
      → Option OidcIdentity
      → Request
      → World
      → Answer × World

pub record CacheServiceHandler (World : Type 0) : Type 0 where
  pub create_entry : Operation World create_entry_request create_entry_response
  pub update_entry : Operation World update_entry_request update_entry_response
  pub get_entry : Operation World get_entry_request get_entry_response
  pub check_entry : Operation World check_entry_request check_entry_response

pub record ProvisionServiceHandler (World : Type 0) : Type 0 where
  pub create_tenant : Operation World create_tenant_request create_tenant_response
  pub get_tenant : Operation World get_tenant_request get_tenant_response

abbrev pub create_entry_procedure : Text
create_entry_procedure = codes "/cache.v1.CacheService/CreateEntry"

abbrev pub update_entry_procedure : Text
update_entry_procedure = codes "/cache.v1.CacheService/UpdateEntry"

abbrev pub get_entry_procedure : Text
get_entry_procedure = codes "/cache.v1.CacheService/GetEntry"

abbrev pub check_entry_procedure : Text
check_entry_procedure = codes "/cache.v1.CacheService/CheckEntry"

abbrev pub create_tenant_procedure : Text
create_tenant_procedure = codes "/provision.v1.ProvisionService/CreateTenant"

abbrev pub get_tenant_procedure : Text
get_tenant_procedure = codes "/provision.v1.ProvisionService/GetTenant"

abbrev pub cache_service_path : Text
cache_service_path = codes "/cache.v1.CacheService/"

abbrev pub provision_service_path : Text
provision_service_path = codes "/provision.v1.ProvisionService/"

-- What a client gets: the answer of an operation, 404, or a redirection.
pub data Reply (A : Type 0) : Type 0 where
  reply : A → Reply A
  page_not_found : Reply A
  moved : Text → Reply A

module _ {World : Type 0} (web : Web World) where
  abbrev pub Handler : Type 0 → Type 0
  Handler R = Option OidcIdentity → web.Request → World → R × World

  abbrev pub answer_by : (m n : Message) → Text → Operation World m n → Handler (Reply web.Answer)
  answer_by m n procedure f ctx req w =
      let r = web.new_unary_handler m n procedure f ctx req w in (reply r.0, r.1)

  -- The second component of NewCacheServiceHandler; the first is `cache_service_path`.
  unfoldable pub new_cache_service_handler : CacheServiceHandler World → Handler (Reply web.Answer)
  new_cache_service_handler svc ctx req w =
      if text_eq (web.path req) create_entry_procedure
      then answer_by create_entry_request create_entry_response create_entry_procedure
          svc.create_entry ctx req w
      else if text_eq (web.path req) update_entry_procedure
      then answer_by update_entry_request update_entry_response update_entry_procedure
          svc.update_entry ctx req w
      else if text_eq (web.path req) get_entry_procedure
      then answer_by get_entry_request get_entry_response get_entry_procedure svc.get_entry ctx req
          w
      else if text_eq (web.path req) check_entry_procedure
      then answer_by check_entry_request check_entry_response check_entry_procedure svc.check_entry
          ctx req w
      else (page_not_found, w)

  -- The second component of NewProvisionServiceHandler; the first is `provision_service_path`.
  unfoldable pub new_provision_service_handler :
      ProvisionServiceHandler World → Handler (Reply web.Answer)
  new_provision_service_handler svc ctx req w =
      if text_eq (web.path req) create_tenant_procedure
      then answer_by create_tenant_request create_tenant_response create_tenant_procedure
          svc.create_tenant ctx req w
      else if text_eq (web.path req) get_tenant_procedure
      then answer_by get_tenant_request get_tenant_response get_tenant_procedure svc.get_tenant ctx
          req w
      else (page_not_found, w)
