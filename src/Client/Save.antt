-- ===== src/Client/Save.antt =====
-- SaveCmd of internal/commands/client/save.go.
use zipstash.Base.{
  ℕ, Bool, true, false, List, some, Text, codes, if◌then◌else◌, Result, ok, err, crash, Err, wrap,
  connect_error, already_exists, message, annotate, sentinel, external, Io, pure, reads, on_error,
  ◌>>=◌,
}
use zipstash.Api
use zipstash.Archive.{ArchiveInfo}
use zipstash.CiAuth.Bearer.{bearer_header}
use zipstash.Transfer.Upload
use zipstash.Client.Convert.{
  convert_provider_type_v1, check_path, to_upload_instructions, to_etags_v1,
}

pub record SaveCmd : Type 0 where
  pub key : Text
  pub path : Text
  pub token_source : Text
  pub branch : Text
  pub name : Text
  pub owner : Text
  pub skip : Bool

-- What the command calls: token sources, the service (with the header Authorization), the archive
-- builder and the uploader, in the world.
pub record Services : Type 1 where
  pub World : Type 0
  pub platform : Api.Platform
  pub get_token : Text → Text → Io World Text
  pub check_entry : Text → Api.CheckEntryRequest → Io World Api.CheckEntryResponse
  pub create_entry : Text → Api.CreateEntryRequest → Io World Api.CreateEntryResponse
  pub update_entry : Text → Api.UpdateEntryRequest → Io World Api.UpdateEntryResponse
  pub build_archive : List Text → Text → Io World ArchiveInfo
  pub upload : Text → List Upload.CacheUploadInstruction → ℕ → Io World (List Upload.CachePartETag)

abbrev pub audience : Text
audience = codes "zipstash.wolfe.id.au"

-- connect.CodeOf(err) == connect.CodeAlreadyExists, down the chain of wraps
unfoldable pub is_already_exists : Err → Bool
is_already_exists (connect_error already_exists _) = true
is_already_exists (connect_error _ _) = false
is_already_exists (wrap _ e) = is_already_exists e
is_already_exists (message _) = false
is_already_exists (annotate _ _) = false
is_already_exists (sentinel _) = false
is_already_exists (external _) = false

abbrev pub check_request_of : SaveCmd → Api.Platform → Api.CheckEntryRequest
check_request_of c platform = record {
  provider_type = convert_provider_type_v1 c.token_source;
  key = c.key;
  name = c.name;
  branch = c.branch;
  owner = c.owner;
  platform = some platform;
}

abbrev pub entry_of : SaveCmd → List Text → ArchiveInfo → Api.CacheEntry
entry_of c paths info = record {
  key = c.key;
  file_size = info.size;
  owner = c.owner;
  name = c.name;
  branch = c.branch;
  compression = codes "zip";
  sha256sum = info.sha256sum;
  paths = paths;
}

abbrev pub create_request_of :
    SaveCmd → List Text → ArchiveInfo → Api.Platform → Api.CreateEntryRequest
create_request_of c paths info platform = record {
  provider_type = convert_provider_type_v1 c.token_source;
  cache_entry = some (entry_of c paths info);
  multipart_supported = false;
  platform = some platform;
}

module _ (s : Services) where
  -- once the entry was created
  unfoldable pub send_archive : Text → ArchiveInfo → Api.CreateEntryResponse → Io s.World (Unit {0})
  send_archive token info created = do
    etags ←
        on_error (wrap "failed to upload")
          (s.upload info.archive_path (to_upload_instructions created.upload_instructions) 20)
    _ ← on_error (wrap "failed to update cache entry") (
        s.update_entry (bearer_header token)
          (record { id = created.id; multipart_etags = to_etags_v1 etags }))
    pure tt

  -- An entry that exists by now is no error.
  unfoldable pub after_create :
      Text → ArchiveInfo → Result Api.CreateEntryResponse × s.World → Result (Unit {0}) × s.World
  after_create token info (ok created, w) = send_archive token info created w
  after_create token info (err e, w) =
      if is_already_exists e then (ok tt, w) else (err (wrap "failed to create cache entry" e), w)
  after_create token info (crash c, w) = (crash c, w)

  unfoldable pub save_new : SaveCmd → Text → Io s.World (Unit {0})
  save_new c token = do
    paths ← on_error (wrap "failed to check path") (reads (λ _. check_path c.path))
    info ← on_error (wrap "failed to build archive") (s.build_archive paths c.key)
    λ w.
        after_create token info
          (s.create_entry (bearer_header token) (create_request_of c paths info s.platform) w)

  unfoldable pub save : SaveCmd → Io s.World (Unit {0})
  save c = do
    token ← on_error (wrap "failed to get token") (s.get_token c.token_source audience)
    checked ←
        on_error (wrap "failed to check entry")
          (s.check_entry (bearer_header token) (check_request_of c s.platform))
    if checked.exists then pure tt else save_new c token

  -- `Run`
  unfoldable pub run_save : SaveCmd → Io s.World (Unit {0})
  run_save c = if c.skip then pure tt else save c
