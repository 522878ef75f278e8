-- ===== src/Client/RestoreCmd.antt =====
-- RestoreCmd of internal/commands/client/restore.go, with ExtractFiles of pkg/archive/extract.go.
use zipstash.Base.{
  ℕ, ◌+◌, Bool, true, false, not, List, [], ◌∷◌, some, Text, if◌then◌else◌, Result, ok, err, crash,
  Err, wrap, message, annotate, sentinel, external, connect_error, not_found, Io, pure, reads,
  on_error, ◌>>=◌, two_64, ◌%◌,
}
use zipstash.Api
use zipstash.Archive.{Env, paths_to_mappings, map_path, resolve_home_dir}
use zipstash.CiAuth.Bearer.{bearer_header}
use zipstash.Transfer.Download.{CacheDownloadInstruction, DownloadedFile}
use zipstash.Client.Convert.{convert_provider_type_v1, check_path}
use zipstash.Client.Save.{audience}
use zipstash.Client.Restore.{convert_to_download_instructions, sort_downloads}

pub record RestoreCmd : Type 0 where
  pub key : Text
  pub fallback_branch : Text
  pub path : Text
  pub token_source : Text
  pub branch : Text
  pub name : Text
  pub owner : Text
  pub clean : Bool

-- One call of the function that filepath.WalkDir is given.
pub record DirEntry : Type 0 where
  pub path : Text
  pub failed : Bool
  pub is_dir : Bool

-- What the command calls: token sources, the service (with the header Authorization), the
-- downloader, package os and the extractor of quickzip, in the world. A text names an open file;
-- `content` is what it holds. `open_part` and `copy_part` act on the file of a download.
pub record RestoreServices : Type 1 where
  pub World : Type 0
  pub Zip : Type 0
  pub platform : Api.Platform
  pub env : Env
  pub content : Text → World → Text
  pub get_token : Text → Text → Io World Text
  pub get_entry : Text → Api.GetEntryRequest → Io World Api.GetEntryResponse
  pub download : List CacheDownloadInstruction → ℕ → Io World (List DownloadedFile)
  pub create_temp : Io World Text
  pub open_part : DownloadedFile → Io World (Unit {0})
  pub copy_part : Text → DownloadedFile → Io World ℕ
  pub remove_part : DownloadedFile → World → World
  pub walk_dir : Text → (DirEntry → Io World (Unit {0})) → Io World (Unit {0})
  pub chmod : Text → ℕ → Io World (Unit {0})
  pub remove_all : Text → Io World (Unit {0})
  pub new_extractor : Text → ℕ → Io World Zip
  pub extract_with_path_mapper : Zip → (Text → Result Text) → Io World (Unit {0})
  pub remove : Text → World → World

-- connect.CodeOf(err) == connect.CodeNotFound, down the chain of wraps
unfoldable pub is_not_found : Err → Bool
is_not_found (connect_error not_found _) = true
is_not_found (connect_error _ _) = false
is_not_found (wrap _ e) = is_not_found e
is_not_found (message _) = false
is_not_found (annotate _ _) = false
is_not_found (sentinel _) = false
is_not_found (external _) = false

abbrev pub get_request_of : RestoreCmd → Api.Platform → Api.GetEntryRequest
get_request_of c platform = record {
  provider_type = convert_provider_type_v1 c.token_source;
  key = c.key;
  name = c.name;
  branch = c.branch;
  owner = c.owner;
  fallback_branch = c.fallback_branch;
  platform = some platform;
}

module _ (s : RestoreServices) where
  -- `defer os.Remove(path)`, whose error is dropped
  unfoldable pub append_to_file_and_remove : Text → DownloadedFile → Io s.World ℕ
  append_to_file_and_remove zip d = do
    _ ← on_error (wrap "failed to open file") (s.open_part d)
    n ← on_error (wrap "failed to copy file") (s.copy_part zip d)
    λ w. (ok n, s.remove_part d w)

  unfoldable pub append_parts : Text → ℕ → List DownloadedFile → Io s.World ℕ
  append_parts zip len [] = pure len
  append_parts zip len (d ∷ ds) = do
    n ← on_error (wrap "failed to write file") (append_to_file_and_remove zip d)
    append_parts zip ((len + n) % two_64) ds

  -- `combineParts`: the open file and its length
  unfoldable pub combine_files : List DownloadedFile → Io s.World (Text × ℕ)
  combine_files downloads = do
    zip ← on_error (wrap "failed to create temp file") s.create_temp
    len ← append_parts zip 0 downloads
    pure (zip, len)

  -- Directories are made writable; errors of the walk are ignored.
  unfoldable pub make_writable : DirEntry → Io s.World (Unit {0})
  make_writable e = if e.failed then pure tt else if e.is_dir then s.chmod e.path 0o777 else pure tt

  unfoldable pub clean_path : Text → Io s.World (Unit {0})
  clean_path dir = do _ ← s.walk_dir dir make_writable; s.remove_all dir

  unfoldable pub clean_paths : List Text → Io s.World (Unit {0})
  clean_paths [] = pure tt
  clean_paths (p ∷ ps) = do
    dir ← on_error (wrap "failed to resolve home dir") (reads (λ _. resolve_home_dir s.env p))
    _ ← on_error (wrap "failed to clean path") (clean_path dir)
    clean_paths ps

  unfoldable pub extract_files : Text → ℕ → List Text → Io s.World (Unit {0})
  extract_files zip len paths = do
    extract ← on_error (wrap "failed to create extractor") (s.new_extractor zip len)
    mappings ←
        on_error (wrap "failed to create mappings") (reads (λ _. paths_to_mappings s.env paths))
    on_error (wrap "failed to extract zip file")
        (s.extract_with_path_mapper extract (map_path mappings))

  unfoldable pub clean_if_asked : Bool → List Text → Io s.World (Unit {0})
  clean_if_asked true paths = clean_paths paths
  clean_if_asked false paths = pure tt

  -- once the service answered
  unfoldable pub restore_entry : RestoreCmd → Api.GetEntryResponse → Io s.World Bool
  restore_entry c resp = do
    downloads ←
        on_error (wrap "failed to download cache entry")
          (s.download (convert_to_download_instructions resp.download_instructions) 20)
    combined ←
        on_error (wrap "failed to create temp file") (combine_files (sort_downloads downloads))
    paths ← on_error (wrap "failed to check path") (reads (λ _. check_path c.path))
    _ ← clean_if_asked c.clean paths
    _ ← on_error (wrap "failed to restore files") (extract_files combined.0 combined.1 paths)
    λ w. (ok (not resp.fallback), s.remove combined.0 w)

  -- An entry that is not found is no error.
  unfoldable pub after_get :
      RestoreCmd → Result Api.GetEntryResponse × s.World → Result Bool × s.World
  after_get c (ok resp, w) = restore_entry c resp w
  after_get c (err e, w) =
      if is_not_found e then (ok false, w) else (err (wrap "failed to get cache entry" e), w)
  after_get c (crash x, w) = (crash x, w)

  unfoldable pub restore : RestoreCmd → Io s.World Bool
  restore c = do
    token ← on_error (wrap "failed to get token") (s.get_token c.token_source audience)
    λ w. after_get c (s.get_entry (bearer_header token) (get_request_of c s.platform) w)

  -- `Run`; the result is what it prints
  unfoldable pub run_restore : RestoreCmd → Io s.World Bool
  run_restore c = on_error (wrap "failed to restore cache") (restore c)
