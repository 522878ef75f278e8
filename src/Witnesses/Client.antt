-- ===== src/Witnesses/Client.antt =====
-- A client that saves an archive at the server in memory.
use zipstash.Base.{
  ◌≡◌, refl, false, [], ◌∷◌, some, codes, text_eq, has_prefix, ok, on_error, reads, pure, ◌>>=◌,
  deref, guard, slt64, errors_is,
}
use zipstash.GoStd.CleanPath.{join_path, clean, clean_step}
use zipstash.GoStd.Strings.{join, split}
use zipstash.GoStd.Words.{is_space}
use zipstash.Keys.{from_provider_v1, tenant_key, build_cache_key}
use zipstash.Index.{validate, contains}
use zipstash.Backend.Laws.{attribute}
use zipstash.Store.{put_tenant, put_cache, exists_cache, exists_tenant_by_key}
use zipstash.Presigner.{generate_file_upload_instructions}
use zipstash.CacheService.Handlers.{
  new_record, validate_owner, check_entry, create_entry, complete_upload, update_entry,
}
use zipstash.Provision.{create_tenant}
use zipstash.Client.Convert.{convert_provider_type_v1, check_path, fields}
use zipstash.Client.Save.{SaveCmd, Services, save, save_new, after_create, send_archive}
use zipstash.Client.Saved.{IsSaved, save-IsSaved}
use zipstash.Memory.{
  MemoryWorld, memory, insert, is_some, find, first_match, matches, is_text, begins_with, value_of,
  value_at,
}
use zipstash.Witnesses.World.{bucket, identity, platform, start}

abbrev services : Services
services = record {
  World = MemoryWorld;
  platform = platform;
  get_token = λ source audience w. (ok (codes "tok"), w);
  check_entry = λ header req w. check_entry memory bucket (some identity) req w;
  create_entry = λ header req w. create_entry memory bucket (some identity) req w;
  update_entry = λ header req w. update_entry memory bucket req w;
  build_archive = λ paths key w.
      (ok (record { archive_path = codes "/tmp/a.zip"; size = 10; sha256sum = codes "ab" }), w);
  upload = λ path instructions limit w.
      (ok (record { etag = codes "e"; part = 1; part_size = 10 } ∷ []), w);
}

abbrev command : SaveCmd
command = record {
  key = codes "k1";
  path = codes "src bin";
  token_source = codes "github_actions";
  branch = codes "main";
  name = codes "app";
  owner = codes "octo";
  skip = false;
}

saved : save services command start ≡ (ok tt, (save services command start).1)
unfolding create_tenant validate contains put_tenant insert is_some find on_error reads pure ◌>>=◌
    codes text_eq from_provider_v1 create_entry deref guard validate_owner exists_tenant_by_key
    first_match matches is_text begins_with attribute value_of value_at tenant_key has_prefix
    exists_cache generate_file_upload_instructions put_cache slt64 errors_is update_entry
    complete_upload new_record check_entry build_cache_key join_path clean join split clean_step
    convert_provider_type_v1 save save_new after_create send_archive check_path fields is_space
saved = refl

save-IsSaved_example : IsSaved services command start (save services command start).1
save-IsSaved_example = save-IsSaved services command start saved
