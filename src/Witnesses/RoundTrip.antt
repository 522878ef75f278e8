-- ===== src/Witnesses/RoundTrip.antt =====
-- An entry of ten bytes that is saved and restored, on the table in memory.
use zipstash.Base.{
  ℕ, ◌≡◌, ◌∙◌, refl, sym, ap, Bool-cases, inl, inr, text_eq→eq, if◌then◌else◌, true, false, List,
  [], ◌∷◌, none, some, Option, Text, codes, text_eq, has_prefix, ok, message, arith, All, on_error,
  reads, pure, deref, guard, ◌>>=◌, slt64, errors_is, Result,
}
use zipstash.GoStd.Strings.{join, split}
use zipstash.GoStd.CleanPath.{join_path, clean, clean_step}
use zipstash.GoStd.Query.{query_escape, escape_byte, is_unreserved}
use zipstash.Keys.{
  from_provider_v1, build_cache_key, created_value, created_prefix, escape_value, tenant_key,
}
use zipstash.Index.{validate, contains}
use zipstash.Backend.Laws.{attribute}
use zipstash.Store.{
  put_cache, exists_cache, exists_cache_by_fallback_branch, exists_tenant_by_key, put_tenant,
}
use zipstash.Presigner.{
  generate_file_upload_instructions, generate_file_download_instructions, single_download,
}
use zipstash.CacheService.Convert.{from_instruct_to_download_v1}
use zipstash.CacheService.Handlers.{
  new_record, validate_owner, create_entry, complete_upload, update_entry,
}
use zipstash.CacheService.Get.{exists_with_fallback, exists_in_s3}
use zipstash.Provision.{create_tenant}
use zipstash.Api
use zipstash.Offsets
use zipstash.Memory.{
  MemoryWorld, memory, insert, is_some, find, first_match, matches, is_text, begins_with, value_of,
  value_at, object_size,
}
use zipstash.Memory.Lawful.{memory_lawful}
use zipstash.Witnesses.World.{
  bucket, identity, platform, entry, create_request, start, run_create, create_ran, created_id,
  value,
}
use zipstash.Witnesses.Pool.{length-bytes}
use zipstash.CacheService.Get.{get_entry}
use zipstash.Transfer.Pool.{start_pool, launch, finish, here, step, all_done}
use zipstash.Transfer.Download.{
  CacheDownloadInstruction, DownloadedFile, Answer, answered, failed, HttpReader, range_of,
  download, Downloads, done, downloaded_of, downloaded_part,
}
use zipstash.Presigner.{method_get}
use zipstash.Client.Restore.{convert_to_download_instructions, sort_downloads, combine_parts}
use zipstash.Client.S3.{IsServed, Serves, AnswersPlainly}
use zipstash.Witnesses.Saving.{
  key, file, update, uploaded_world, saved, store, sender, takes, sent_received, saving_ran, held,
  saved_held,
}
use zipstash.Client.RoundTrip.{restore_request, saved_then_restored}

-- The object is got at its key.
answer : Text → Option Text → Answer
answer url none = if text_eq url key then answered 200 [] 10 file else failed (message "NotFound")
answer url (some range) = failed (message "no ranges")

abbrev client : HttpReader
client = record { do_get = λ method url range n. answer url range; retry = λ f. f 0 }

got_whole :
    (s3key url : Text) {status size : ℕ} {etag body : Text}
    → ok s3key ≡ ok url
    → answer url none ≡ answered status etag size body
    → (status ≡ 200) × (held (object_size s3key saved.objects) ≡ some body)
unfolding answer
got_whole s3key url {status} {size} {etag} {body} signed h = elim (Bool-cases (text_eq url key)) [
  | inl same ↦
      let e : answered 200 [] 10 file ≡ answered status etag size body = rw same at h in
      let at : s3key ≡ key = cc (text_eq→eq url key same) in
      (cc, rw at saved_held ∙ (let f : file ≡ body = cc in ap some f))
  | inr other ↦
      absurd
        (let e : failed (message "NotFound") ≡ answered status etag size body = rw other at h in cc)
]

never_ranges :
    (s3key f : Text) (os : List Offsets.Offset)
    → All (IsServed memory client saved bucket s3key f) os
unfolding answer
never_ranges s3key f [] = tt
never_ranges s3key f (o ∷ os) =
    (λ url etag body n size signed z inside h. absurd cc, never_ranges s3key f os)

serves : Serves memory client saved (store.object saved)
unfolding answer
serves = record {
  whole = λ cache s3key url etag body n size signed h. (got_whole s3key url signed h).1;
  ranges = λ cache s3key f at os h. never_ranges s3key f os;
  retries = λ f d h. (0, h);
}

plainly : AnswersPlainly client
unfolding answer
plainly = record {
  whole = λ url etag body n status size h good. (got_whole url url refl h).0;
  ranges = λ url range etag body n status size h good. absurd cc;
}

abbrev asked : Api.GetEntryRequest
asked = restore_request create_request entry (codes "main")

abbrev run_get : Result Api.GetEntryResponse × MemoryWorld
run_get = get_entry memory bucket (some identity) asked saved

abbrev got : Api.GetEntryResponse
got =
    value
      (record {
        cache_entry = entry;
        download_instructions = [];
        multipart = true;
        fallback = false;
      })
      run_get.0

got_ran : get_entry memory bucket (some identity) asked saved ≡ (ok got, run_get.1)
unfolding create_tenant validate contains put_tenant insert is_some find on_error reads pure ◌>>=◌
    codes text_eq from_provider_v1 create_entry deref guard validate_owner exists_tenant_by_key
    first_match matches is_text begins_with attribute value_of value_at tenant_key has_prefix
    exists_cache generate_file_upload_instructions put_cache slt64 errors_is update_entry
    complete_upload new_record build_cache_key join_path clean join split clean_step get_entry
    exists_with_fallback exists_in_s3 exists_cache_by_fallback_branch
    generate_file_download_instructions object_size created_value created_prefix escape_value
    query_escape escape_byte is_unreserved
got_ran = refl

abbrev instruction : CacheDownloadInstruction
instruction = record {
  method = method_get;
  offset = none;
  url = codes "octo/github_actions/linux/arm64/k1";
}

abbrev part : DownloadedFile
part = record { url = instruction.url; content = file; etag = []; part = 1; size = 10 }

part_downloaded : download client instruction ≡ ok part
unfolding download answer range_of downloaded_of downloaded_part text_eq codes
part_downloaded = refl

received : convert_to_download_instructions got.download_instructions ≡ instruction ∷ []
unfolding create_tenant validate contains put_tenant insert is_some find on_error reads pure ◌>>=◌
    codes text_eq from_provider_v1 create_entry deref guard validate_owner exists_tenant_by_key
    first_match matches is_text begins_with attribute value_of value_at tenant_key has_prefix
    exists_cache generate_file_upload_instructions put_cache slt64 errors_is update_entry
    complete_upload new_record build_cache_key join_path clean join split clean_step get_entry
    exists_with_fallback exists_in_s3 exists_cache_by_fallback_branch
    generate_file_download_instructions object_size created_value created_prefix escape_value
    query_escape escape_byte is_unreserved convert_to_download_instructions
    from_instruct_to_download_v1 single_download
received = refl

downloads : Downloads client 20 (instruction ∷ []) (ok (part ∷ []))
downloads =
    done (record { waiting = []; running = []; blocked = []; done = (instruction, part) ∷ [] })
      ((instruction, part) ∷ [])
      (step _ _ _
        (step _ _ _ (here (start_pool (instruction ∷ [])))
          (launch instruction [] [] [] [] (omega arith)))
        (finish instruction part [] [] [] [] [] part_downloaded))
      (all_done ((instruction, part) ∷ []))

downloads_received :
    Downloads client 20
      (convert_to_download_instructions got.download_instructions)
      (ok (part ∷ []))
downloads_received = rw received downloads

saved_then_restored_example :
    (held (object_size key saved.objects) ≡ some file)
    × (got.fallback ≡ false)
    × (got.cache_entry.sha256sum ≡ codes "ab")
    × (combine_parts (sort_downloads (part ∷ [])) ≡ file)
unfolding codes build_cache_key join_path clean join split from_provider_v1 clean_step text_eq
saved_then_restored_example =
    saved_then_restored memory bucket memory_lawful (some identity) (some identity) create_request
      entry platform update (codes "main") start run_create.1 uploaded_world saved saved store
      sender client file 20 refl refl create_ran (sym (length-bytes 10))
      (omega (arith, length-bytes 10)) (λ large. absurd (omega (arith, length-bytes 10))) takes
      sent_received created_id refl refl saving_ran refl refl serves plainly got_ran
      downloads_received
