-- ===== src/Witnesses/Saving.antt =====
-- An entry of ten bytes that is created, uploaded and updated, on the table in memory.
use zipstash.Base.{
  ℕ, ◌≡◌, ◌∙◌, refl, sym, ap, List, [], ◌∷◌, none, some, Option, Text, codes, text_eq, text_eq→eq,
  length, has_prefix, ok, err, crash, message, arith, on_error, reads, pure, deref, guard, ◌>>=◌,
  slt64, errors_is, Result, if◌then◌else◌, Bool-cases, inl, inr,
}
use zipstash.GoStd.Strings.{join, split}
use zipstash.GoStd.CleanPath.{join_path, clean, clean_step}
use zipstash.Keys.{from_provider_v1, build_cache_key, tenant_key}
use zipstash.Index.{validate, contains}
use zipstash.Backend.{HeadObjectOutput, CompletedPart}
use zipstash.Backend.Laws.{attribute}
use zipstash.Store.{put_cache, exists_cache, exists_tenant_by_key, put_tenant}
use zipstash.Presigner.{generate_file_upload_instructions, single_upload, method_put}
use zipstash.CacheService.Convert.{from_upload_instructions}
use zipstash.CacheService.Handlers.{
  new_record, validate_owner, create_entry, complete_upload, update_entry,
}
use zipstash.Provision.{create_tenant}
use zipstash.Api
use zipstash.Memory.{
  MemoryWorld, memory, insert, is_some, find, first_match, matches, is_text, begins_with, value_of,
  value_at, object_size,
}
use zipstash.Transfer.Pool.{start_pool, launch, finish, here, step, all_done}
use zipstash.Transfer.Upload.{
  CacheUploadInstruction, CachePartETag, HttpClient, Reply, replied, failed, Attempt, succeeded,
  permanent, transient, attempt_of, upload_chunk, upload, Uploads, done, part_of, read_chunk,
}
use zipstash.Client.Convert.{to_upload_instructions, to_etags_v1}
use zipstash.Client.S3.{ObjectStore, Takes, AreParts}
use zipstash.Witnesses.World.{bucket, created, run_create}
use zipstash.Witnesses.Pool.{bytes, length-bytes}

abbrev pub file : Text
file = bytes 10

abbrev pub key : Text
key = codes "octo/github_actions/linux/arm64/k1"

-- S3 takes an object at its key.
unfoldable pub take : Text → Reply
take url =
    if text_eq url key
    then replied (record { status_code = 200; etag = [] })
    else failed (message "no such request")

unfoldable pub outcome : Attempt → Result Text
outcome (succeeded etag) = ok etag
outcome (permanent e) = err e
outcome (transient e) = err e

abbrev pub sender : HttpClient
sender = record { do_request = λ method url chunk n. take url; retry = λ f. outcome (f 0) }

-- S3 holds texts of the sizes that it names.
unfoldable pub text_of : Option ℕ → Option Text
text_of none = none
text_of (some n) = some (bytes n)

unfoldable pub held : Result HeadObjectOutput → Option Text
unfolding text_of
held (ok h) = text_of h.content_length
held (err x) = none
held (crash c) = none

text_of-size : (o : Option ℕ) {f : Text} → text_of o ≡ some f → o ≡ some (length f)
unfolding text_of
text_of-size none h = cc
text_of-size (some n) {f} h =
    let same : bytes n ≡ f = cc in ap some (sym (length-bytes n) ∙ ap length same)

pub held_size :
    (r : Result HeadObjectOutput) {h : HeadObjectOutput} {f : Text}
    → r ≡ ok h
    → held r ≡ some f
    → h.content_length ≡ some (length f)
unfolding held
held_size (ok g) {h} {f} e at =
    let same : g ≡ h = cc in
    ap (λ h. h.content_length) (sym same) ∙ text_of-size g.content_length at
held_size (err x) e at = cc
held_size (crash c) e at = cc

pub no_parts :
    (ps qs : List CompletedPart) (q : CompletedPart) (content : Text)
    → ps ≡ q ∷ qs
    → AreParts (λ number etag. none) 0 ps content
    → ⊥
no_parts [] qs q content same parts = cc
no_parts (p ∷ ps) qs q content same (chunk, rest, _, e, _, _) = cc

abbrev pub store : ObjectStore memory
store = record {
  object = λ w bucket s3key. held (memory.head_object bucket s3key w);
  part = λ w bucket s3key id number etag. none;
  completes = λ i w content h q qs same parts. absurd (no_parts i.parts qs q content same parts);
  names_upload = λ i w h. (codes "part-upload-1", cc);
  heads = λ bucket s3key file w h at. held_size (memory.head_object bucket s3key w) h at;
  table_keeps =
      λ p k v o w h bucket s3key. ap (λ r. held (memory.head_object bucket s3key r.1)) (sym h);
}

-- The world once the file has been put.
abbrev pub uploaded_world : MemoryWorld
uploaded_world = record run_create.1 { objects = (key, 10) ∷ [] }

pub object_saved : held (object_size key uploaded_world.objects) ≡ some file
unfolding object_size codes text_eq held text_of
object_saved = refl

taken :
    (s3key url : Text) {etag : Text}
    → ok s3key ≡ ok url
    → take url ≡ replied (record { status_code = 200; etag = etag })
    → s3key ≡ key
unfolding take
taken s3key url {etag} signed h = elim (Bool-cases (text_eq url key)) [
  | inl same ↦ cc (text_eq→eq url key same)
  | inr other ↦ absurd (
      let e : failed (message "no such request")
          ≡ replied (record { status_code = 200; etag = etag }) =
        rw other at h in
      cc)
]

no_part :
    (s3key url : Text) {etag : Text}
    → ok (b'?' ∷ s3key) ≡ ok url
    → take url ≡ replied (record { status_code = 200; etag = etag })
    → ⊥
unfolding take text_eq codes
no_part s3key url signed h = let same : b'?' ∷ s3key ≡ url = cc in let e = rw (← same) at h in cc

succeeded_first : (a : Attempt) {etag : Text} → outcome a ≡ ok etag → a ≡ succeeded etag
unfolding outcome
succeeded_first (succeeded t) h = cc
succeeded_first (permanent e) h = cc
succeeded_first (transient e) h = cc

pub takes : Takes memory sender store file uploaded_world
takes = record {
  parts = λ i u url chunk etag n signed h. absurd (no_part i.key url signed h);
  whole = λ i u url etag n signed h.
      ap (λ k. held (object_size k uploaded_world.objects)) (taken i.key url signed h)
      ∙ object_saved;
  retries = λ f etag h. (0, succeeded_first (f 0) h);
}

abbrev instruction : CacheUploadInstruction
instruction = record { method = method_put; offset = none; url = key }

abbrev pub tag : CachePartETag
tag = record { etag = []; part = 1; part_size = length file }

uploaded_whole : upload sender (some file) instruction ≡ ok tag
unfolding upload upload_chunk attempt_of outcome read_chunk part_of take codes text_eq
uploaded_whole = refl

uploads : Uploads sender 20 (some file) (instruction ∷ []) (ok (tag ∷ []))
uploads =
    done (record { waiting = []; running = []; blocked = []; done = (instruction, tag) ∷ [] })
      ((instruction, tag) ∷ [])
      (step _ _ _
        (step _ _ _ (here (start_pool (instruction ∷ [])))
          (launch instruction [] [] [] [] (omega arith)))
        (finish instruction tag [] [] [] [] [] uploaded_whole))
      (all_done ((instruction, tag) ∷ []))

received : to_upload_instructions created.upload_instructions ≡ instruction ∷ []
unfolding create_tenant validate contains put_tenant insert is_some find on_error reads pure ◌>>=◌
    codes text_eq from_provider_v1 create_entry deref guard validate_owner exists_tenant_by_key
    first_match matches is_text begins_with attribute value_of value_at tenant_key has_prefix
    exists_cache generate_file_upload_instructions put_cache slt64 errors_is build_cache_key
    single_upload to_upload_instructions from_upload_instructions join_path clean join split
    clean_step
received = refl

pub sent_received :
    Uploads sender 20
      (some file)
      (to_upload_instructions created.upload_instructions)
      (ok (tag ∷ []))
sent_received = rw received uploads

abbrev pub update : Api.UpdateEntryRequest
update = record { id = codes "upload-1"; multipart_etags = to_etags_v1 (tag ∷ []) }

abbrev run_saving : Result Api.UpdateEntryResponse × MemoryWorld
run_saving = update_entry memory bucket update uploaded_world

abbrev pub saved : MemoryWorld
saved = run_saving.1

pub saving_ran :
    update_entry memory bucket update uploaded_world
    ≡ (ok (record { id = codes "upload-1" }), saved)
unfolding create_tenant validate contains put_tenant insert is_some find on_error reads pure ◌>>=◌
    codes text_eq from_provider_v1 create_entry deref guard validate_owner exists_tenant_by_key
    first_match matches is_text begins_with attribute value_of value_at tenant_key has_prefix
    exists_cache generate_file_upload_instructions put_cache slt64 errors_is update_entry
    complete_upload new_record
saving_ran = refl

objects_saved : saved.objects ≡ (key, 10) ∷ []
unfolding create_tenant validate contains put_tenant insert is_some find on_error reads pure ◌>>=◌
    codes text_eq from_provider_v1 create_entry deref guard validate_owner exists_tenant_by_key
    first_match matches is_text begins_with attribute value_of value_at tenant_key has_prefix
    exists_cache generate_file_upload_instructions put_cache slt64 errors_is update_entry
    complete_upload new_record
objects_saved = refl

pub saved_held : held (object_size key saved.objects) ≡ some file
saved_held = rw objects_saved object_saved
