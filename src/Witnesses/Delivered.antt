-- ===== src/Witnesses/Delivered.antt =====
-- A download of 25,000,000 bytes in three parts that arrive out of order.
use mathlib.Core.List.{Permᴰ}
use zipstash.Base.{
  slt32, ℕ, ◌≡◌, refl, sym, false, List, [], ◌∷◌, Option, none, some, Text, codes, text_eq, length,
  ok, message, arith, slt64, add64, sub64, add32, if◌then◌else◌, ap, Bool-cases, inl, inr, ◌∙◌, All,
  map,
}
use zipstash.Offsets
use zipstash.Offsets.{calculate_offsets, min_part_size}
use zipstash.Presigner.{
  range_header, DownloadInstructionsResp, generate_file_download_instructions, single_download,
  multipart_download, presign_each, offsets_of, method_get,
}
use zipstash.CacheService.Convert.{from_instruct_to_download_v1}
use zipstash.Client.Restore.{convert_to_download_instructions, sort_downloads, combine_parts}
use zipstash.Client.S3.{AnswersPlainly, IsServed, Serves}
use zipstash.Client.Served.{to_transfer, received}
use zipstash.Client.Delivered.{delivered_whole}
use zipstash.Transfer.Pool.{Pool, start_pool, launch, finish, Steps, here, step, all_done}
use zipstash.Transfer.Pool.Results.{pool_ordered}
use zipstash.Transfer.Pool.Complete.{AreResults}
use zipstash.Transfer.Download.{
  CacheDownloadInstruction, DownloadedFile, Answer, answered, failed, HttpReader, range_of,
  download, Downloads, done, downloaded_of, downloaded_part, int_of_int32,
}
use zipstash.Transfer.Whole.{slice}
use zipstash.GoStd.Encoding.{format_int64}
use zipstash.Memory.{memory}
use zipstash.Witnesses.World.{empty_world, value}
use zipstash.Witnesses.Pool.{
  bytes, length-bytes, is_size, ranges_computed, first_range, second_range, last_range,
}

abbrev file : Text
file = bytes 25000000

-- The answers to the ranges that the server names.
answer_to : Text → Answer
answer_to range =
    if text_eq range (range_header first_range)
    then answered 206 [] 10485761 (slice file first_range)
    else if text_eq range (range_header second_range)
    then answered 206 [] 10485760 (slice file second_range)
    else if text_eq range (range_header last_range)
    then answered 206 [] 4029479 (slice file last_range)
    else failed (message "not a range")

answer : Option Text → Answer
answer none = failed (message "no range")
answer (some range) = answer_to range

-- The URL is the key.
ask : Text → Option Text → Answer
ask url range = if text_eq url (codes "k") then answer range else failed (message "another object")

abbrev bucket : HttpReader
bucket = record { do_get = λ method url range n. ask url range; retry = λ f. f 0 }

asked :
    (url : Text) (range : Option Text) {status size : ℕ} {etag body : Text}
    → ask url range ≡ answered status etag size body
    → answer range ≡ answered status etag size body
unfolding ask
asked url range h = elim (Bool-cases (text_eq url (codes "k"))) [
  | inl same ↦ let e = rw same at h in e
  | inr other ↦ absurd (let e = rw other at h in cc)
]

asked_k : (range : Option Text) → ask (codes "k") range ≡ answer range
unfolding ask text_eq codes
asked_k range = refl

-- The bucket holds one object.
object : Text → Text → Option Text
object _ s3key = if text_eq s3key (codes "k") then some file else none

object_k : object (codes "cache") (codes "k") ≡ some file
unfolding object text_eq codes
object_k = refl

object_file : (bucket s3key : Text) {f : Text} → object bucket s3key ≡ some f → f ≡ file
unfolding object
object_file bucket s3key {f} h = elim (Bool-cases (text_eq s3key (codes "k"))) [
  | inl same ↦ let e : some file ≡ some f = rw same at h in cc
  | inr other ↦ absurd (let e : none ≡ some f = rw other at h in cc)
]

abbrev response : DownloadInstructionsResp
response =
    value (record { download_instructions = []; multipart = false })
      (generate_file_download_instructions memory (codes "cache") (codes "k") 25000000 empty_world)

response_ran :
    generate_file_download_instructions memory (codes "cache") (codes "k") (length file) empty_world
    ≡ ok response
unfolding generate_file_download_instructions single_download multipart_download slt64 offsets_of
    calculate_offsets add64 sub64 add32 presign_each
response_ran = rw (length-bytes 25000000) refl

body_of :
    {status status' size size' : ℕ} {etag etag' a b : Text}
    → answered status etag size a ≡ answered status' etag' size' b
    → b ≡ a
body_of h = cc

first_answer :
    answer (range_of (some (to_transfer first_range)))
    ≡ answered 206 [] 10485761 (slice file first_range)
unfolding answer answer_to text_eq range_of range_header format_int64 slt64 codes
first_answer = refl

second_answer :
    answer (range_of (some (to_transfer second_range)))
    ≡ answered 206 [] 10485760 (slice file second_range)
unfolding answer answer_to text_eq range_of range_header format_int64 slt64 codes
second_answer = refl

last_answer :
    answer (range_of (some (to_transfer last_range)))
    ≡ answered 206 [] 4029479 (slice file last_range)
unfolding answer answer_to text_eq range_of range_header format_int64 slt64 codes
last_answer = refl

ranges_served :
    (cache s3key : Text)
    → All
        (IsServed memory bucket empty_world cache s3key file)
        (first_range ∷ second_range ∷ last_range ∷ [])
unfolding range_of
ranges_served cache s3key = (
  λ url etag body n size signed z inside h. body_of (sym first_answer ∙ asked url _ h),
  (
    λ url etag body n size signed z inside h. body_of (sym second_answer ∙ asked url _ h),
    (λ url etag body n size signed z inside h. body_of (sym last_answer ∙ asked url _ h), tt),
  ),
)

as_computed :
    (os : List Offsets.Offset)
    → calculate_offsets (length file) min_part_size ≡ some os
    → os ≡ first_range ∷ second_range ∷ last_range ∷ []
as_computed os h = cc ranges_computed

no_whole : {status size : ℕ} {etag body : Text} → answer none ≡ answered status etag size body → ⊥
unfolding answer
no_whole h = cc

serves : Serves memory bucket empty_world object
serves = record {
  whole = λ cache s3key url etag body n size signed h. absurd (no_whole (asked url none h));
  ranges = λ cache s3key f at os h.
      let same : f ≡ file = object_file cache s3key at in
      let ranges =
        as_computed os (ap (λ f. calculate_offsets (length f) min_part_size) (sym same) ∙ h) in
      rw (same, ranges) (ranges_served cache s3key);
  retries = λ f d h. (0, h);
}

status_of :
    {status status' size size' : ℕ} {etag etag' a b : Text}
    → answered status etag size a ≡ answered status' etag' size' b
    → status' ≡ status
status_of h = cc

partial :
    (range : Text) {status size : ℕ} {etag body : Text}
    → answer (some range) ≡ answered status etag size body
    → status ≡ 206
unfolding answer answer_to
partial range h = elim (Bool-cases (text_eq range (range_header first_range))) [
  | inl first ↦ status_of (rw first at h)
  | inr other ↦ elim (Bool-cases (text_eq range (range_header second_range))) [
    | inl second ↦ status_of (rw (other, second) at h)
    | inr another ↦ elim (Bool-cases (text_eq range (range_header last_range))) [
      | inl third ↦ status_of (rw (other, another, third) at h)
      | inr none_of ↦ absurd (let e = rw (other, another, none_of) at h in cc)
    ]
  ]
]

plainly : AnswersPlainly bucket
plainly = record {
  whole = λ url etag body n status size h good. absurd (no_whole (asked url none h));
  ranges = λ url range etag body n status size h good. partial range (asked url (some range) h);
}

-- The instructions as the client gets them.
abbrev instruction : Offsets.Offset → CacheDownloadInstruction
instruction o = record { method = method_get; offset = some (to_transfer o); url = codes "k" }

instructions_received :
    received response.download_instructions
    ≡ instruction first_range ∷ instruction second_range ∷ instruction last_range ∷ []
unfolding convert_to_download_instructions from_instruct_to_download_v1
    generate_file_download_instructions single_download multipart_download slt64 offsets_of
    calculate_offsets add64 presign_each codes add32 sub64
instructions_received = refl

abbrev part : Offsets.Offset → ℕ → DownloadedFile
part o size = record {
  url = codes "k";
  content = slice file o;
  etag = [];
  part = o.part;
  size = size;
}

first_downloaded : download bucket (instruction first_range) ≡ ok (part first_range 10485761)
unfolding download downloaded_of downloaded_part int_of_int32 slt32
first_downloaded = rw (asked_k _, first_answer) refl

second_downloaded : download bucket (instruction second_range) ≡ ok (part second_range 10485760)
unfolding download downloaded_of downloaded_part int_of_int32 slt32
second_downloaded = rw (asked_k _, second_answer) refl

last_downloaded : download bucket (instruction last_range) ≡ ok (part last_range 4029479)
unfolding download downloaded_of downloaded_part int_of_int32 slt32
last_downloaded = rw (asked_k _, last_answer) refl

abbrev results : List (CacheDownloadInstruction × DownloadedFile)
results =
    (instruction second_range, part second_range 10485760)
    ∷ (instruction first_range, part first_range 10485761)
    ∷ (instruction last_range, part last_range 4029479)
    ∷ []

abbrev instructions : List CacheDownloadInstruction
instructions = instruction first_range ∷ instruction second_range ∷ instruction last_range ∷ []

abbrev ended : Pool CacheDownloadInstruction DownloadedFile
ended = record { waiting = []; running = []; blocked = []; done = results }

-- The second part ends before the first, and the last is launched when one of two places is free.
ran : Steps 2 (download bucket) (start_pool instructions) ended
ran =
    let a = instruction first_range in
    let b = instruction second_range in
    let c = instruction last_range in
    let da : CacheDownloadInstruction × DownloadedFile = (a, part first_range 10485761) in
    let db : CacheDownloadInstruction × DownloadedFile = (b, part second_range 10485760) in
    step _ _ _
      (step _ _ _
        (step _ _ _
          (step _ _ _
            (step _ _ _
              (step _ _ _ (here (start_pool instructions))
                (launch a (b ∷ c ∷ []) [] [] [] (omega arith)))
              (launch b (c ∷ []) (a ∷ []) [] [] (omega arith)))
            (finish b (part second_range 10485760) (c ∷ []) (a ∷ []) [] [] [] second_downloaded))
          (launch c [] (a ∷ []) [] (db ∷ []) (omega arith)))
        (finish a (part first_range 10485761) [] [] (c ∷ []) [] (db ∷ []) first_downloaded))
      (finish c (part last_range 4029479) [] [] [] [] (db ∷ da ∷ []) last_downloaded)

pool_ordered_example :
    (es : List (CacheDownloadInstruction × DownloadedFile)) × (map (λ d. d.0) es ≡ instructions)
    × Permᴰ results es
    × AreResults 2 (download bucket) es
pool_ordered_example =
    pool_ordered 2 (download bucket) instructions ended results ran (all_done results)

downloads :
    Downloads bucket 2 (received response.download_instructions) (ok (map (λ d. d.1) results))
downloads = rw instructions_received (done ended results ran (all_done results))

delivered_whole_example : combine_parts (sort_downloads (map (λ d. d.1) results)) ≡ file
delivered_whole_example =
    delivered_whole memory bucket empty_world object serves plainly (codes "cache") (codes "k") file
      object_k 2 is_size
      (λ large. rw ranges_computed (omega arith, (omega arith, (omega arith, tt)))) response_ran
      downloads
