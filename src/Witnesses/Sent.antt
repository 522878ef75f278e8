-- ===== src/Witnesses/Sent.antt =====
-- An upload of 25,000,000 bytes in three parts that end out of order.
use zipstash.Base.{
  ◌≡◌, refl, List, [], ◌∷◌, map, some, none, Text, codes, length, Result, ok, err, arith, slt64,
  add64, sub64, add32, on_error, reads, pure, ◌>>=◌, false, if◌then◌else◌, ◌==◌, ==_iff, message, ℕ,
}
use zipstash.Offsets
use zipstash.Offsets.{calculate_offsets, min_part_size}
use zipstash.Offsets.Tiling.{Tiles}
use zipstash.Presigner.{
  UploadInstructionsResp, generate_file_upload_instructions, single_upload, multipart_upload,
  presign_each, offsets_of, method_put,
}
use zipstash.CacheService.Convert.{from_upload_instructions}
use zipstash.Transfer.Upload.{
  CacheUploadInstruction, CachePartETag, HttpClient, Reply, Attempt, succeeded, permanent,
  transient, replied, failed, attempt_of, upload_chunk, upload, Uploads, done, part_of, read_chunk,
  chunk_size,
}
use zipstash.Transfer.Whole.{slice, slices, AreChunks, slices-AreChunks, part_instruction}
use zipstash.Transfer.Pool.{Pool, start_pool, launch, finish, Steps, here, step, all_done}
use zipstash.Client.Convert.{to_upload_instructions, to_etags_v1}
use zipstash.Client.S3.{Takes}
use zipstash.Client.Uploaded.{sent}
use zipstash.Client.Sent.{sent_whole}
use zipstash.CacheService.Handlers.{complete_upload}
use zipstash.Witnesses.Bucket.{bucket_backend, bucket_store, numbered_part, object_at}
use zipstash.Witnesses.World.{value}
use zipstash.Witnesses.Pool.{bytes, length-bytes, is_size, first_range, second_range, last_range}

abbrev file : Text
file = bytes 25000000

outcome : Attempt → Result Text
outcome (succeeded etag) = ok etag
outcome (permanent e) = err e
outcome (transient e) = err e

-- The bucket answers a PUT of a part with its number and its bytes, and refuses others.
take_part : Text → Text → Reply
take_part [] chunk = failed (message "no such request")
take_part (c ∷ []) chunk = failed (message "no such request")
take_part (c ∷ m ∷ key) chunk =
    if c == b'?'
    then replied (record { status_code = 200; etag = m ∷ chunk })
    else failed (message "no such request")

abbrev store : HttpClient
store = record {
  do_request = λ method url chunk n. take_part url chunk;
  retry = λ f. outcome (f 0);
}

succeeded_first : (a : Attempt) {etag : Text} → outcome a ≡ ok etag → a ≡ succeeded etag
unfolding outcome
succeeded_first (succeeded t) h = cc
succeeded_first (permanent e) h = cc
succeeded_first (transient e) h = cc

part_kept :
    (number : ℕ) (key url chunk : Text) {etag : Text}
    → ok (b'?' ∷ number ∷ key) ≡ ok url
    → take_part url chunk ≡ replied (record { status_code = 200; etag = etag })
    → numbered_part number etag ≡ some chunk
unfolding take_part numbered_part
part_kept number key url chunk {etag} signed h =
    let same : b'?' ∷ number ∷ key ≡ url = cc in
    let e : replied (record { status_code = 200; etag = number ∷ chunk })
        ≡ replied (record { status_code = 200; etag = etag }) =
      rw (← same) at h in
    let tag : number ∷ chunk ≡ etag = cc in rw (← tag, (==_iff number number).1 refl) refl

-- No object is put whole.
never_whole :
    (key url chunk : Text) {etag : Text}
    → ok (b'=' ∷ key) ≡ ok url
    → take_part url chunk ≡ replied (record { status_code = 200; etag = etag })
    → ⊥
unfolding take_part
never_whole [] url chunk signed h =
    let same : b'=' ∷ [] ≡ url = cc in let e = rw (← same) at h in cc
never_whole (m ∷ key) url chunk signed h =
    let same : b'=' ∷ m ∷ key ≡ url = cc in let e = rw (← same) at h in cc

takes : Takes bucket_backend store bucket_store file []
takes = record {
  parts = λ i u url chunk etag n signed h. part_kept i.part_number i.key url chunk signed h;
  whole = λ i u url etag n signed h. absurd (never_whole i.key url file signed h);
  retries = λ f etag h. (0, succeeded_first (f 0) h);
}

abbrev run : Result UploadInstructionsResp × List (Text × Text)
run =
    generate_file_upload_instructions bucket_backend (codes "cache") (codes "k") (codes "ab")
      (codes "zip") 25000000 []

abbrev response : UploadInstructionsResp
response =
    value (record { multipart_upload_id = none; upload_instructions = []; multipart = false }) run.0

response_ran :
    generate_file_upload_instructions bucket_backend
      (codes "cache")
      (codes "k")
      (codes "ab")
      (codes "zip")
      (length file)
      []
    ≡ (ok response, run.1)
unfolding generate_file_upload_instructions single_upload multipart_upload slt64 on_error reads pure
    ◌>>=◌ offsets_of calculate_offsets add64 sub64 add32 presign_each
response_ran = rw (length-bytes 25000000) refl

abbrev instruction : Offsets.Offset → CacheUploadInstruction
instruction o = part_instruction method_put (b'?' ∷ o.part ∷ codes "k") o

abbrev instructions : List CacheUploadInstruction
instructions = instruction first_range ∷ instruction second_range ∷ instruction last_range ∷ []

instructions_sent : sent response.upload_instructions ≡ instructions
unfolding generate_file_upload_instructions single_upload multipart_upload slt64 on_error reads pure
    ◌>>=◌ offsets_of calculate_offsets add64 sub64 add32 presign_each to_upload_instructions
    from_upload_instructions codes
instructions_sent = refl

abbrev ranges : List Offsets.Offset
ranges = first_range ∷ second_range ∷ last_range ∷ []

tiles : Tiles 0 (length file) ranges
tiles = (
  refl,
  omega arith,
  (refl, omega arith, (refl, omega arith, omega (arith, length-bytes 25000000))),
)

chunks : AreChunks file ranges (slices file ranges)
chunks =
    slices-AreChunks file 0 (length file) ranges tiles (omega arith)
      (omega (arith, length-bytes 25000000))

abbrev etag : Offsets.Offset → CachePartETag
etag o = record { etag = o.part ∷ slice file o; part = o.part; part_size = length (slice file o) }

uploaded :
    (o : Offsets.Offset)
    → read_chunk
        (some file)
        (chunk_size (part_instruction [] [] o).offset)
        (part_instruction [] [] o)
      ≡ ok (slice file o)
    → upload store (some file) (instruction o) ≡ ok (etag o)
unfolding upload upload_chunk attempt_of outcome read_chunk part_of take_part
uploaded o h = rw h refl

abbrev results : List (CacheUploadInstruction × CachePartETag)
results =
    (instruction second_range, etag second_range)
    ∷ (instruction first_range, etag first_range)
    ∷ (instruction last_range, etag last_range)
    ∷ []

abbrev ended : Pool CacheUploadInstruction CachePartETag
ended = record { waiting = []; running = []; blocked = []; done = results }

ran : Steps 2 (upload store (some file)) (start_pool instructions) ended
ran =
    let a = instruction first_range in
    let b = instruction second_range in
    let c = instruction last_range in
    let da : CacheUploadInstruction × CachePartETag = (a, etag first_range) in
    let db : CacheUploadInstruction × CachePartETag = (b, etag second_range) in
    let (first, (second, (last, _))) = chunks in
    step _ _ _
      (step _ _ _
        (step _ _ _
          (step _ _ _
            (step _ _ _
              (step _ _ _ (here (start_pool instructions))
                (launch a (b ∷ c ∷ []) [] [] [] (omega arith)))
              (launch b (c ∷ []) (a ∷ []) [] [] (omega arith)))
            (finish b (etag second_range) (c ∷ []) (a ∷ []) [] [] []
              (uploaded second_range second)))
          (launch c [] (a ∷ []) [] (db ∷ []) (omega arith)))
        (finish a (etag first_range) [] [] (c ∷ []) [] (db ∷ []) (uploaded first_range first)))
      (finish c (etag last_range) [] [] [] [] (db ∷ da ∷ []) (uploaded last_range last))

uploads :
    Uploads store 2 (some file) (sent response.upload_instructions) (ok (map (λ d. d.1) results))
uploads = rw instructions_sent (done ended results ran (all_done results))

abbrev completion : Result (Unit {0}) × List (Text × Text)
completion =
    complete_upload bucket_backend (codes "cache") (codes "k") response.multipart_upload_id
      (to_etags_v1 (map (λ d. d.1) results)) []

completion_ran :
    complete_upload bucket_backend
      (codes "cache")
      (codes "k")
      response.multipart_upload_id
      (to_etags_v1 (map (λ d. d.1) results))
      []
    ≡ (ok tt, completion.1)
unfolding generate_file_upload_instructions single_upload multipart_upload slt64 on_error reads pure
    ◌>>=◌ offsets_of calculate_offsets add64 sub64 add32 presign_each complete_upload
completion_ran = refl

sent_whole_example : object_at (codes "k") completion.1 ≡ some file
sent_whole_example =
    sent_whole bucket_backend store bucket_store file run.1 [] takes (codes "cache") (codes "k")
      (codes "ab") (codes "zip") [] completion.1 2 is_size response_ran uploads completion_ran
