-- ===== src/Client/S3.antt =====
-- What S3 documents of the requests of presigner.go, uploader.go and downloader.go: a presigned
-- request reads or writes the object, or the part, that it was signed for.
use zipstash.Base.{
  ℕ, ◌≡◌, ◌≤◌, ◌<◌, Bool, false, ◌||◌, ◌==◌, ◌++◌, List, [], ◌∷◌, Option, none, some, Text, codes,
  length, Result, ok, All,
}
use zipstash.GoStd.Encoding.{format_int64}
use zipstash.Offsets
use zipstash.Offsets.{calculate_offsets, min_part_size}
use zipstash.Index.{CacheRecord}
use zipstash.Backend.{
  Backend, WriteOptions, CompletedPart, CompleteMultipartUploadInput, CreateMultipartUploadInput,
  HeadObjectOutput, UploadPartInput, PutObjectInput,
}
use zipstash.Presigner.{method_get, method_put, default_expiration}
use zipstash.Transfer.Download.{DownloadedFile, HttpReader, answered}
use zipstash.Transfer.Upload.{HttpClient, Attempt, succeeded, replied}
use zipstash.Transfer.Whole.{slice}

-- A status that the client takes for an error.
abbrev pub is_refused : ℕ → Bool
is_refused status_code = status_code == 400 || status_code == 404 || status_code == 500

-- S3 answers with a status that the client takes for an error, or with 200, and with 206 where there
-- is a header Range. It documents others, as 403 and 503, whose bodies the client takes for content.
pub record AnswersPlainly (client : HttpReader) : Type 0 where
  pub whole :
      (url etag body : Text) (n status size : ℕ)
      → client.do_get method_get url none n ≡ answered status etag size body
      → is_refused status ≡ false
      → status ≡ 200
  pub ranges :
      (url range etag body : Text) (n status size : ℕ)
      → client.do_get method_get url (some range) n ≡ answered status etag size body
      → is_refused status ≡ false
      → status ≡ 206

-- A header with the last byte before the first is no valid one.
abbrev pub AreNonEmpty : Option (List Offsets.Offset) → Type 0
AreNonEmpty none = Unit
AreNonEmpty (some os) = All (λ o. o.start ≤ o.end) os

abbrev pub bytes_range : Offsets.Offset → Text
bytes_range o = codes "bytes=" ++ format_int64 o.start ++ b'-' ∷ format_int64 o.end

module _ (b : Backend) (client : HttpReader) (u : b.World) where
  -- A request for a range of an object is answered with 206 and these bytes.
  abbrev pub IsServed : Text → Text → Text → Offsets.Offset → Type 0
  IsServed bucket s3key file o =
      (url etag body : Text) (n size : ℕ)
      → b.presign_get_object (record { bucket = bucket; key = s3key; range = some (bytes_range o) })
          default_expiration u
        ≡ ok url
      → o.start ≤ o.end
      → o.end < length file
      → client.do_get method_get url (some (bytes_range o)) n ≡ answered 206 etag size body
      → body ≡ slice file o

  -- S3 answers a GET that was signed for an object: without the header Range by 200 with the object,
  -- with one of the ranges of the server, signed for this range, by 206 with its bytes. A retry gives
  -- what one of the tries gave.
  pub record Serves (object : Text → Text → Option Text) : Type 0 where
    pub whole :
        (bucket s3key url etag body : Text) (n size : ℕ)
        → b.presign_get_object
            (record { bucket = bucket; key = s3key; range = none })
            default_expiration
            u
          ≡ ok url
        → client.do_get method_get url none n ≡ answered 200 etag size body
        → object bucket s3key ≡ some body
    pub ranges :
        (bucket s3key file : Text)
        → object bucket s3key ≡ some file
        → (os : List Offsets.Offset) → calculate_offsets (length file) min_part_size ≡ some os
        → All (IsServed bucket s3key file) os
    pub retries :
        (f : ℕ → Result DownloadedFile) (d : DownloadedFile)
        → client.retry f ≡ ok d
        → (n : ℕ) × (f n ≡ ok d)

-- The parts that are listed by ascending numbers, each with the ETag with which S3 keeps it under this
-- number, follow one another in the content.
abbrev pub AreParts : (ℕ → Text → Option Text) → ℕ → List CompletedPart → Text → Type 0
AreParts part last [] content = content ≡ []
AreParts part last (q ∷ qs) content =
    (chunk rest : Text) × (last < q.part_number)
    × (part q.part_number q.etag ≡ some chunk)
    × (content ≡ chunk ++ rest)
    × AreParts part q.part_number qs rest

-- The objects of S3, and the parts of an upload by their number and ETag, in a world.
pub record ObjectStore (b : Backend) : Type 0 where
  pub object : b.World → Text → Text → Option Text
  pub part : b.World → Text → Text → Option Text → ℕ → Text → Option Text
  -- A completion joins the parts that it lists, one or more, by ascending numbers.
  pub completes :
      (i : CompleteMultipartUploadInput) (w : b.World) (content : Text) {w' : b.World}
      → b.complete_multipart_upload i w ≡ (ok tt, w')
      → (q : CompletedPart) (qs : List CompletedPart) → i.parts ≡ q ∷ qs
      → AreParts (part w i.bucket i.key i.upload_id) 0 i.parts content
      → object w' i.bucket i.key ≡ some content
  pub names_upload :
      (i : CreateMultipartUploadInput) (w : b.World) {id : Option Text} {w' : b.World}
      → b.create_multipart_upload i w ≡ (ok id, w')
      → (upload_id : Text) × (id ≡ some upload_id)
  pub heads :
      (bucket s3key file : Text) (w : b.World) {head : HeadObjectOutput}
      → b.head_object bucket s3key w ≡ ok head
      → object w bucket s3key ≡ some file
      → head.content_length ≡ some (length file)
  -- S3 is not the table.
  pub table_keeps :
      (p k : Text) (v : CacheRecord) (o : WriteOptions) (w : b.World) {w' : b.World}
      → b.cache_store.create p k v o w ≡ (ok tt, w')
      → (bucket s3key : Text) → object w' bucket s3key ≡ object w bucket s3key

-- What S3 holds in the world v after the presigned requests: a PUT that was
-- signed for a part and answered by 200 is kept as this part, under the ETag of the answer, and one
-- of the file that was signed for an object, as this object. A retry gives the ETag of one of the
-- tries that succeeded.
pub record Takes (b : Backend) (client : HttpClient) (store : ObjectStore b) (file : Text)
    (v : b.World) : Type 0 where
  pub parts :
      (i : UploadPartInput) (u : b.World) (url chunk etag : Text) (n : ℕ)
      → b.presign_upload_part i default_expiration u ≡ ok url
      → client.do_request method_put url chunk n
        ≡ replied (record { status_code = 200; etag = etag })
      → store.part v i.bucket i.key i.upload_id i.part_number etag ≡ some chunk
  pub whole :
      (i : PutObjectInput) (u : b.World) (url etag : Text) (n : ℕ)
      → b.presign_put_object i default_expiration u ≡ ok url
      → client.do_request method_put url file n
        ≡ replied (record { status_code = 200; etag = etag })
      → store.object v i.bucket i.key ≡ some file
  pub retries :
      (f : ℕ → Attempt) (etag : Text) → client.retry f ≡ ok etag → (n : ℕ) × (f n ≡ succeeded etag)
