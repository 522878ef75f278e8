-- ===== src/Transfer/Upload.antt =====
-- pkg/uploader/uploader.go: one part, from the file to its ETag, and all of them in a pool.
use zipstash.Base.{
  ℕ, ◌+◌, ◌||◌, [], Option, none, some, Text, length, take, drop, ◌==◌, leb, if◌then◌else◌, Result,
  ok, err, crash, panic, Err, message, wrap, map_err, and_then, slt64, add64, sub64, List, map,
}
use zipstash.Transfer.Pool.{Pool, start_pool, Steps, Returns}

pub record Offset : Type 0 where
  pub end : ℕ
  pub part : ℕ
  pub start : ℕ

pub record CacheUploadInstruction : Type 0 where
  pub method : Text
  pub offset : Option Offset
  pub url : Text

pub record CachePartETag : Type 0 where
  pub etag : Text
  pub part : ℕ
  pub part_size : ℕ

pub record Response : Type 0 where
  pub status_code : ℕ
  pub etag : Text

-- What backoff is told of one try: `permanent` ends the tries.
pub data Attempt : Type 0 where
  succeeded : Text → Attempt
  permanent transient : Err → Attempt

-- The answer to a request, or that it failed.
pub data Reply : Type 0 where
  replied : Response → Reply
  failed : Err → Reply

-- net/http and backoff: the answer to the n-th try of a request, and the tries of an operation.
pub record HttpClient : Type 0 where
  pub do_request : Text → Text → Text → ℕ → Reply
  pub retry : (ℕ → Attempt) → Result Text

-- `make([]byte, size)` and `file.ReadAt(buf, start)`: an error unless the whole buffer is filled.
unfoldable pub read_at : Text → ℕ → ℕ → Result Text
read_at file size start =
    if slt64 size 0
    then crash panic
    else if slt64 start 0
    then err (message "negative offset")
    else if size == 0
    then ok []
    else if leb (start + size) (length file)
    then ok (take size (drop start file))
    else err (message "EOF")

unfoldable pub check_size : ℕ → Text → Result Text
check_size size buf = if length buf == size then ok buf else err (message "read size mismatch")

-- The file is `none` if it cannot be opened.
unfoldable pub read_chunk : Option Text → ℕ → CacheUploadInstruction → Result Text
read_chunk none size instruct = err (wrap "failed to open file" (message "open"))
read_chunk (some file) size instruct = elim instruct.offset [
  | none ↦ ok file
  | some o ↦
      and_then (map_err (wrap "failed to read file") (read_at file size o.start)) (check_size size)
]

-- StatusBadRequest, StatusForbidden and StatusLengthRequired are permanent.
unfoldable pub attempt_of : Reply → Attempt
attempt_of (replied resp) =
    if resp.status_code == 400 || resp.status_code == 403 || resp.status_code == 411
    then permanent (message "failed to upload file")
    else if resp.status_code == 200
    then succeeded resp.etag
    else transient (message "failed to upload file")
attempt_of (failed e) = transient (wrap "failed to do upload file" e)

unfoldable pub chunk_size : Option Offset → ℕ
chunk_size none = 0
chunk_size (some o) = add64 (sub64 o.end o.start) 1

unfoldable pub part_of : Option Offset → ℕ
part_of none = 1
part_of (some o) = o.part

module _ (client : HttpClient) where
  unfoldable pub upload_chunk : CacheUploadInstruction → Text → Result Text
  unfolding attempt_of
  upload_chunk instruct chunk =
      client.retry (λ n. attempt_of (client.do_request instruct.method instruct.url chunk n))

  unfoldable pub upload : Option Text → CacheUploadInstruction → Result CachePartETag
  upload file instruct =
      and_then
        (map_err (wrap "failed to read chunk")
          (read_chunk file (chunk_size instruct.offset) instruct))
        λ chunk.
          and_then (map_err (wrap "failed to upload chunk") (upload_chunk instruct chunk)) λ etag.
            ok (record { etag = etag; part = part_of instruct.offset; part_size = length chunk })

-- How `Upload` can end: with the ETags in the order in which the parts were completed, or with the
-- first error that was read.
pub data Uploads (client : HttpClient) (limit : ℕ) (file : Option Text)
    (instructs : List CacheUploadInstruction) : Result (List CachePartETag) → Type 0 where
  done :
      (t : Pool CacheUploadInstruction CachePartETag)
      (ds : List (CacheUploadInstruction × CachePartETag))
      → Steps limit (upload client file) (start_pool instructs) t
      → Returns limit (upload client file) t (ok ds)
      → Uploads client limit file instructs (ok (map (λ d. d.1) ds))
  error :
      (t : Pool CacheUploadInstruction CachePartETag) (x : Err)
      → Steps limit (upload client file) (start_pool instructs) t
      → Returns limit (upload client file) t (err x)
      → Uploads client limit file instructs (err x)
