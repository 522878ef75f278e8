-- ===== src/Transfer/Download.antt =====
-- pkg/downloader/downloader.go: one part, from its request to a file, and all of them in a pool.
use zipstash.Base.{
  ℕ, ◌+◌, ◌-◌, slt32, two_64, two_32, ◌==◌, ◌||◌, Option, none, some, Text, codes, ◌++◌, ◌∷◌,
  if◌then◌else◌, Result, ok, err, Err, message, wrap, List, map,
}
use zipstash.GoStd.Encoding.{format_int64}
use zipstash.Transfer.Upload.{Offset}
use zipstash.Transfer.Pool.{Pool, start_pool, Steps, Returns}

pub record CacheDownloadInstruction : Type 0 where
  pub method : Text
  pub offset : Option Offset
  pub url : Text

-- `content` is what the temporary file at `FilePath` holds.
pub record DownloadedFile : Type 0 where
  pub url : Text
  pub content : Text
  pub etag : Text
  pub part : ℕ
  pub size : ℕ

-- The answer to a GET, or that it or the reading of its body failed.
pub data Answer : Type 0 where
  answered : (status_code : ℕ) → (etag : Text) → (content_length : ℕ) → (body : Text) → Answer
  failed : Err → Answer

-- net/http and backoff: the answer to the n-th try with the header Range, and three tries.
pub record HttpReader : Type 0 where
  pub do_get : Text → Text → Option Text → ℕ → Answer
  pub retry : (ℕ → Result DownloadedFile) → Result DownloadedFile

-- the header Range, if there is an offset
unfoldable pub range_of : Option Offset → Option Text
range_of none = none
range_of (some o) = some (codes "bytes=" ++ format_int64 o.start ++ b'-' ∷ format_int64 o.end)

-- int(part) of an `int32`
unfoldable pub int_of_int32 : ℕ → ℕ
int_of_int32 part = if slt32 part 0 then part + two_64 - two_32 else part

unfoldable pub downloaded_part : Option Offset → ℕ
downloaded_part none = 1
downloaded_part (some o) = int_of_int32 o.part

unfoldable pub downloaded_of : CacheDownloadInstruction → Answer → Result DownloadedFile
downloaded_of instruct (failed e) = err (wrap "failed to do upload file" e)
downloaded_of instruct (answered status_code etag content_length body) =
    if status_code == 400 || status_code == 404 || status_code == 500
    then err (message "failed to download file")
    else ok (record {
      url = instruct.url;
      content = body;
      etag = etag;
      part = downloaded_part instruct.offset;
      size = content_length;
    })

unfoldable pub download : HttpReader → CacheDownloadInstruction → Result DownloadedFile
download client instruct = client.retry λ n.
    downloaded_of instruct (client.do_get instruct.method instruct.url (range_of instruct.offset) n)

-- How `Download` can end: with the downloads in the order in which they were completed, or with the
-- first error that was read.
pub data Downloads (client : HttpReader) (limit : ℕ) (instructs : List CacheDownloadInstruction)
    : Result (List DownloadedFile) → Type 0 where
  done :
      (t : Pool CacheDownloadInstruction DownloadedFile)
      (ds : List (CacheDownloadInstruction × DownloadedFile))
      → Steps limit (download client) (start_pool instructs) t
      → Returns limit (download client) t (ok ds)
      → Downloads client limit instructs (ok (map (λ d. d.1) ds))
  error :
      (t : Pool CacheDownloadInstruction DownloadedFile) (x : Err)
      → Steps limit (download client) (start_pool instructs) t
      → Returns limit (download client) t (err x)
      → Downloads client limit instructs (err x)
