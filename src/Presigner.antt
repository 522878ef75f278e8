-- ===== src/Presigner.antt =====
-- internal/server/presigner.go: the presigned requests by which a client uploads or downloads.
pub mod Plan
pub mod Signed
use zipstash.Base.{
  ℕ, ◌≡◌, Bool, true, false, List, [], ◌∷◌, ◌++◌, Option, none, some, Text, codes, text_eq,
  if◌then◌else◌, Result, ok, err, Err, wrap, diverges, map_err, and_then, crash, Io, pure, reads,
  on_error, ◌>>=◌, slt64,
}
use zipstash.GoStd.Encoding.{hex_decode, base64_encode, format_int64}
use zipstash.Offsets.{Offset, calculate_offsets, min_part_size}
use zipstash.Backend.{Backend, PutObjectInput, UploadPartInput, GetObjectInput}

-- 60 minutes, in seconds
abbrev pub default_expiration : ℕ
default_expiration = 3600

abbrev pub method_put : Text
method_put = codes "PUT"

abbrev pub method_get : Text
method_get = codes "GET"

pub record CacheUrlInstruction : Type 0 where
  pub offset : Option Offset
  pub url : Text
  pub method : Text

pub record UploadInstructionsResp : Type 0 where
  pub multipart_upload_id : Option Text
  pub upload_instructions : List CacheUrlInstruction
  pub multipart : Bool

pub record DownloadInstructionsResp : Type 0 where
  pub download_instructions : List CacheUrlInstruction
  pub multipart : Bool

unfoldable pub compression_to_content_type : Text → Text
compression_to_content_type compression =
    if text_eq compression (codes "zip")
    then codes "application/zip"
    else codes "application/octet-stream"

encode_decoded : Option Text → Text
encode_decoded none = []
encode_decoded (some decoded) = base64_encode decoded

unfoldable pub convert_sha256_to_base64 : Text → Text
unfolding encode_decoded
convert_sha256_to_base64 sha256 = encode_decoded (hex_decode sha256)

-- `calculateOffsets` in place: it does not come back where its loop does not end.
unfoldable pub offsets_of : Option (List Offset) → Result (List Offset)
offsets_of none = crash diverges
offsets_of (some os) = ok os

-- fmt.Sprintf("bytes=%d-%d", offset.Start, offset.End)
unfoldable pub range_header : Offset → Text
range_header o = codes "bytes=" ++ format_int64 o.start ++ b'-' ∷ format_int64 o.end

module _ (b : Backend) where
  -- One presigned request for each range; the first failure ends the loop.
  unfoldable pub presign_each :
      (Offset → b.World → Result Text)
      → Text
      → List Offset
      → b.World
      → Result (List CacheUrlInstruction)
  presign_each presign method [] w = ok []
  presign_each presign method (o ∷ os) w =
      let rest = presign_each presign method os w in
      and_then (map_err (wrap "failed to presign upload") (presign o w)) λ url.
        and_then rest λ reqs. ok (record { offset = some o; url = url; method = method } ∷ reqs)

module _ (b : Backend) (bucket s3key : Text) where
  -- PresignPutObject, PresignUploadPart and PresignGetObject with the inputs of this file
  abbrev pub put_request : Text → Text → b.World → Result Text
  put_request sha256sum compression =
      b.presign_put_object
        (record {
          bucket = bucket;
          key = s3key;
          checksum_sha256 = convert_sha256_to_base64 sha256sum;
          content_type = compression_to_content_type compression;
        })
        default_expiration

  abbrev pub part_request : Text → Option Text → Offset → b.World → Result Text
  part_request sha256sum upload_id o =
      b.presign_upload_part
        (record {
          bucket = bucket;
          key = s3key;
          part_number = o.part;
          upload_id = upload_id;
          checksum_sha256 = convert_sha256_to_base64 sha256sum;
        })
        default_expiration

  abbrev pub get_request : Option Text → b.World → Result Text
  get_request range =
      b.presign_get_object (record { bucket = bucket; key = s3key; range = range })
        default_expiration

  -- a file below the minimal part size
  unfoldable pub single_upload : Text → Text → Io b.World UploadInstructionsResp
  single_upload sha256sum compression = do
    url ← on_error (wrap "failed to presign upload") (reads (put_request sha256sum compression))
    pure (record {
      multipart_upload_id = none;
      upload_instructions = record { offset = none; url = url; method = method_put } ∷ [];
      multipart = false;
    })

  unfoldable pub multipart_upload : Text → Text → ℕ → Io b.World UploadInstructionsResp
  multipart_upload sha256sum compression total_size = do
    upload_id ← on_error (wrap "failed to create multipart upload") (
        b.create_multipart_upload (record {
          bucket = bucket;
          key = s3key;
          content_type = compression_to_content_type compression;
        }))
    offsets ← reads (λ _. offsets_of (calculate_offsets total_size min_part_size))
    reqs ← reads (presign_each b (part_request sha256sum upload_id) method_put offsets)
    pure (record { multipart_upload_id = upload_id; upload_instructions = reqs; multipart = true })

  unfoldable pub generate_file_upload_instructions :
      Text → Text → ℕ → Io b.World UploadInstructionsResp
  unfolding single_upload multipart_upload
  generate_file_upload_instructions sha256sum compression total_size =
      if slt64 total_size min_part_size
      then single_upload sha256sum compression
      else multipart_upload sha256sum compression total_size

  unfoldable pub single_download : b.World → Result DownloadInstructionsResp
  single_download w =
      and_then (map_err (wrap "failed to presign upload") (get_request none w)) λ url. ok (record {
        download_instructions = record { offset = none; url = url; method = method_get } ∷ [];
        multipart = false;
      })

  unfoldable pub multipart_download : ℕ → b.World → Result DownloadInstructionsResp
  multipart_download total_size w =
      and_then (offsets_of (calculate_offsets total_size min_part_size)) λ offsets.
        and_then (presign_each b (λ o. get_request (some (range_header o))) method_get offsets w)
          λ reqs. ok (record { download_instructions = reqs; multipart = true })

  unfoldable pub generate_file_download_instructions : ℕ → b.World → Result DownloadInstructionsResp
  unfolding single_download multipart_download
  generate_file_download_instructions total_size =
      if slt64 total_size min_part_size then single_download else multipart_download total_size
