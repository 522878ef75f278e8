-- ===== src/CacheService/Convert.antt =====
-- The conversions between the messages and the types of the server, of S3 and of the index.
pub mod Etags
use zipstash.Base.{
  sort_by, ℕ, Bool, List, [], ◌∷◌, ◌++◌, map, Option, none, some, Text, if◌then◌else◌, slt32,
}
use zipstash.Offsets
use zipstash.Backend.{CompletedPart}
use zipstash.Presigner.{CacheUrlInstruction}
use zipstash.Api

to_v1 : Option Offsets.Offset → Option Api.Offset
to_v1 none = none
to_v1 (some o) = some (record { part = o.part; start = o.start; end = o.end })

from_upload_instruction : CacheUrlInstruction → Api.CacheUploadInstruction
from_upload_instruction i = record { url = i.url; method = i.method; offset = to_v1 i.offset }

unfoldable pub from_upload_instructions : List CacheUrlInstruction → List Api.CacheUploadInstruction
unfolding from_upload_instruction to_v1
from_upload_instructions = map from_upload_instruction

from_instruct_to_download : CacheUrlInstruction → Api.CacheDownloadInstruction
from_instruct_to_download i = record { url = i.url; method = i.method; offset = to_v1 i.offset }

unfoldable pub from_instruct_to_download_v1 :
    List CacheUrlInstruction → List Api.CacheDownloadInstruction
unfolding from_instruct_to_download to_v1
from_instruct_to_download_v1 = map from_instruct_to_download

-- sort.Slice by `Part`
unfoldable pub sort_parts : List Api.CachePartETag → List Api.CachePartETag
sort_parts = sort_by (λ e f. slt32 e.part f.part)

unfoldable pub completed_part : Api.CachePartETag → CompletedPart
completed_part e = record { etag = e.etag; part_number = e.part }

unfoldable pub from_cache_part_etag_v1 : List Api.CachePartETag → List CompletedPart
unfolding sort_parts completed_part
from_cache_part_etag_v1 etags = map completed_part (sort_parts etags)
