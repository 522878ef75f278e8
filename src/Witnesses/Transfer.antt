-- ===== src/Witnesses/Transfer.antt =====
-- Ranges, instructions and parts of concrete files.
use zipstash.Base.{
  suc, ◌+◌, ◌*◌, ◌≡◌, refl, false, List, [], ◌∷◌, none, some, codes, Result, ok, arith, slt64,
  add64, sub64, add32, on_error, reads, pure, ◌>>=◌,
}
use zipstash.Offsets.{Offset, calculate_offsets}
use zipstash.Offsets.Loop.{InRange}
use zipstash.Offsets.Tiling.{Tiles, IsNumbered, calculate_offsets-Tiles}
use zipstash.Offsets.Sizes.{IsLast, IsEmptyAt, calculate_offsets_empty-IsLast}
use zipstash.Presigner.{
  UploadInstructionsResp, DownloadInstructionsResp, generate_file_upload_instructions,
  generate_file_download_instructions, method_put, method_get, single_upload, multipart_upload,
  single_download, multipart_download, presign_each, offsets_of,
}
use zipstash.Presigner.Plan.{IsPlan, upload_instructions-IsPlan, download_instructions-IsPlan}
use zipstash.Memory.{MemoryWorld, memory}
use zipstash.Witnesses.World.{empty_world, value}

-- 31 bytes in parts of 10
in_range : InRange 31 10
in_range = record {
  total_pos = omega arith;
  part_pos = omega arith;
  fits = omega arith;
  parts_fit = omega arith;
}

abbrev ranges : List Offset
ranges =
    record { part = 1; start = 0; end = 10 }
    ∷ record { part = 2; start = 11; end = 20 }
    ∷ record { part = 3; start = 21; end = 30 }
    ∷ record { part = 4; start = 31; end = 30 }
    ∷ []

computed : calculate_offsets 31 10 ≡ some ranges
unfolding calculate_offsets slt64 add64 sub64 add32
computed = refl

calculate_offsets-Tiles_example :
    (os : List Offset) × (calculate_offsets 31 10 ≡ some os) × Tiles 0 31 os × IsNumbered 1 os
calculate_offsets-Tiles_example = calculate_offsets-Tiles 31 10 in_range

calculate_offsets_empty-IsLast_example :
    (l : Offset) × IsLast l ranges × IsEmptyAt (suc 2 * 10 + 1) l
calculate_offsets_empty-IsLast_example = calculate_offsets_empty-IsLast 2 10 in_range computed

-- 25,000,000 bytes: three parts
abbrev upload : Result UploadInstructionsResp × MemoryWorld
upload =
    generate_file_upload_instructions memory (codes "cache") (codes "k") (codes "ab") (codes "zip")
      25000000 empty_world

abbrev uploaded : UploadInstructionsResp
uploaded =
    value (record { multipart_upload_id = none; upload_instructions = []; multipart = false })
      upload.0

upload_ran :
    generate_file_upload_instructions memory
      (codes "cache")
      (codes "k")
      (codes "ab")
      (codes "zip")
      25000000
      empty_world
    ≡ (ok uploaded, upload.1)
unfolding generate_file_upload_instructions single_upload multipart_upload slt64 on_error reads pure
    ◌>>=◌ offsets_of calculate_offsets add64 sub64 add32 presign_each
upload_ran = refl

abbrev download : Result DownloadInstructionsResp
download =
    generate_file_download_instructions memory (codes "cache") (codes "k") 25000000 empty_world

abbrev downloaded : DownloadInstructionsResp
downloaded = value (record { download_instructions = []; multipart = false }) download

download_ran :
    generate_file_download_instructions memory (codes "cache") (codes "k") 25000000 empty_world
    ≡ ok downloaded
unfolding generate_file_download_instructions single_download multipart_download slt64 offsets_of
    calculate_offsets add64 sub64 add32 presign_each
download_ran = refl

upload_instructions-IsPlan_example :
    IsPlan method_put 25000000 uploaded.multipart uploaded.upload_instructions
upload_instructions-IsPlan_example =
    upload_instructions-IsPlan memory (codes "cache") (codes "k") (codes "ab") (codes "zip")
      25000000 empty_world (omega arith) upload_ran

download_instructions-IsPlan_example :
    IsPlan method_get 25000000 downloaded.multipart downloaded.download_instructions
download_instructions-IsPlan_example =
    download_instructions-IsPlan memory (codes "cache") (codes "k") 25000000 empty_world
      (omega arith) download_ran
