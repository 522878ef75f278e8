-- ===== src/Client/Restore.antt =====
-- RestoreCmd of internal/commands/client/restore.go: the downloaded parts become one file.
use zipstash.Base.{
  ℕ, suc, ◌+◌, ◌≡◌, ◌<◌, ◌≤◌, refl, sym, ap, ◌∙◌, List, [], ◌∷◌, ◌++◌, Option, none, some, Text,
  map, length, arith, slt64, slt64_small, two_63, ltb, sort_by, sort-sort,
}
use mathlib.Core.List.{Perm, Permᴰ}
use mathlib.Core.Logic.{∥∥₁_elim}
use zipstash.Api
use zipstash.Offsets
use zipstash.Offsets.{calculate_offsets, min_part_size}
use zipstash.Offsets.Tiling.{Tiles, IsNumbered, calculate_offsets-Tiles}
use zipstash.Offsets.Sizes.{length-calculate_offsets}
use zipstash.Presigner.Plan.{IsFileSize, in_range}
use zipstash.Transfer.Upload.{Offset}
use zipstash.Transfer.Download.{CacheDownloadInstruction, DownloadedFile}
use zipstash.Transfer.Numbered.{
  CountsFrom, CountsFrom-AreDistinct, CountsFrom-below, sort-CountsFrom,
}
use zipstash.Transfer.Whole.{concat, slice, slices, concat-slices_all}

to_offset : Option Api.Offset → Option Offset
to_offset none = none
to_offset (some o) = some (record { end = o.end; part = o.part; start = o.start })

to_download_instruction : Api.CacheDownloadInstruction → CacheDownloadInstruction
to_download_instruction i = record { method = i.method; offset = to_offset i.offset; url = i.url }

unfoldable pub convert_to_download_instructions :
    List Api.CacheDownloadInstruction → List CacheDownloadInstruction
unfolding to_download_instruction to_offset
convert_to_download_instructions = map to_download_instruction

-- slices.SortFunc by `Part`
unfoldable pub sort_downloads : List DownloadedFile → List DownloadedFile
sort_downloads = sort_by (λ a b. slt64 a.part b.part)

-- What the new file holds when the loop has appended each part to it and none of the calls on files
-- failed.
unfoldable pub combine_parts : List DownloadedFile → Text
combine_parts [] = []
combine_parts (d ∷ ds) = d.content ++ combine_parts ds

-- Each download is the bytes of its range: what S3 answers to a request for a range.
abbrev pub AreDownloads : Text → List Offsets.Offset → List DownloadedFile → Type 0
AreDownloads file [] [] = Unit
AreDownloads file (o ∷ os) (d ∷ ds) =
    (d.part ≡ o.part) × (d.content ≡ slice file o) × AreDownloads file os ds
AreDownloads file [] (_ ∷ _) = ⊥
AreDownloads file (_ ∷ _) [] = ⊥

combine-slices :
    (file : Text) (os : List Offsets.Offset) (ds : List DownloadedFile)
    → AreDownloads file os ds
    → combine_parts ds ≡ concat (slices file os)
unfolding combine_parts
combine-slices file [] [] h = refl
combine-slices file (o ∷ os) (d ∷ ds) (_, e, h) = rw (e, combine-slices file os ds h) refl
combine-slices file [] (_ ∷ _) h = absurd h
combine-slices file (_ ∷ _) [] h = absurd h

part_number : DownloadedFile → ℕ
part_number d = d.part

numbered-CountsFrom :
    (file : Text) (n : ℕ) (os : List Offsets.Offset) (ds : List DownloadedFile)
    → IsNumbered n os
    → AreDownloads file os ds
    → CountsFrom part_number n ds
unfolding part_number
numbered-CountsFrom file n [] [] h k = tt
numbered-CountsFrom file n (o ∷ os) (d ∷ ds) (e, h) (p, _, k) =
    (p ∙ e, numbered-CountsFrom file (n + 1) os ds h k)
numbered-CountsFrom file n [] (_ ∷ _) h k = absurd k
numbered-CountsFrom file n (_ ∷ _) [] h k = absurd k

-- A part number that is not negative as an `int64`.
abbrev IsSmall : DownloadedFile → Type 0
IsSmall d = d.part < two_63

agree : (a b : DownloadedFile) → IsSmall a → IsSmall b → slt64 a.part b.part ≡ ltb a.part b.part
agree a b ha hb = slt64_small a.part b.part ha hb

length-AreDownloads :
    (file : Text) (os : List Offsets.Offset) (ds : List DownloadedFile)
    → AreDownloads file os ds
    → length ds ≡ length os
length-AreDownloads file [] [] h = refl
length-AreDownloads file (o ∷ os) (d ∷ ds) (_, _, h) = ap suc (length-AreDownloads file os ds h)
length-AreDownloads file [] (_ ∷ _) h = absurd h
length-AreDownloads file (_ ∷ _) [] h = absurd h

sorted_back :
    (ds es : List DownloadedFile)
    → Permᴰ ds es
    → CountsFrom part_number 1 ds
    → length ds + 2 < two_63
    → sort_downloads es ≡ ds
unfolding sort_downloads part_number
sorted_back ds es p h k =
    sym (
      sort-sort (λ a b. slt64 a.part b.part) part_number IsSmall agree ds es p
        (CountsFrom-below part_number 1 two_63 ds h (omega arith))
        (CountsFrom-AreDistinct part_number 1 ds h))
    ∙ sort-CountsFrom part_number (λ a b. slt64 a.part b.part) two_63 agree 1 ds h (omega arith)

-- Of a file of at least the minimal part size and at most 16 PiB, the parts that were downloaded by
-- the ranges that the server names, in whatever order they arrived, are joined to the file.
pub restore_whole :
    (file : Text) (os : List Offsets.Offset) (ds es : List DownloadedFile)
    → IsFileSize (length file)
    → min_part_size ≤ length file
    → calculate_offsets (length file) min_part_size ≡ some os
    → AreDownloads file os ds
    → Perm ds es
    → combine_parts (sort_downloads es) ≡ file
restore_whole file os ds es size large computed downloads p =
    let range = in_range (length file) size large in
    let (os', e, tiles, numbered) = calculate_offsets-Tiles (length file) min_part_size range in
    let same : os' ≡ os = cc in
    let number : IsNumbered 1 os = rw (← same) numbered in
    let tile : Tiles 0 (length file) os = rw (← same) tiles in
    let n = length-calculate_offsets (length file) min_part_size range computed in
    let m = length-AreDownloads file os ds downloads in
    let few : length ds + 2 < two_63 = omega (arith, n, m) in
    ∥∥₁_elim p (hlevel) λ q.
      ap combine_parts (sorted_back ds es q (numbered-CountsFrom file 1 os ds number downloads) few)
      ∙ combine-slices file os ds downloads
      ∙ concat-slices_all file os tile
