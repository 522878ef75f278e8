-- ===== src/Offsets.antt =====
-- `calculateOffsets` of internal/server/presigner.go: the byte ranges of a multipart transfer.
pub mod Loop
pub mod Tiling
pub mod Sizes
use zipstash.Base.{
  ℕ, zero, suc, ◌+◌, ◌-◌, ◌*◌, ◌/◌, Bool, true, false, not, ◌&&◌, Option, none, some, List, [], ◌∷◌,
  ◌++◌, ltb, ◌==◌, if◌then◌else◌, add64, sub64, add32, slt64, two_64,
}

-- An inclusive range of bytes and its part number. `start` and `end` are `int64`, `part` is `int32`.
pub record Offset : Type 0 where
  pub part : ℕ
  pub start : ℕ
  pub end : ℕ

abbrev pub min_part_size : ℕ
min_part_size = 10 * 1024 * 1024

-- `for end < totalSize { … }` and what follows it; `none` if the fuel runs out.
pub offsets_loop : ℕ → ℕ → ℕ → ℕ → ℕ → ℕ → List Offset → Option (List Offset)
offsets_loop zero total_size part_size i start end offsets = none
offsets_loop (suc fuel) total_size part_size i start end offsets =
    let rest =
      offsets_loop fuel total_size part_size (add32 i 1) (add64 end 1) (add64 end part_size)
        (offsets ++ record { part = i; start = start; end = end } ∷ []) in
    if slt64 end total_size
    then rest
    else some (offsets ++ record { part = i; start = start; end = sub64 total_size 1 } ∷ [])

abs64 : ℕ → ℕ
abs64 a = if slt64 a 0 then two_64 - a else a

-- Whether `make([]*Offset, 0, (totalSize/partSize)+1)` panics: on a division by 0 and on a
-- capacity below 0, which is a quotient of at most -2.
pub make_panics : ℕ → ℕ → Bool
unfolding abs64
make_panics total_size part_size =
    if part_size == 0
    then true
    else let quotient = abs64 total_size / abs64 part_size in
      if slt64 total_size 0
      then not (slt64 part_size 0) && ltb 1 quotient
      else slt64 part_size 0 && ltb 1 quotient

-- `none` if the call panics or does not end.
unfoldable pub calculate_offsets : ℕ → ℕ → Option (List Offset)
unfolding offsets_loop make_panics
calculate_offsets total_size part_size =
    let result = offsets_loop (total_size / part_size + 1) total_size part_size 1 0 part_size [] in
    if make_panics total_size part_size then none else result
