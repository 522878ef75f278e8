-- ===== src/Offsets/Tiling.antt =====
-- The ranges of `calculateOffsets` cover the file, each byte once, and are numbered from 1.
use zipstash.Base.{
  ℕ, zero, suc, ◌+◌, ◌*◌, ◌/◌, ◌≤◌, ◌<◌, ◌≡◌, refl, some, List, [], ◌∷◌, inl, inr, arith, ltb,
  ltb→lt, Bool-cases,
}
use zipstash.Offsets.{Offset, calculate_offsets}
use zipstash.Offsets.Loop.{ranges_from, InRange, calculate_offsets-ranges_from, fuel_enough}

-- The ranges follow one another from byte `from` up to, and without, byte `to`.
abbrev pub Tiles : ℕ → ℕ → List Offset → Type 0
Tiles from to [] = from ≡ to
Tiles from to (o ∷ os) = (o.start ≡ from) × (o.start ≤ o.end + 1) × Tiles (o.end + 1) to os

-- The part numbers count up from `i`.
abbrev pub IsNumbered : ℕ → List Offset → Type 0
IsNumbered i [] = Unit
IsNumbered i (o ∷ os) = (o.part ≡ i) × IsNumbered (i + 1) os

ranges_from-Tiles :
    (fuel total_size part_size i start end : ℕ)
    → start ≤ total_size
    → start ≤ end + 1
    → 0 < total_size
    → 0 < part_size
    → end < total_size + part_size
    → total_size + part_size ≤ end + fuel * part_size
    → Tiles start total_size (ranges_from fuel total_size part_size i start end)
unfolding ranges_from
ranges_from-Tiles zero total_size part_size i start end h1 h2 h3 h4 h5 h6 = absurd (omega arith)
ranges_from-Tiles (suc fuel) total_size part_size i start end h1 h2 h3 h4 h5 h6 =
    elim (Bool-cases (ltb end total_size)) [
      | inl more ↦
          let inside : end < total_size = ltb→lt end total_size more in
          rw more (
            refl,
            h2,
            ranges_from-Tiles fuel total_size part_size (i + 1) (end + 1) (end + part_size)
                (omega arith) (omega arith) h3 h4 (omega arith) (omega arith),
          )
      | inr last ↦ rw last (refl, omega arith, omega arith)
    ]

ranges_from-IsNumbered :
    (fuel total_size part_size i start end : ℕ)
    → IsNumbered i (ranges_from fuel total_size part_size i start end)
unfolding ranges_from
ranges_from-IsNumbered zero total_size part_size i start end = tt
ranges_from-IsNumbered (suc fuel) total_size part_size i start end =
    elim (Bool-cases (ltb end total_size)) [
      | inl more ↦ rw more (
        refl,
        ranges_from-IsNumbered fuel total_size part_size (i + 1) (end + 1) (end + part_size),
      )
      | inr last ↦ rw last (refl, tt)
    ]

-- For a file and a part size above 0 on which nothing wraps around, the call returns, its ranges
-- follow one another from byte 0 to the last byte of the file, and their part numbers are 1, 2, ….
pub calculate_offsets-Tiles :
    (total_size part_size : ℕ)
    → InRange total_size part_size
    → (os : List Offset) × (calculate_offsets total_size part_size ≡ some os)
      × Tiles 0 total_size os
      × IsNumbered 1 os
calculate_offsets-Tiles total_size part_size r = (
  ranges_from (total_size / part_size + 1) total_size part_size 1 0 part_size,
  calculate_offsets-ranges_from total_size part_size r,
  ranges_from-Tiles (total_size / part_size + 1) total_size part_size 1 0 part_size (omega arith)
      (omega arith) r.total_pos r.part_pos (omega arith)
      (fuel_enough total_size part_size r.part_pos),
  ranges_from-IsNumbered (total_size / part_size + 1) total_size part_size 1 0 part_size,
)
