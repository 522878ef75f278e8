-- ===== src/Offsets/Loop.antt =====
-- The loop of `calculateOffsets` without wrap-around, and that it runs to its end.
use zipstash.Base.{
  ℕ, zero, suc, ◌+◌, ◌-◌, ◌*◌, ◌/◌, ◌≤◌, ◌<◌, ◌≡◌, refl, ap, false, some, List, [], ◌∷◌, ◌++◌,
  append_assoc, inl, inr, arith, ltb, if◌then◌else◌, ltb→lt, Bool-cases, sub64, two_63, add64_small,
  add32_small, slt64_small,
}
use zipstash.Offsets.{Offset, offsets_loop, make_panics, calculate_offsets}

-- The ranges from `start`, of which the next ends at `end`.
unfoldable pub ranges_from : ℕ → ℕ → ℕ → ℕ → ℕ → ℕ → List Offset
ranges_from zero total_size part_size i start end = []
ranges_from (suc fuel) total_size part_size i start end =
    let rest = ranges_from fuel total_size part_size (i + 1) (end + 1) (end + part_size) in
    if ltb end total_size
    then record { part = i; start = start; end = end } ∷ rest
    else record { part = i; start = start; end = total_size - 1 } ∷ []

-- The input sizes on which nothing wraps around.
pub record InRange (total_size part_size : ℕ) : Type 0 where
  pub total_pos : 0 < total_size
  pub part_pos : 0 < part_size
  pub fits : total_size + part_size < two_63
  pub parts_fit : total_size / part_size < 2147483647

sub64_one : (a : ℕ) → 0 < a → a < two_63 → sub64 a 1 ≡ a - 1
unfolding sub64
sub64_one a h k = omega arith

pub offsets_loop-ranges_from :
    (fuel total_size part_size i start end : ℕ) (offsets : List Offset)
    → 0 < total_size
    → 0 < part_size
    → total_size + part_size < two_63
    → end < total_size + part_size
    → i + fuel ≤ 2147483649
    → total_size + part_size ≤ end + fuel * part_size
    → offsets_loop fuel total_size part_size i start end offsets
      ≡ some (offsets ++ ranges_from fuel total_size part_size i start end)
unfolding offsets_loop ranges_from
offsets_loop-ranges_from zero total_size part_size i start end offsets h1 h2 h3 h4 h5 h6 =
    absurd (omega arith)
offsets_loop-ranges_from (suc fuel) total_size part_size i start end offsets h1 h2 h3 h4 h5 h6 =
    elim (Bool-cases (ltb end total_size)) [
      | inl more ↦
          let inside : end < total_size = ltb→lt end total_size more in
          rw
            (
              slt64_small end total_size (omega arith) (omega arith),
              more,
              add64_small end 1 (omega arith),
              add64_small end part_size (omega arith),
              add32_small i 1 (omega arith),
              offsets_loop-ranges_from fuel total_size part_size (i + 1) (end + 1) (end + part_size)
                  _ h1 h2 h3 (omega arith) (omega arith) (omega arith),
            )
            (ap some (append_assoc offsets _ _))
      | inr last ↦
          rw
            (
              slt64_small end total_size (omega arith) (omega arith),
              last,
              sub64_one total_size h1 (omega arith),
            )
            refl
    ]

make_panics_small :
    (total_size part_size : ℕ)
    → InRange total_size part_size
    → make_panics total_size part_size ≡ false
unfolding make_panics
make_panics_small total_size part_size r = ground (
  arith,
  slt64_small total_size 0 (omega arith) (omega arith),
  slt64_small part_size 0 (omega arith) (omega arith),
)

-- The fuel is enough: the last range that the loop can reach ends behind the file.
pub fuel_enough :
    (total_size part_size : ℕ)
    → 0 < part_size
    → total_size + part_size ≤ part_size + (total_size / part_size + 1) * part_size
fuel_enough total_size part_size h = grind arith

-- In range, the call returns the ranges, from byte 0 and part 1.
pub calculate_offsets-ranges_from :
    (total_size part_size : ℕ)
    → InRange total_size part_size
    → calculate_offsets total_size part_size
      ≡ some (ranges_from (total_size / part_size + 1) total_size part_size 1 0 part_size)
unfolding calculate_offsets
calculate_offsets-ranges_from total_size part_size r =
    rw (make_panics_small total_size part_size r) (
      offsets_loop-ranges_from (total_size / part_size + 1) total_size part_size 1 0 part_size []
        r.total_pos r.part_pos r.fits (omega arith) (omega arith)
        (fuel_enough total_size part_size r.part_pos))
