-- ===== src/Offsets/Sizes.antt =====
-- How many ranges `calculateOffsets` makes, and how long they are.
use zipstash.Base.{
  ℕ, zero, suc, ◌+◌, ◌-◌, ◌*◌, ◌/◌, ◌≤◌, ◌<◌, ◌≡◌, ap, ◌++◌, lt→ltb, le→ltb_false, ◌∙◌, refl, ◌⊎◌,
  inl, inr, some, List, [], ◌∷◌, arith, ltb, ltb→lt, ltb_false→le, Bool-cases, length,
}
use native.Mathlib.Numerals.{add-one}
use zipstash.Offsets.{Offset, calculate_offsets}
use zipstash.Offsets.Loop.{ranges_from, InRange, calculate_offsets-ranges_from, fuel_enough}

-- `end - start + 1`, the size that the uploader computes.
abbrev pub size_of : Offset → ℕ
size_of o = o.end + 1 - o.start

-- ⌈total / part⌉
abbrev pub part_count : ℕ → ℕ → ℕ
part_count total_size part_size = (total_size + part_size - 1) / part_size

-- Every range but the last holds `part_size` bytes, or one more if it begins at byte 0; the last
-- holds at most `part_size`.
abbrev pub IsSized : ℕ → List Offset → Type 0
IsSized part_size [] = Unit
IsSized part_size (o ∷ []) = size_of o ≤ part_size
IsSized part_size (o ∷ o' ∷ os) =
    ((o.start ≡ 0) × (size_of o ≡ part_size + 1) ⊎ (0 < o.start) × (size_of o ≡ part_size))
    × IsSized part_size (o' ∷ os)

length-ranges_from :
    (fuel total_size part_size i start end : ℕ)
    → 0 < total_size
    → 0 < part_size
    → end < total_size + part_size
    → total_size + part_size ≤ end + fuel * part_size
    → (n : ℕ) × (length (ranges_from fuel total_size part_size i start end) ≡ n + 1)
      × (total_size ≤ end + n * part_size)
      × (end + n * part_size < total_size + part_size)
unfolding ranges_from
length-ranges_from zero total_size part_size i start end h1 h2 h3 h4 = absurd (omega arith)
length-ranges_from (suc fuel) total_size part_size i start end h1 h2 h3 h4 =
    elim (Bool-cases (ltb end total_size)) [
      | inl more ↦
          let inside : end < total_size = ltb→lt end total_size more in
          let (n, e, lo, hi) =
            length-ranges_from fuel total_size part_size (i + 1) (end + 1) (end + part_size) h1 h2
              (omega arith) (omega arith) in
          (n + 1, rw more (omega (arith, e)), omega arith, omega arith)
      | inr last ↦
          let outside : total_size ≤ end = ltb_false→le end total_size last in
          (0, rw last refl, omega arith, omega arith)
    ]

count_unique :
    (n total_size part_size : ℕ)
    → 0 < part_size
    → total_size ≤ part_size + n * part_size
    → part_size + n * part_size < total_size + part_size
    → n + 1 ≡ part_count total_size part_size
count_unique n total_size part_size h lo hi = grind arith

-- In range, the call makes ⌈total / part⌉ ranges.
pub length-calculate_offsets :
    (total_size part_size : ℕ) {os : List Offset}
    → InRange total_size part_size
    → calculate_offsets total_size part_size ≡ some os
    → length os ≡ part_count total_size part_size
length-calculate_offsets total_size part_size {os} r h =
    let (n, e, lo, hi) =
      length-ranges_from (total_size / part_size + 1) total_size part_size 1 0 part_size r.total_pos
        r.part_pos (omega arith) (fuel_enough total_size part_size r.part_pos) in
    let same : os ≡ ranges_from (total_size / part_size + 1) total_size part_size 1 0 part_size =
      cc (calculate_offsets-ranges_from total_size part_size r) in
    rw same (e ∙ count_unique n total_size part_size r.part_pos lo hi)

IsSized-cons :
    (part_size : ℕ) (o : Offset) (os : List Offset) (n : ℕ)
    → length os ≡ n + 1
    → ((o.start ≡ 0) × (size_of o ≡ part_size + 1)) ⊎ ((0 < o.start) × (size_of o ≡ part_size))
    → IsSized part_size os
    → IsSized part_size (o ∷ os)
IsSized-cons part_size o [] n e v h = absurd (omega arith)
IsSized-cons part_size o (o' ∷ os) n e v h = (v, h)

ranges_from-IsSized :
    (fuel total_size part_size i start end : ℕ)
    → 0 < total_size
    → 0 < part_size
    → end < total_size + part_size
    → total_size + part_size ≤ end + fuel * part_size
    → ((start ≡ 0) × (end ≡ part_size)) ⊎ ((0 < start) × (end + 1 ≡ start + part_size))
    → IsSized part_size (ranges_from fuel total_size part_size i start end)
unfolding ranges_from
ranges_from-IsSized zero total_size part_size i start end h1 h2 h3 h4 h = tt
ranges_from-IsSized (suc fuel) total_size part_size i start end h1 h2 h3 h4 h =
    elim (Bool-cases (ltb end total_size)) [
      | inl more ↦
          let inside : end < total_size = ltb→lt end total_size more in
          let (n, e, _, _) =
            length-ranges_from fuel total_size part_size (i + 1) (end + 1) (end + part_size) h1 h2
              (omega arith) (omega arith) in
          rw more (
            IsSized-cons part_size (record { part = i; start = start; end = end }) _ n e
              (ground arith)
              (ranges_from-IsSized fuel total_size part_size (i + 1) (end + 1) (end + part_size) h1
                h2 (omega arith) (omega arith) (inr (omega arith, omega arith))))
      | inr last ↦
          let outside : total_size ≤ end = ltb_false→le end total_size last in
          rw last (ground arith)
    ]

-- In range, every range but the last holds `part_size` bytes, or one byte more if it is the first;
-- the last holds at most `part_size`.
pub calculate_offsets-IsSized :
    (total_size part_size : ℕ) {os : List Offset}
    → InRange total_size part_size
    → calculate_offsets total_size part_size ≡ some os
    → IsSized part_size os
calculate_offsets-IsSized total_size part_size {os} r h =
    let same : os ≡ ranges_from (total_size / part_size + 1) total_size part_size 1 0 part_size =
      cc (calculate_offsets-ranges_from total_size part_size r) in
    rw same (
      ranges_from-IsSized (total_size / part_size + 1) total_size part_size 1 0 part_size
        r.total_pos r.part_pos (omega arith) (fuel_enough total_size part_size r.part_pos)
        (inl (refl, refl)))

-- `o` is the last element.
abbrev pub IsLast : Offset → List Offset → Type 0
IsLast o os = (front : List Offset) × (os ≡ front ++ o ∷ [])

-- A range of no bytes behind the end of the file.
abbrev pub IsEmptyAt : ℕ → Offset → Type 0
IsEmptyAt total_size o = (o.start ≡ total_size) × (o.end + 1 ≡ total_size)

IsLast-cons : (o : Offset) (os : List Offset) {l : Offset} → IsLast l os → IsLast l (o ∷ os)
IsLast-cons o os (front, e) = (o ∷ front, ap (λ xs. o ∷ xs) e)

ranges_from-empty-IsLast :
    (fuel q total_size part_size i start end : ℕ)
    → 0 < part_size
    → 0 < start
    → end + 1 ≡ start + part_size
    → q < fuel
    → total_size ≡ start + q * part_size
    → (l : Offset) × IsLast l (ranges_from fuel total_size part_size i start end)
      × IsEmptyAt total_size l
unfolding ranges_from
ranges_from-empty-IsLast zero q total_size part_size i start end h1 h2 h3 h4 h5 =
    absurd (omega arith)
ranges_from-empty-IsLast (suc fuel) zero total_size part_size i start end h1 h2 h3 h4 h5 =
    rw (le→ltb_false end total_size (omega arith)) (
      record { part = i; start = start; end = total_size - 1 },
      ([], refl),
      (omega arith, omega arith),
    )
ranges_from-empty-IsLast (suc fuel) (suc q) total_size part_size i start end h1 h2 h3 h4 h5 =
    let (l, last, empty) =
      ranges_from-empty-IsLast fuel q total_size part_size (i + 1) (end + 1) (end + part_size) h1
        (omega arith) (omega arith) (omega arith) (omega arith) in
    rw (lt→ltb end total_size (omega arith)) (l, IsLast-cons _ _ last, empty)

quotient-le : (q part_size : ℕ) → 0 < part_size → q ≤ (q * part_size + 1) / part_size
quotient-le q part_size h = grind arith

first_step :
    (q part_size total : ℕ)
    → 0 < part_size
    → total ≡ suc q * part_size + 1
    → (l : Offset) × IsLast l (ranges_from (suc (total / part_size)) total part_size 1 0 part_size)
      × IsEmptyAt total l
unfolding ranges_from
first_step q part_size total h e =
    let (l, last, empty) =
      ranges_from-empty-IsLast (total / part_size) q total part_size (1 + 1) (part_size + 1)
        (part_size + part_size) h (omega arith) (omega arith)
        (rw e (quotient-le (suc q) part_size h)) (omega arith) in
    rw (lt→ltb part_size total (omega arith)) (l, IsLast-cons _ _ last, empty)

-- In range, a file of (q + 1) * part + 1 bytes gets a last range that holds no byte and begins
-- behind the end of the file.
pub calculate_offsets_empty-IsLast :
    (q part_size : ℕ) {os : List Offset}
    → InRange (suc q * part_size + 1) part_size
    → calculate_offsets (suc q * part_size + 1) part_size ≡ some os
    → (l : Offset) × IsLast l os × IsEmptyAt (suc q * part_size + 1) l
calculate_offsets_empty-IsLast q part_size {os} r e =
    let total : ℕ = suc q * part_size + 1 in
    let same : os ≡ ranges_from (total / part_size + 1) total part_size 1 0 part_size =
      cc (calculate_offsets-ranges_from total part_size r) in
    rw (same, add-one) (first_step q part_size total r.part_pos refl)
