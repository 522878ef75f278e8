-- ===== src/Transfer/Whole.antt =====
-- The chunks that the client reads make up the file.
use zipstash.Base.{
  ℕ, zero, suc, ◌+◌, ◌-◌, ◌≡◌, ◌≤◌, ◌<◌, refl, sym, ap, ◌∙◌, List, [], ◌∷◌, ◌++◌, some, Text,
  length, take, drop, take_all, length-drop, length-take_le, ok, slt64_small, add64, sub64, two_63,
  arith,
}
use zipstash.Offsets
use zipstash.Offsets.{calculate_offsets, min_part_size}
use zipstash.Offsets.Tiling.{Tiles}
use zipstash.Transfer.Upload.{CacheUploadInstruction, read_at, read_chunk, check_size, chunk_size}

-- The instruction of a range.
abbrev pub part_instruction : Text → Text → Offsets.Offset → CacheUploadInstruction
part_instruction method url o = record {
  method = method;
  offset = some (record { end = o.end; part = o.part; start = o.start });
  url = url;
}

-- The chunk of each range, in order.
abbrev pub AreChunks : Text → List Offsets.Offset → List Text → Type 0
AreChunks file [] [] = Unit
AreChunks file (o ∷ os) (c ∷ cs) =
    (read_chunk (some file) (chunk_size (part_instruction [] [] o).offset)
        (part_instruction [] [] o)
      ≡ ok c)
    × AreChunks file os cs
AreChunks file [] (_ ∷ _) = ⊥
AreChunks file (_ ∷ _) [] = ⊥

abbrev pub concat : List Text → Text
concat [] = []
concat (c ∷ cs) = c ++ concat cs

size_small :
    (start end : ℕ)
    → start ≤ end + 1
    → end + 1 < two_63
    → add64 (sub64 end start) 1 ≡ end + 1 - start
unfolding add64 sub64
size_small start end h k = omega arith

take_nil : (n : ℕ) → take {A = ℕ} n [] ≡ []
take_nil zero = refl
take_nil (suc n) = refl

take-take-drop : (n m : ℕ) (s : Text) → take n s ++ take m (drop n s) ≡ take (n + m) s
take-take-drop zero m s = ap (λ k. take k s) (omega arith)
take-take-drop (suc n) m [] = take_nil m ∙ sym (take_nil (suc n + m))
take-take-drop (suc n) m (c ∷ s) =
    let e : suc (n + m) ≡ suc n + m = omega arith in
    ap (λ t. c ∷ t) (take-take-drop n m s) ∙ ap (λ k. take k (c ∷ s)) e

read_at-inside :
    (file : Text) (size start : ℕ)
    → start + size ≤ length file
    → length file < two_63
    → read_at file size start ≡ ok (take size (drop start file))
unfolding read_at
read_at-inside file size start h k =
    rw
      (
        slt64_small size 0 (omega arith) (omega arith),
        slt64_small start 0 (omega arith) (omega arith),
      )
      (ground arith)

drop_nil : (n : ℕ) → drop {A = ℕ} n [] ≡ []
drop_nil zero = refl
drop_nil (suc n) = refl

drop-drop : (n m : ℕ) (s : Text) → drop n (drop m s) ≡ drop (m + n) s
drop-drop n zero s = ap (λ k. drop k s) (omega arith)
drop-drop n (suc m) [] = drop_nil n ∙ sym (drop_nil (suc m + n))
drop-drop n (suc m) (c ∷ s) =
    let e : suc (m + n) ≡ suc m + n = omega arith in drop-drop n m s ∙ ap (λ k. drop k (c ∷ s)) e

pub Tiles-le : (from to : ℕ) (os : List Offsets.Offset) → Tiles from to os → from ≤ to
Tiles-le from to [] h = omega (arith, h)
Tiles-le from to (o ∷ os) (e, h, t) =
    let r : o.end + 1 ≤ to = Tiles-le (o.end + 1) to os t in omega (arith, e)

sized : (n : ℕ) (buf : Text) → length buf ≡ n → check_size n buf ≡ ok buf
unfolding check_size
sized n buf h = ground arith

read_chunk-inside :
    (file : Text) (o : Offsets.Offset)
    → o.start ≤ o.end + 1
    → o.end + 1 ≤ length file
    → length file < two_63
    → read_chunk
        (some file)
        (chunk_size (part_instruction [] [] o).offset)
        (part_instruction [] [] o)
      ≡ ok (take (o.end + 1 - o.start) (drop o.start file))
unfolding read_chunk chunk_size
read_chunk-inside file o h k small =
    let n = o.end + 1 - o.start in
    rw (size_small o.start o.end h (omega arith), read_at-inside file n o.start (omega arith) small)
      (sized n (take n (drop o.start file))
        (length-take_le n (drop o.start file) (omega (arith, length-drop o.start file))))

-- The bytes of a range, and of each range.
abbrev pub slice : Text → Offsets.Offset → Text
slice file o = take (o.end + 1 - o.start) (drop o.start file)

abbrev pub slices : Text → List Offsets.Offset → List Text
slices file [] = []
slices file (o ∷ os) = slice file o ∷ slices file os

-- Ranges that follow one another make up what lies between their ends.
pub concat-slices :
    (file : Text) (from to : ℕ) (os : List Offsets.Offset)
    → Tiles from to os
    → concat (slices file os) ≡ take (to - from) (drop from file)
concat-slices file from to [] e =
    let z : to - from ≡ 0 = omega (arith, e) in ap (λ k. take k (drop from file)) (sym z)
concat-slices file from to (o ∷ os) (e, le, t) =
    let inside : o.end + 1 ≤ to = Tiles-le (o.end + 1) to os t in
    let n = o.end + 1 - o.start in
    let end : o.start + n ≡ o.end + 1 = omega arith in
    let sum : n + (to - (o.end + 1)) ≡ to - from = omega (arith, e) in
    ap (λ s. slice file o ++ s)
      (concat-slices file (o.end + 1) to os t
        ∙ ap (λ k. take (to - (o.end + 1)) (drop k file)) (sym end)
        ∙ ap (take (to - (o.end + 1))) (sym (drop-drop n o.start file)))
    ∙ take-take-drop n (to - (o.end + 1)) (drop o.start file)
    ∙ ap (λ k. take k (drop o.start file)) sum
    ∙ ap (λ k. take (to - from) (drop k file)) e

pub concat-slices_all :
    (file : Text) (os : List Offsets.Offset)
    → Tiles 0 (length file) os
    → concat (slices file os) ≡ file
concat-slices_all file os t =
    concat-slices file 0 (length file) os t ∙ take_all (length file - 0) file (omega arith)

pub slices-AreChunks :
    (file : Text) (from to : ℕ) (os : List Offsets.Offset)
    → Tiles from to os
    → to ≤ length file
    → length file < two_63
    → AreChunks file os (slices file os)
slices-AreChunks file from to [] e h small = tt
slices-AreChunks file from to (o ∷ os) (e, le, t) h small =
    let inside : o.end + 1 ≤ to = Tiles-le (o.end + 1) to os t in
    (
      read_chunk-inside file o le (omega arith) small,
      slices-AreChunks file (o.end + 1) to os t h small,
    )
