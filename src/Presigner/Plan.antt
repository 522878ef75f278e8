-- ===== src/Presigner/Plan.antt =====
-- What the instructions for an upload and for a download say about a file of a given size.
use zipstash.Base.{
  ℕ, ◌≡◌, ◌<◌, ◌≤◌, refl, Bool, true, false, List, [], ◌∷◌, none, some, Text, arith, ltb, Result,
  ok, err, crash, wrap, map_err, and_then, slt64, slt64_small, inl, inr, ◌⊎◌, Bool-cases, ltb→lt,
  ltb_false→le, run_call, run_reads, run_lookup, run_pure,
}
use zipstash.Offsets.{Offset, calculate_offsets, min_part_size}
use zipstash.Offsets.Loop.{InRange}
use zipstash.Offsets.Tiling.{Tiles, IsNumbered, calculate_offsets-Tiles}
use zipstash.Backend.{Backend}
use zipstash.Presigner.{
  CacheUrlInstruction, UploadInstructionsResp, DownloadInstructionsResp, offsets_of, presign_each,
  single_upload, multipart_upload, generate_file_upload_instructions, single_download,
  multipart_download, generate_file_download_instructions, method_put, method_get, get_request,
  range_header,
}

-- The ranges of the instructions, each of one request method.
abbrev pub Covers : Text → List CacheUrlInstruction → List Offset → Type 0
Covers method [] [] = Unit
Covers method (i ∷ is) (o ∷ os) = (i.offset ≡ some o) × (i.method ≡ method) × Covers method is os
Covers method [] (_ ∷ _) = ⊥
Covers method (_ ∷ _) [] = ⊥

-- One instruction for the whole of a small file.
pub record IsSinglePlan (method : Text) (total_size : ℕ) (multipart : Bool)
    (instructions : List CacheUrlInstruction) : Type 0 where
  pub small : total_size < min_part_size
  pub not_multipart : multipart ≡ false
  pub url : Text
  pub one : instructions ≡ record { offset = none; url = url; method = method } ∷ []

-- From the minimal part size on, one instruction for each range; the ranges follow one another from
-- the first byte to the last and count from 1.
pub record IsMultipartPlan (method : Text) (total_size : ℕ) (multipart : Bool)
    (instructions : List CacheUrlInstruction) : Type 0 where
  pub large : min_part_size ≤ total_size
  pub is_multipart : multipart ≡ true
  pub offsets : List Offset
  pub computed : calculate_offsets total_size min_part_size ≡ some offsets
  pub covers : Covers method instructions offsets
  pub tiles : Tiles 0 total_size offsets
  pub numbered : IsNumbered 1 offsets

abbrev pub IsPlan : Text → ℕ → Bool → List CacheUrlInstruction → Type 0
IsPlan method total_size multipart instructions =
    IsSinglePlan method total_size multipart instructions
    ⊎ IsMultipartPlan method total_size multipart instructions

-- Up to 16 PiB, 0 included.
abbrev pub IsFileSize : ℕ → Type 0
IsFileSize total_size = total_size < 18014398509481984

ok-injective : {A : Type 0} {a b : A} → ok a ≡ ok b → a ≡ b
ok-injective h = cc

presigned :
    (r : Result Text) (rest : Result (List CacheUrlInstruction)) (method : Text) (o : Offset)
    {is : List CacheUrlInstruction}
    → and_then (map_err (wrap "failed to presign upload") r) (λ url.
      and_then rest λ reqs. ok (record { offset = some o; url = url; method = method } ∷ reqs))
      ≡ ok is
    → (url : Text) × (reqs : List CacheUrlInstruction) × (rest ≡ ok reqs)
      × (is ≡ record { offset = some o; url = url; method = method } ∷ reqs)
presigned (ok url) (ok reqs) method o h = (url, reqs, refl, cc)
presigned (ok url) (err e) method o h = cc
presigned (ok url) (crash c) method o h = cc
presigned (err e) rest method o h = cc
presigned (crash c) rest method o h = cc

no_ranges : (method : Text) {is : List CacheUrlInstruction} → ok [] ≡ ok is → Covers method is []
no_ranges method {is = []} h = tt
no_ranges method {is = i ∷ is} h = cc

presign_each-Covers :
    (b : Backend) (presign : Offset → b.World → Result Text) (method : Text) (os : List Offset)
    (w : b.World) {is : List CacheUrlInstruction}
    → presign_each b presign method os w ≡ ok is
    → Covers method is os
unfolding presign_each
presign_each-Covers b presign method [] w h = no_ranges method h
presign_each-Covers b presign method (o ∷ os) w h =
    let (url, reqs, rest, e) =
      presigned (presign o w) (presign_each b presign method os w) method o h in
    rw e (refl, refl, presign_each-Covers b presign method os w rest)

pub in_range :
    (total_size : ℕ)
    → IsFileSize total_size
    → min_part_size ≤ total_size
    → InRange total_size min_part_size
in_range total_size h large = record {
  total_pos = omega arith;
  part_pos = omega arith;
  fits = omega arith;
  parts_fit = omega arith;
}

pub is_small :
    (total_size : ℕ)
    → IsFileSize total_size
    → slt64 total_size min_part_size ≡ ltb total_size min_part_size
is_small total_size h = slt64_small total_size min_part_size (omega arith) (omega arith)

offsets_plan :
    (b : Backend) (presign : Offset → b.World → Result Text) (method : Text) (total_size : ℕ)
    (w : b.World) (os : List Offset) {is : List CacheUrlInstruction}
    → IsFileSize total_size
    → min_part_size ≤ total_size
    → offsets_of (calculate_offsets total_size min_part_size) ≡ ok os
    → presign_each b presign method os w ≡ ok is
    → IsMultipartPlan method total_size true is
unfolding offsets_of
offsets_plan b presign method total_size w os h large computed signed =
    let (os', e, tiles, numbered) =
      calculate_offsets-Tiles total_size min_part_size (in_range total_size h large) in
    let same : os ≡ os' = let c = rw e at computed in cc in
    record {
      large = large;
      is_multipart = refl;
      offsets = os';
      computed = e;
      covers = rw (← same) (presign_each-Covers b presign method os w signed);
      tiles = tiles;
      numbered = numbered;
    }

ran :
    {A B : Type 0} (r : Result A) (f : A → Result B) {b : B}
    → and_then r f ≡ ok b
    → (a : A) × (r ≡ ok a) × (f a ≡ ok b)
ran (ok a) f h = (a, refl, h)
ran (err e) f h = cc
ran (crash c) f h = cc

module _ (b : Backend) (bucket s3key : Text) where
  -- When the server returns instructions for an upload of up to 16 PiB, they are a single PUT of the
  -- file if it is below the minimal part size, and otherwise one PUT for each range of bytes, which
  -- cover the file.
  pub upload_instructions-IsPlan :
      (sha256sum compression : Text) (total_size : ℕ) (w : b.World) {r : UploadInstructionsResp}
      {w' : b.World}
      → IsFileSize total_size
      → generate_file_upload_instructions b bucket s3key sha256sum compression total_size w
        ≡ (ok r, w')
      → IsPlan method_put total_size r.multipart r.upload_instructions
  unfolding generate_file_upload_instructions single_upload multipart_upload
  upload_instructions-IsPlan sha256sum compression total_size w size h =
      elim (Bool-cases (ltb total_size min_part_size)) [
        | inl small ↦ run_lookup _ _ _ (rw (is_small total_size size, small) at h) λ url _ h1.
            let (same, _) = run_pure _ h1 in
            rw (← same) (
              inl (record {
                small = ltb→lt total_size min_part_size small;
                not_multipart = refl;
                url = url;
                one = refl;
              }))
        | inr large ↦ run_call _ _ _ (rw (is_small total_size size, large) at h) λ upload w1 _ h1.
            run_reads _ _ h1 λ os computed h2. run_reads _ _ h2 λ reqs signed h3.
              let (same, _) = run_pure _ h3 in
              rw (← same) (
                inr (
                  offsets_plan b _ method_put total_size _ os size
                    (ltb_false→le total_size min_part_size large) computed signed))
      ]

  -- When the server returns instructions for a download of up to 16 PiB, they are a single GET of the
  -- object if it is below the minimal part size, and otherwise one GET for each range of bytes, which
  -- cover the object.
  pub download_instructions-IsPlan :
      (total_size : ℕ) (w : b.World) {r : DownloadInstructionsResp}
      → IsFileSize total_size
      → generate_file_download_instructions b bucket s3key total_size w ≡ ok r
      → IsPlan method_get total_size r.multipart r.download_instructions
  unfolding generate_file_download_instructions single_download multipart_download
  download_instructions-IsPlan total_size w size h =
      elim (Bool-cases (ltb total_size min_part_size)) [
        | inl small ↦
            let (url, _, e) =
              ran (map_err (wrap "failed to presign upload") (get_request b bucket s3key none w))
                (λ url. ok (record {
                  download_instructions =
                      record { offset = none; url = url; method = method_get } ∷ [];
                  multipart = false;
                }))
                (rw (is_small total_size size, small) at h) in
            let same = ok-injective e in
            rw (← same) (
              inl (record {
                small = ltb→lt total_size min_part_size small;
                not_multipart = refl;
                url = url;
                one = refl;
              }))
        | inr large ↦
            let (os, computed, e) =
              ran (offsets_of (calculate_offsets total_size min_part_size))
                (λ os.
                  and_then
                    (presign_each b (λ o. get_request b bucket s3key (some (range_header o)))
                      method_get os w)
                    λ reqs. ok (record { download_instructions = reqs; multipart = true }))
                (rw (is_small total_size size, large) at h) in
            let (reqs, signed, e') =
              ran
                (presign_each b (λ o. get_request b bucket s3key (some (range_header o))) method_get
                  os w)
                (λ reqs. ok (record { download_instructions = reqs; multipart = true })) e in
            let same = ok-injective e' in
            rw (← same) (
              inr (
                offsets_plan b _ method_get total_size w os size
                  (ltb_false→le total_size min_part_size large) computed signed))
      ]
