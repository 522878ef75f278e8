-- ===== src/Presigner/Signed.antt =====
-- Which request each URL of the instructions is presigned for.
use zipstash.Base.{
  ℕ, ◌≡◌, ◌<◌, ◌≤◌, sym, ap, true, List, [], ◌∷◌, Option, none, some, Text, ltb, ltb→lt,
  ltb_false→le, Result, ok, wrap, map_err, map_err-eq-ok, and_then-eq-ok, Bool-cases, inl, inr, ◌⊎◌,
  run_call, run_reads, run_lookup, run_pure,
}
use zipstash.Offsets.{Offset, calculate_offsets, min_part_size}
use zipstash.Backend.{Backend}
use zipstash.Presigner.{
  CacheUrlInstruction, UploadInstructionsResp, DownloadInstructionsResp, offsets_of, presign_each,
  single_upload, multipart_upload, generate_file_upload_instructions, single_download,
  multipart_download, generate_file_download_instructions, method_put, method_get, get_request,
  put_request, part_request, range_header, compression_to_content_type,
}
use zipstash.Presigner.Plan.{IsFileSize, is_small}

module _ (b : Backend) where
  -- Each URL is the one that the request of its range was presigned to.
  abbrev pub AreSigned :
      (Offset → b.World → Result Text) → b.World → List CacheUrlInstruction → List Offset → Type 0
  AreSigned presign w [] [] = Unit
  AreSigned presign w (i ∷ is) (o ∷ os) = (presign o w ≡ ok i.url) × AreSigned presign w is os
  AreSigned presign w [] (_ ∷ _) = ⊥
  AreSigned presign w (_ ∷ _) [] = ⊥

  no_instructions :
      (presign : Offset → b.World → Result Text) (w : b.World) {is : List CacheUrlInstruction}
      → ok [] ≡ ok is
      → AreSigned presign w is []
  no_instructions presign w {is = []} h = tt
  no_instructions presign w {is = i ∷ is} h = cc

  presign_each-AreSigned :
      (presign : Offset → b.World → Result Text) (method : Text) (os : List Offset) (w : b.World)
      {is : List CacheUrlInstruction}
      → presign_each b presign method os w ≡ ok is
      → AreSigned presign w is os
  unfolding presign_each
  presign_each-AreSigned presign method [] w h = no_instructions presign w h
  presign_each-AreSigned presign method (o ∷ os) w {is} h =
      let (url, e, h1) =
        and_then-eq-ok (map_err (wrap "failed to presign upload") (presign o w)) _ h in
      let (reqs, rest, h2) = and_then-eq-ok (presign_each b presign method os w) _ h1 in
      let same : record { offset = some o; url = url; method = method } ∷ reqs ≡ is = cc in
      rw (← same) (
        map_err-eq-ok (wrap "failed to presign upload") (presign o w) e,
        presign_each-AreSigned presign method os w rest,
      )

  offsets-computed :
      (os : Option (List Offset)) {ps : List Offset} → offsets_of os ≡ ok ps → os ≡ some ps
  unfolding offsets_of
  offsets-computed none h = cc
  offsets-computed (some os) h = cc

module _ (b : Backend) (bucket s3key : Text) where
  -- The URL of a small object is for the whole of it.
  pub record IsOneGet (total_size : ℕ) (w : b.World) (is : List CacheUrlInstruction) : Type 0 where
    pub small : total_size < min_part_size
    pub url : Text
    pub one : is ≡ record { offset = none; url = url; method = method_get } ∷ []
    pub signed : get_request b bucket s3key none w ≡ ok url

  -- Those of a large one are for its ranges.
  pub record AreGets (total_size : ℕ) (w : b.World) (is : List CacheUrlInstruction) : Type 0 where
    pub large : min_part_size ≤ total_size
    pub offsets : List Offset
    pub computed : calculate_offsets total_size min_part_size ≡ some offsets
    pub signed : AreSigned b (λ o. get_request b bucket s3key (some (range_header o))) w is offsets

  pub download_instructions_signed :
      (total_size : ℕ) (w : b.World) {r : DownloadInstructionsResp}
      → IsFileSize total_size
      → generate_file_download_instructions b bucket s3key total_size w ≡ ok r
      → IsOneGet total_size w r.download_instructions ⊎ AreGets total_size w r.download_instructions
  unfolding generate_file_download_instructions single_download multipart_download
  download_instructions_signed total_size w {r} size h =
      elim (Bool-cases (ltb total_size min_part_size)) [
        | inl small ↦
            let (url, signed, e) =
              and_then-eq-ok
                (map_err (wrap "failed to presign upload") (get_request b bucket s3key none w)) _
                (rw (is_small total_size size, small) at h) in
            inl (record {
              small = ltb→lt total_size min_part_size small;
              url = url;
              one = cc;
              signed = map_err-eq-ok (wrap "failed to presign upload") _ signed;
            })
        | inr large ↦
            let (os, computed, e) =
              and_then-eq-ok (offsets_of (calculate_offsets total_size min_part_size)) _
                (rw (is_small total_size size, large) at h) in
            let (reqs, signed, e') =
              and_then-eq-ok
                (presign_each b (λ o. get_request b bucket s3key (some (range_header o))) method_get
                  os w)
                _ e in
            let same : record { download_instructions = reqs; multipart = true } ≡ r = cc in
            inr (record {
              large = ltb_false→le total_size min_part_size large;
              offsets = os;
              computed = offsets-computed b (calculate_offsets total_size min_part_size) computed;
              signed = rw (← same) (presign_each-AreSigned b _ method_get os w signed);
            })
      ]

  pub record IsOnePut (sha256sum compression : Text) (total_size : ℕ) (w : b.World)
      (r : UploadInstructionsResp) : Type 0 where
    pub small : total_size < min_part_size
    pub url : Text
    pub one : r.upload_instructions ≡ record { offset = none; url = url; method = method_put } ∷ []
    pub no_upload : r.multipart_upload_id ≡ none
    pub signed : put_request b bucket s3key sha256sum compression w ≡ ok url

  -- The parts of a large file are for the upload that was created.
  pub record ArePuts (sha256sum compression : Text) (total_size : ℕ) (v w : b.World)
      (r : UploadInstructionsResp) : Type 0 where
    pub large : min_part_size ≤ total_size
    pub offsets : List Offset
    pub computed : calculate_offsets total_size min_part_size ≡ some offsets
    pub creates :
        b.create_multipart_upload
          (record {
            bucket = bucket;
            key = s3key;
            content_type = compression_to_content_type compression;
          })
          v
        ≡ (ok r.multipart_upload_id, w)
    pub signed :
        AreSigned b
          (part_request b bucket s3key sha256sum r.multipart_upload_id)
          w
          r.upload_instructions
          offsets

  pub upload_instructions_signed :
      (sha256sum compression : Text) (total_size : ℕ) (w : b.World) {r : UploadInstructionsResp}
      {w' : b.World}
      → IsFileSize total_size
      → generate_file_upload_instructions b bucket s3key sha256sum compression total_size w
        ≡ (ok r, w')
      → IsOnePut sha256sum compression total_size w' r
        ⊎ ArePuts sha256sum compression total_size w w' r
  unfolding generate_file_upload_instructions single_upload multipart_upload
  upload_instructions_signed sha256sum compression total_size w {r} {w'} size h =
      elim (Bool-cases (ltb total_size min_part_size)) [
        | inl small ↦ run_lookup _ _ _ (rw (is_small total_size size, small) at h) λ url e h1.
            let (same, still) = run_pure _ h1 in
            inl (record {
              small = ltb→lt total_size min_part_size small;
              url = url;
              one = ap (λ r. r.upload_instructions) (sym same);
              no_upload = ap (λ r. r.multipart_upload_id) (sym same);
              signed = rw (← still) e;
            })
        | inr large ↦ run_call _ _ _ (rw (is_small total_size size, large) at h) λ id v created h1.
            run_reads _ _ h1 λ os computed h2. run_reads _ _ h2 λ reqs signed h3.
              let (same, still) = run_pure _ h3 in
              inr (record {
                large = ltb_false→le total_size min_part_size large;
                offsets = os;
                computed = offsets-computed b (calculate_offsets total_size min_part_size) computed;
                creates = rw (← same, ← still) created;
                signed = rw (← same, ← still) (presign_each-AreSigned b _ method_put os v signed);
              })
      ]
