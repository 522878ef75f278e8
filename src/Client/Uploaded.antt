-- ===== src/Client/Uploaded.antt =====
-- The requests of uploader.go for the instructions of the server, to an S3 that keeps what it takes.
use mathlib.Core.List.{Permᴰ}
use zipstash.Base.{
  ℕ, ◌≡◌, refl, sym, ap, ◌∙◌, List, [], ◌∷◌, map, Option, none, some, Text, length, Result, ok, All,
  message, wrap, map_err, map_err-eq-ok, and_then-eq-ok, ◌||◌, ◌==◌, ==_iff, Bool-cases, inl, inr,
}
use zipstash.Offsets
use zipstash.Offsets.{calculate_offsets, min_part_size}
use zipstash.Backend.{Backend}
use zipstash.Presigner.{CacheUrlInstruction, method_put, part_request}
use zipstash.Presigner.Plan.{Covers}
use zipstash.CacheService.Convert.{from_upload_instructions}
use zipstash.Transfer.Upload.{
  CacheUploadInstruction, CachePartETag, HttpClient, Reply, replied, failed, succeeded, permanent,
  transient, attempt_of, read_chunk, chunk_size, part_of, upload_chunk, upload, Uploads, done,
  error,
}
use zipstash.Transfer.Whole.{slice, slices, AreChunks, part_instruction}
use zipstash.Transfer.Pool.Results.{pool_ordered}
use zipstash.Client.S3.{ObjectStore, Takes}
use zipstash.Client.Joined.{AreSent}
use zipstash.Presigner.Signed.{AreSigned}
use zipstash.Client.Convert.{to_upload_instructions}

-- What the client makes of the instructions of the server.
abbrev pub sent : List CacheUrlInstruction → List CacheUploadInstruction
sent is = to_upload_instructions (from_upload_instructions is)

sent_one :
    (i : CacheUrlInstruction) (o : Offsets.Offset) (is : List CacheUrlInstruction)
    → i.offset ≡ some o
    → i.method ≡ method_put
    → sent (i ∷ is) ≡ part_instruction method_put i.url o ∷ sent is
unfolding to_upload_instructions from_upload_instructions
sent_one i o is e m = rw (e, m) refl

sent_none : {e : CacheUploadInstruction} {es : List CacheUploadInstruction} → e ∷ es ≡ sent [] → ⊥
unfolding to_upload_instructions from_upload_instructions
sent_none h = cc

succeeds :
    (r : Reply) {etag : Text}
    → attempt_of r ≡ succeeded etag
    → r ≡ replied (record { status_code = 200; etag = etag })
unfolding attempt_of
succeeds (replied resp) {etag} h =
    elim (Bool-cases
      (resp.status_code == 400 || resp.status_code == 403 || resp.status_code == 411)) [
        | inl bad ↦ absurd (
            let e : permanent (message "failed to upload file") ≡ succeeded etag = rw bad at h in
            cc)
        | inr good ↦ elim (Bool-cases (resp.status_code == 200)) [
          | inl is_ok ↦
              let e : succeeded resp.etag ≡ succeeded etag = rw (good, is_ok) at h in
              let same : resp.etag ≡ etag = cc in
              let status : resp.status_code ≡ 200 = (==_iff resp.status_code 200).0 is_ok in
              λ i. replied (record { status_code = status i; etag = same i })
          | inr other ↦ absurd (
              let e : transient (message "failed to upload file") ≡ succeeded etag =
                rw (good, other) at h in
              cc)
        ]
      ]
succeeds (failed e) h = cc

module _ (client : HttpClient) (file : Text) where
  pub returned :
      (limit : ℕ) (is : List CacheUploadInstruction) {p : Result (List CachePartETag)}
      {us : List CachePartETag}
      → Uploads client limit (some file) is p
      → p ≡ ok us
      → (ds : List (CacheUploadInstruction × CachePartETag)) × (es : List
          (CacheUploadInstruction × CachePartETag))
        × (map (λ e. e.0) es ≡ is)
        × Permᴰ ds es
        × All (λ e. upload client (some file) e.0 ≡ ok e.1) es
        × (map (λ e. e.1) ds ≡ us)
  returned limit is (done t ds steps ret) h =
      let (es, same, p, results) =
        pool_ordered limit (upload client (some file)) is t ds steps ret in
      (ds, es, same, p, results, cc)
  returned limit is (error t x steps ret) h = cc

-- The upload of the file in one piece: the chunk is the file.
pub read_whole :
    (i : CacheUploadInstruction) (file : Text)
    → i.offset ≡ none
    → read_chunk (some file) 0 i ≡ ok file
unfolding read_chunk
read_whole i file e = rw e refl

module _ (b : Backend) (client : HttpClient) (store : ObjectStore b) (file : Text) (u v : b.World)
    (T : Takes b client store file v) where
  uploaded_chunk :
      (i : CacheUploadInstruction) (chunk : Text) {etag : Text}
      → i.method ≡ method_put
      → upload_chunk client i chunk ≡ ok etag
      → (n : ℕ) × (client.do_request method_put i.url chunk n
          ≡ replied (record { status_code = 200; etag = etag }))
  unfolding upload_chunk
  uploaded_chunk i chunk {etag} put h =
      let (n, e) = T.retries _ etag h in
      (
        n,
        ap (λ m. client.do_request m i.url chunk n) (sym put)
            ∙ succeeds (client.do_request i.method i.url chunk n) e,
      )

  -- One instruction: what is read is what is sent.
  pub uploaded :
      (i : CacheUploadInstruction) (chunk : Text) {etag : CachePartETag}
      → i.method ≡ method_put
      → read_chunk (some file) (chunk_size i.offset) i ≡ ok chunk
      → upload client (some file) i ≡ ok etag
      → (etag.part ≡ part_of i.offset)
        × (n : ℕ) × (client.do_request method_put i.url chunk n
            ≡ replied (record { status_code = 200; etag = etag.etag }))
  unfolding upload
  uploaded i chunk {etag} put read h =
      let (tag, sends, e) =
        and_then-eq-ok (map_err (wrap "failed to upload chunk") (upload_chunk client i chunk))
          (λ tag. ok (record { etag = tag; part = part_of i.offset; part_size = length chunk }))
          (rw read at h) in
      let same : record { etag = tag; part = part_of i.offset; part_size = length chunk } ≡ etag =
        cc in
      let sends' =
        map_err-eq-ok (wrap "failed to upload chunk") (upload_chunk client i chunk) sends in
      let (n, answer) = uploaded_chunk i chunk put sends' in
      (
        ap (λ t. t.part) (sym same),
        n,
        answer ∙ ap (λ t. replied (record { status_code = 200; etag = t.etag })) same,
      )

  module _ (bucket s3key sha256sum : Text) (upload_id : Option Text) where
    abbrev pub kept : ℕ → Text → Option Text
    kept = store.part v bucket s3key upload_id

    pub covered-AreSent :
        (is : List CacheUrlInstruction) (os : List Offsets.Offset)
        (es : List (CacheUploadInstruction × CachePartETag))
        → AreSigned b (part_request b bucket s3key sha256sum upload_id) u is os
        → Covers method_put is os
        → AreChunks file os (slices file os)
        → map (λ e. e.0) es ≡ sent is
        → All (λ e. upload client (some file) e.0 ≡ ok e.1) es
        → AreSent kept file os (map (λ e. e.1) es)
    unfolding part_of read_chunk
    covered-AreSent [] [] [] g c k same r = tt
    covered-AreSent [] [] (e ∷ es) g c k same r = absurd (sent_none same)
    covered-AreSent (i ∷ is) (o ∷ os) [] g (e, m, c) k same r =
        let f = sent_one i o is e m in absurd cc
    covered-AreSent (i ∷ is) (o ∷ os) (x ∷ es) (g, gs) (e, m, c) (read, k) same (r, rs) =
        let f = same ∙ sent_one i o is e m in
        let first : x.0 ≡ part_instruction method_put i.url o = cc in
        let rest : map (λ e. e.0) es ≡ sent is = cc in
        let (part, n, answer) =
          uploaded (part_instruction method_put i.url o) (slice file o) refl read
            (ap (upload client (some file)) (sym first) ∙ r) in
        (
          part,
          T.parts _ u i.url (slice file o) x.1.etag n g answer,
          covered-AreSent is os es gs c k rest rs,
        )
    covered-AreSent [] (_ ∷ _) es g c k same r = absurd c
    covered-AreSent (_ ∷ _) [] es g c k same r = absurd c
