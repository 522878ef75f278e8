-- ===== src/Client/Sent.antt =====
-- What S3 holds after an upload: presigner.go, the wire, uploader.go, save.go and the completion in
-- rpc_cache.go together.
use mathlib.Core.List.{Permᴰ}
use mathlib.Core.List.Permᴰ
use zipstash.Base.{
  ℕ, ◌≡◌, ◌≤◌, refl, sym, ap, ◌∙◌, List, [], ◌∷◌, map, Option, none, some, Text, length, ok, arith,
  All, inl, inr, on_error-eq-ok, run_pure,
}
use zipstash.Offsets.{min_part_size}
use zipstash.Offsets.Sizes.{length-calculate_offsets}
use zipstash.Backend.{Backend, CompletedPart}
use zipstash.Api
use zipstash.Presigner.{UploadInstructionsResp, generate_file_upload_instructions, method_put}
use zipstash.Presigner.Plan.{IsFileSize, IsMultipartPlan, in_range, upload_instructions-IsPlan}
use zipstash.Presigner.Signed.{IsOnePut, ArePuts, upload_instructions_signed}
use zipstash.CacheService.Convert.{from_upload_instructions, from_cache_part_etag_v1}
use zipstash.CacheService.Handlers.{complete_upload}
use zipstash.Transfer.Upload.{
  CacheUploadInstruction, CachePartETag, HttpClient, upload, Uploads, chunk_size,
}
use zipstash.Transfer.Whole.{slices-AreChunks, concat-slices_all}
use zipstash.Client.S3.{ObjectStore, Takes, AreParts}
use zipstash.Client.Joined.{sent_any_order}
use zipstash.Client.Uploaded.{sent, returned, read_whole, uploaded, kept, covered-AreSent}
use zipstash.Client.Convert.{to_upload_instructions, to_etags_v1}

sent_single :
    (url : Text)
    → sent (record { offset = none; url = url; method = method_put } ∷ [])
      ≡ record { method = method_put; offset = none; url = url } ∷ []
unfolding to_upload_instructions from_upload_instructions
sent_single url = refl

module _ (b : Backend) (client : HttpClient) (store : ObjectStore b) (file : Text) (u v : b.World)
    (T : Takes b client store file v) (bucket s3key sha256sum compression : Text) where
  whole_sent :
      (r : UploadInstructionsResp) (es : List (CacheUploadInstruction × CachePartETag))
      → IsOnePut b bucket s3key sha256sum compression (length file) u r
      → map (λ e. e.0) es ≡ sent r.upload_instructions
      → All (λ e. upload client (some file) e.0 ≡ ok e.1) es
      → store.object v bucket s3key ≡ some file
  unfolding chunk_size
  whole_sent r es put same results = one es (same ∙ ap sent put.one ∙ sent_single put.url) results
    where
      one :
          (es : List (CacheUploadInstruction × CachePartETag))
          → map (λ e. e.0) es ≡ record { method = method_put; offset = none; url = put.url } ∷ []
          → All (λ e. upload client (some file) e.0 ≡ ok e.1) es
          → store.object v bucket s3key ≡ some file
      one [] same r = absurd cc
      one (x ∷ es) same (r, _) =
          let i : CacheUploadInstruction = record {
            method = method_put;
            offset = none;
            url = put.url;
          } in
          let first : x.0 ≡ i = cc in
          let (_, n, answer) =
            uploaded b client store file u v T i file refl (read_whole i file refl)
              (ap (upload client (some file)) (sym first) ∙ r) in
          T.whole _ u put.url x.1.etag n put.signed answer

  parts_sent :
      (r : UploadInstructionsResp) (us : List CachePartETag)
      (ds es : List (CacheUploadInstruction × CachePartETag)) (w : b.World)
      → IsFileSize (length file)
      → IsMultipartPlan method_put (length file) r.multipart r.upload_instructions
      → ArePuts b bucket s3key sha256sum compression (length file) w u r
      → map (λ e. e.0) es ≡ sent r.upload_instructions
      → Permᴰ ds es
      → All (λ e. upload client (some file) e.0 ≡ ok e.1) es
      → map (λ e. e.1) ds ≡ us
      → AreParts
          (store.part v bucket s3key r.multipart_upload_id)
          0
          (from_cache_part_etag_v1 (to_etags_v1 us))
          file
  parts_sent r us ds es w size plan puts same p results out =
      let few =
        length-calculate_offsets (length file) min_part_size
          (in_range (length file) size plan.large) plan.computed in
      let chunks =
        slices-AreChunks file 0 (length file) plan.offsets plan.tiles (omega arith) (omega arith) in
      let offsets : puts.offsets ≡ plan.offsets =
        let e = puts.computed in let f = plan.computed in cc in
      let part = kept b client store file u v T bucket s3key sha256sum r.multipart_upload_id in
      let parts =
        covered-AreSent b client store file u v T bucket s3key sha256sum r.multipart_upload_id
          r.upload_instructions plan.offsets es (rw (← offsets) puts.signed) plan.covers chunks same
          results in
      let joined =
        sent_any_order part file plan.offsets (map (λ e. e.1) es) (map (λ e. e.1) ds) plan.numbered
          parts (omega (arith, few)) (Permᴰ.map (λ e. e.1) p) in
      rw (← out, ← concat-slices_all file plan.offsets plan.tiles) joined

  some_parts :
      (part : ℕ → Text → Option Text) (ps : List CompletedPart)
      → min_part_size ≤ length file
      → AreParts part 0 ps file
      → (q : CompletedPart) × (qs : List CompletedPart) × (ps ≡ q ∷ qs)
  some_parts part [] large h = absurd (let empty : length file ≡ 0 = ap length h in omega arith)
  some_parts part (q ∷ qs) large h = (q, qs, refl)

  completed :
      (id : Option Text) (upload_id : Text) (etags : List Api.CachePartETag) {v' : b.World}
      → min_part_size ≤ length file
      → id ≡ some upload_id
      → complete_upload b bucket s3key id etags v ≡ (ok tt, v')
      → AreParts (store.part v bucket s3key id) 0 (from_cache_part_etag_v1 etags) file
      → store.object v' bucket s3key ≡ some file
  unfolding complete_upload
  completed none upload_id etags large e h parts = cc
  completed (some id) upload_id etags large e h parts =
      let (q, qs, same) =
        some_parts (store.part v bucket s3key (some id)) (from_cache_part_etag_v1 etags) large
          parts in
      store.completes _ v file (on_error-eq-ok _ (b.complete_multipart_upload _) h) q qs same parts

  not_multipart :
      (id : Option Text) (etags : List Api.CachePartETag) {v' : b.World}
      → id ≡ none
      → complete_upload b bucket s3key id etags v ≡ (ok tt, v')
      → v ≡ v'
  unfolding complete_upload
  not_multipart none etags e h = (run_pure _ h).1
  not_multipart (some id) etags e h = cc

  -- However the uploads interleave, if all of the instructions of the server for a file of up to 16
  -- PiB are uploaded without an error, to an S3 that keeps what it answers with 200 as what the URL
  -- was signed for, and UpdateEntry's completion by the ETags that the client sends succeeds, then S3
  -- holds the file under the bucket and key.
  pub sent_whole :
      (w v' : b.World) {r : UploadInstructionsResp} (limit : ℕ) {us : List CachePartETag}
      → IsFileSize (length file)
      → generate_file_upload_instructions b bucket s3key sha256sum compression (length file) w
        ≡ (ok r, u)
      → Uploads client limit (some file) (sent r.upload_instructions) (ok us)
      → complete_upload b bucket s3key r.multipart_upload_id (to_etags_v1 us) v ≡ (ok tt, v')
      → store.object v' bucket s3key ≡ some file
  sent_whole w v' {r} limit {us} size h uploads complete =
      let (ds, es, same, p, results, out) =
        returned client file limit (sent r.upload_instructions) uploads refl in
      elim (upload_instructions_signed b bucket s3key sha256sum compression (length file) w size
        h) [
          | inl put ↦
              let still =
                not_multipart r.multipart_upload_id (to_etags_v1 us) put.no_upload complete in
              rw (← still) (whole_sent r es put same results)
          | inr puts ↦
              elim (upload_instructions-IsPlan b bucket s3key sha256sum compression (length file) w
                size h) [
                  | inl plan ↦
                      absurd (let small = plan.small in let large = puts.large in omega arith)
                  | inr plan ↦
                      let (id, named) = store.names_upload _ w puts.creates in
                      completed r.multipart_upload_id id (to_etags_v1 us) puts.large named complete
                        (parts_sent r us ds es w size plan puts same p results out)
                ]
        ]
