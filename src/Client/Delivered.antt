-- ===== src/Client/Delivered.antt =====
-- What the client joins from the instructions of the server: presigner.go, the wire, restore.go and
-- downloader.go together, over an S3 that answers ranges.
use mathlib.Core.List.{Permᴰ}
use mathlib.Core.List.Permᴰ
use mathlib.Core.List.Permᴰ.{nil, cons, swap, trans}
use zipstash.Base.{
  ℕ, ◌≡◌, ◌≤◌, Bool, Option, some, refl, sym, ap, ◌∙◌, List, [], ◌∷◌, append-nil, map, none, Text,
  length, arith, Result, ok, sort_by, insert_by, inl, inr, All,
}
use zipstash.Offsets.{calculate_offsets, min_part_size}
use zipstash.Offsets.Sizes.{length-calculate_offsets}
use zipstash.Backend.{Backend}
use zipstash.Presigner.{
  CacheUrlInstruction, DownloadInstructionsResp, generate_file_download_instructions, method_get,
  get_request,
}
use zipstash.Presigner.Signed.{AreGets, download_instructions_signed}
use zipstash.Presigner.Plan.{IsFileSize, IsMultipartPlan, download_instructions-IsPlan, in_range}
use zipstash.CacheService.Convert.{from_instruct_to_download_v1}
use zipstash.Transfer.Download.{CacheDownloadInstruction, DownloadedFile, HttpReader, download}
use zipstash.Transfer.Pool.{Pool, start_pool, Steps, Returns}
use zipstash.Transfer.Pool.Results.{pool_ordered}
use zipstash.Client.S3.{AnswersPlainly, Serves, AreNonEmpty}
use zipstash.Client.Served.{received, covered-AreDownloads, downloaded_all}
use zipstash.Transfer.Download.{Downloads, done, error}
use zipstash.Client.Restore.{
  convert_to_download_instructions, sort_downloads, combine_parts, restore_whole,
}

received_single :
    (url : Text)
    → received (record { offset = none; url = url; method = method_get } ∷ [])
      ≡ record { method = method_get; offset = none; url = url } ∷ []
unfolding convert_to_download_instructions from_instruct_to_download_v1
received_single url = refl

Perm_nil : {A : Type 0} (xs ys : List A) → Permᴰ xs ys → xs ≡ [] → ys ≡ []
Perm_nil _ _ nil h = refl
Perm_nil _ _ (cons e p) h = cc
Perm_nil _ _ (swap e f) h = cc
Perm_nil _ _ (trans {l₁ = a} {l₂ = b} {l₃ = c} p q) h = Perm_nil b c q (Perm_nil a b p h)

Perm_one : {A : Type 0} (a : A) (xs ys : List A) → Permᴰ xs ys → xs ≡ a ∷ [] → ys ≡ a ∷ []
Perm_one a _ _ nil h = cc
Perm_one a _ _ (cons {l₁ = xs} {l₂ = ys} e p) h = let rest : ys ≡ [] = Perm_nil xs ys p cc in cc
Perm_one a _ _ (swap e f) h = cc
Perm_one a _ _ (trans {l₁ = xs} {l₂ = ys} {l₃ = zs} p q) h =
    Perm_one a ys zs q (Perm_one a xs ys p h)

-- One part alone is joined to its content.
alone :
    {file : Text} (d : DownloadedFile) (ds : List DownloadedFile)
    → Permᴰ (d ∷ []) ds
    → d.content ≡ file
    → combine_parts (sort_downloads ds) ≡ file
unfolding combine_parts sort_downloads sort_by insert_by
alone d ds p e =
    let same : ds ≡ d ∷ [] = Perm_one d (d ∷ []) ds p refl in rw same (append-nil d.content ∙ e)

module _ (client : HttpReader) where
  returned :
      (limit : ℕ) (is : List CacheDownloadInstruction) {p : Result (List DownloadedFile)}
      {ds : List DownloadedFile}
      → Downloads client limit is p
      → p ≡ ok ds
      → (t : Pool CacheDownloadInstruction DownloadedFile) × (es : List
          (CacheDownloadInstruction × DownloadedFile))
        × Steps limit (download client) (start_pool is) t
        × Returns limit (download client) t (ok es)
        × (map (λ e. e.1) es ≡ ds)
  returned limit is (done t es steps ret) h = (t, es, steps, ret, cc)
  returned limit is (error t x steps ret) h = cc

module _ (b : Backend) (client : HttpReader) (u : b.World) (object : Text → Text → Option Text)
    (S : Serves b client u object) (plain : AnswersPlainly client) (bucket s3key file : Text)
    (stored : object bucket s3key ≡ some file) where
  single_delivered :
      (url : Text) (es : List (CacheDownloadInstruction × DownloadedFile))
      → get_request b bucket s3key none u ≡ ok url
      → map (λ e. e.0) es ≡ record { method = method_get; offset = none; url = url } ∷ []
      → All (λ e. download client e.0 ≡ ok e.1) es
      → (ds : List DownloadedFile) → Permᴰ (map (λ e. e.1) es) ds
      → combine_parts (sort_downloads ds) ≡ file
  single_delivered url [] signed same r ds p = absurd cc
  single_delivered url (x ∷ y ∷ es) signed same r ds p = absurd cc
  single_delivered url (x ∷ []) signed same (r, _) ds p =
      let first : x.0 ≡ record { method = method_get; offset = none; url = url } = cc in
      alone x.1 ds p (
        downloaded_all b client u object S plain bucket s3key file stored url signed
          (ap (download client) (sym first) ∙ r))

  ranges_delivered :
      (is : List CacheUrlInstruction) (multipart : Bool)
      (es : List (CacheDownloadInstruction × DownloadedFile))
      → IsFileSize (length file)
      → AreNonEmpty (calculate_offsets (length file) min_part_size)
      → IsMultipartPlan method_get (length file) multipart is
      → AreGets b bucket s3key (length file) u is
      → map (λ e. e.0) es ≡ received is
      → All (λ e. download client e.0 ≡ ok e.1) es
      → (ds : List DownloadedFile) → Permᴰ (map (λ e. e.1) es) ds
      → combine_parts (sort_downloads ds) ≡ file
  ranges_delivered is multipart es size filled plan gets same results ds q =
      let few =
        length-calculate_offsets (length file) min_part_size
          (in_range (length file) size plan.large) plan.computed in
      let offsets : gets.offsets ≡ plan.offsets =
        let e = gets.computed in let f = plan.computed in cc in
      restore_whole file plan.offsets (map (λ e. e.1) es) ds size plan.large plan.computed
        (covered-AreDownloads b client u object S plain bucket s3key file stored 1 0 is plan.offsets
          es (S.ranges bucket s3key file stored plan.offsets plan.computed)
          (rw (← offsets) gets.signed) plan.covers plan.numbered plan.tiles
          (rw plan.computed at filled) (omega (arith, few)) same results)
        ∣ q ∣₁

  delivered :
      (es : List (CacheDownloadInstruction × DownloadedFile)) {r : DownloadInstructionsResp}
      → IsFileSize (length file)
      → (min_part_size ≤ length file → AreNonEmpty (calculate_offsets (length file) min_part_size))
      → generate_file_download_instructions b bucket s3key (length file) u ≡ ok r
      → map (λ e. e.0) es ≡ received r.download_instructions
      → All (λ e. download client e.0 ≡ ok e.1) es
      → (ds : List DownloadedFile) → Permᴰ (map (λ e. e.1) es) ds
      → combine_parts (sort_downloads ds) ≡ file
  delivered es {r} size filled h same results ds q =
      elim (download_instructions_signed b bucket s3key (length file) u size h) [
        | inl one ↦
            single_delivered one.url es one.signed
              (same ∙ ap received one.one ∙ received_single one.url) results ds q
        | inr gets ↦ elim (download_instructions-IsPlan b bucket s3key (length file) u size h) [
          | inl plan ↦ absurd (let small = plan.small in let large = gets.large in omega arith)
          | inr plan ↦
              ranges_delivered r.download_instructions r.multipart es size (filled gets.large) plan
                gets same results ds q
        ]
      ]

  -- However the downloads interleave, if all of the instructions of the server for an object of up
  -- to 16 PiB are downloaded without an error, then the parts, sorted and joined, are the object that
  -- S3 holds under the bucket and key. The instructions are for its size, none of its ranges is empty,
  -- each URL reaches S3 as it was signed, and S3 answers with no other status than 400, 404 and 500,
  -- and 200, or 206 for a range.
  pub delivered_whole :
      {r : DownloadInstructionsResp} (limit : ℕ) {ds : List DownloadedFile}
      → IsFileSize (length file)
      → (min_part_size ≤ length file → AreNonEmpty (calculate_offsets (length file) min_part_size))
      → generate_file_download_instructions b bucket s3key (length file) u ≡ ok r
      → Downloads client limit (received r.download_instructions) (ok ds)
      → combine_parts (sort_downloads ds) ≡ file
  delivered_whole {r} limit {ds} size filled h d =
      let (t, out, steps, ret, same) =
        returned client limit (received r.download_instructions) d refl in
      let (es, asked, p, results) =
        pool_ordered limit (download client) (received r.download_instructions) t out steps ret in
      ap (λ l. combine_parts (sort_downloads l)) (sym same)
      ∙ delivered es size filled h asked results (map (λ e. e.1) out)
          (Permᴰ.map (λ d. d.1) (Permᴰ.symm p))
