-- ===== src/Client/Served.antt =====
-- The requests of downloader.go for the instructions of the server, from an S3 that answers them.
use zipstash.Base.{
  ℕ, ◌+◌, ◌≡◌, ◌<◌, ◌≤◌, refl, sym, ap, ◌∙◌, false, List, [], ◌∷◌, map, Option, none, some, Text,
  length, arith, ok, err, slt32, Bool-cases, inl, inr, All,
}
use zipstash.Offsets
use zipstash.Offsets.Tiling.{IsNumbered, Tiles}
use zipstash.Backend.{Backend}
use zipstash.Presigner.{CacheUrlInstruction, method_get, get_request, range_header}
use zipstash.Presigner.Signed.{AreSigned}
use zipstash.Client.S3.{is_refused, AnswersPlainly, IsServed, Serves}
use zipstash.Presigner.Plan.{Covers}
use zipstash.CacheService.Convert.{from_instruct_to_download_v1}
use zipstash.Transfer.Upload.{Offset}
use zipstash.Transfer.Download.{
  CacheDownloadInstruction, DownloadedFile, Answer, answered, failed, HttpReader, range_of,
  int_of_int32, downloaded_part, downloaded_of, download,
}
use zipstash.Transfer.Whole.{slice, Tiles-le}
use zipstash.Client.Restore.{convert_to_download_instructions, AreDownloads}

abbrev pub to_transfer : Offsets.Offset → Offset
to_transfer o = record { end = o.end; part = o.part; start = o.start }

-- What the client makes of the instructions of the server.
abbrev pub received : List CacheUrlInstruction → List CacheDownloadInstruction
received is = convert_to_download_instructions (from_instruct_to_download_v1 is)

downloaded :
    (i : CacheDownloadInstruction) (a : Answer) {d : DownloadedFile}
    → downloaded_of i a ≡ ok d
    → (status size : ℕ) × (etag : Text) × (a ≡ answered status etag size d.content)
      × (is_refused status ≡ false)
      × (d.part ≡ downloaded_part i.offset)
unfolding downloaded_of
downloaded i (failed e) h = cc
downloaded i (answered status etag size body) {d} h = elim (Bool-cases (is_refused status)) [
  | inl bad ↦ absurd (let e : err _ ≡ ok d = rw bad at h in cc)
  | inr good ↦
      let e : ok _ ≡ ok d = rw good at h in
      let content : body ≡ d.content = cc in
      (status, size, etag, ap (answered status etag size) content, good, cc)
]

abbrev range_request : Offsets.Offset → Text → CacheDownloadInstruction
range_request o url = record { method = method_get; offset = some (to_transfer o); url = url }

received_one :
    (i : CacheUrlInstruction) (o : Offsets.Offset) (is : List CacheUrlInstruction)
    → i.offset ≡ some o
    → i.method ≡ method_get
    → received (i ∷ is) ≡ range_request o i.url ∷ received is
unfolding convert_to_download_instructions from_instruct_to_download_v1
received_one i o is e m = rw (e, m) refl

received_none :
    {e : CacheDownloadInstruction} {es : List CacheDownloadInstruction} → e ∷ es ≡ received [] → ⊥
unfolding convert_to_download_instructions from_instruct_to_download_v1
received_none h = cc

module _ (b : Backend) (client : HttpReader) (u : b.World) (object : Text → Text → Option Text)
    (S : Serves b client u object) (plain : AnswersPlainly client) (bucket s3key file : Text)
    (stored : object bucket s3key ≡ some file) where
  tried :
      (i : CacheDownloadInstruction) {d : DownloadedFile}
      → download client i ≡ ok d
      → (n status size : ℕ) × (etag : Text) × (client.do_get i.method i.url (range_of i.offset) n
          ≡ answered status etag size d.content)
        × (is_refused status ≡ false)
        × (d.part ≡ downloaded_part i.offset)
  unfolding download
  tried i {d} h =
      let (n, e) = S.retries _ d h in
      let (status, size, etag, answer, good, part) =
        downloaded i (client.do_get i.method i.url (range_of i.offset) n) e in
      (n, status, size, etag, answer, good, part)

  -- The download of one range from the URL that was signed for it.
  downloaded_range :
      (o : Offsets.Offset) (url : Text) {d : DownloadedFile}
      → IsServed b client u bucket s3key file o
      → get_request b bucket s3key (some (range_header o)) u ≡ ok url
      → o.start ≤ o.end
      → o.end < length file
      → o.part < 2147483648
      → download client (range_request o url) ≡ ok d
      → (d.part ≡ o.part) × (d.content ≡ slice file o)
  unfolding downloaded_part int_of_int32 slt32 range_of range_header
  downloaded_range o url {d} served signed some_bytes inside small h =
      let (n, status, size, etag, answer, good, part) = tried _ h in
      let partial : status ≡ 206 = plain.ranges url _ etag d.content n status size answer good in
      (
        part ∙ ground arith,
        served url etag d.content n size signed some_bytes inside
            (answer ∙ ap (λ s. answered s etag size d.content) partial),
      )

  pub covered-AreDownloads :
      (n from : ℕ) (is : List CacheUrlInstruction) (os : List Offsets.Offset)
      (es : List (CacheDownloadInstruction × DownloadedFile))
      → All (IsServed b client u bucket s3key file) os
      → AreSigned b (λ o. get_request b bucket s3key (some (range_header o))) u is os
      → Covers method_get is os
      → IsNumbered n os
      → Tiles from (length file) os
      → All (λ o. o.start ≤ o.end) os
      → n + length os ≤ 2147483648
      → map (λ e. e.0) es ≡ received is
      → All (λ e. download client e.0 ≡ ok e.1) es
      → AreDownloads file os (map (λ e. e.1) es)
  covered-AreDownloads n from [] [] [] serves g c k t z few same r = tt
  covered-AreDownloads n from [] [] (e ∷ es) serves g c k t z few same r =
      absurd (received_none same)
  covered-AreDownloads n from (i ∷ is) (o ∷ os) [] serves g (e, m, c) k t z few same r =
      let f = received_one i o is e m in absurd cc
  covered-AreDownloads n from (i ∷ is) (o ∷ os) (x ∷ es) (serve, serves) (g, gs) (e, m, c) (p, k)
        (_, _, t) (z, zs) few same (r, rs) =
      let f = same ∙ received_one i o is e m in
      let first : x.0 ≡ range_request o i.url = cc in
      let inside = Tiles-le (o.end + 1) (length file) os t in
      let (part, content) =
        downloaded_range o i.url serve g z (omega (arith, inside)) (omega (arith, p))
          (ap (download client) (sym first) ∙ r) in
      (
        part,
        content,
        covered-AreDownloads (n + 1) (o.end + 1) is os es serves gs c k t zs (omega (arith, few))
            (cc) rs,
      )
  covered-AreDownloads n from [] (_ ∷ _) es serves g c k t z few same r = absurd c
  covered-AreDownloads n from (_ ∷ _) [] es serves g c k t z few same r = absurd c

  -- The download of the whole object from the URL that was signed for it.
  pub downloaded_all :
      (url : Text) {d : DownloadedFile}
      → get_request b bucket s3key none u ≡ ok url
      → download client (record { method = method_get; offset = none; url = url }) ≡ ok d
      → d.content ≡ file
  unfolding range_of
  downloaded_all url {d} signed h =
      let (n, status, size, etag, answer, good, _) = tried _ h in
      let is_ok : status ≡ 200 = plain.whole url etag d.content n status size answer good in
      let body : object bucket s3key ≡ some d.content =
        S.whole bucket s3key url etag d.content n size signed
          (answer ∙ ap (λ s. answered s etag size d.content) is_ok) in
      cc
