-- ===== src/CacheService/Indexed.antt =====
-- The index values that the handlers write beside a record, as an invariant of the table.
use zipstash.Base.{
  ℕ, ◌≡◌, refl, sym, ap, ◌∙◌, Bool, true, false, ◌&&◌, List, Option, none, some, Text,
  if◌then◌else◌, ok, text_eq, inl, inr, Bool-cases, slt64, run_call, run_reads, run_lookup,
  run_pure, on_error-eq-ok,
}
use zipstash.Keys.{created_value}
use zipstash.Api
use zipstash.Index.{CacheRecord}
use zipstash.Backend.{Backend}
use zipstash.Backend.Laws.{Row, Rows, IsLawful}
use zipstash.Store.{put_cache, cache_partition, cache_options}
use zipstash.Offsets.{min_part_size}
use zipstash.Presigner.{
  UploadInstructionsResp, single_upload, multipart_upload, generate_file_upload_instructions,
}
use zipstash.CiAuth.{OidcIdentity}
use zipstash.CacheService.Handlers.{new_record, create_entry, update_entry, complete_upload}
use zipstash.CacheService.Lifecycle.{create_entry-Created, update_entry-Updated, put_cache_rows}

-- The `created` value of a record at a time.
abbrev pub created_at : CacheRecord → Text → Text
created_at v now =
    created_value v.owner v.provider v.operating_system v.architecture v.name v.branch now

-- A row has the index values of its record.
abbrev pub IsIndexedRow : Row CacheRecord → Type 0
IsIndexedRow row =
    (now : Text) × (row.extra_fields
      ≡ (cache_options (created_at row.value now) row.value 0).extra_fields)

abbrev pub IsIndexed : Rows CacheRecord → Type 0
IsIndexed rows = (q k : Text) (row : Row CacheRecord) → rows q k ≡ some row → IsIndexedRow row

one_more :
    (c : Bool) (new : Row CacheRecord) (old : Option (Row CacheRecord)) (row : Row CacheRecord)
    → IsIndexedRow new
    → (old ≡ some row → IsIndexedRow row)
    → (if c then some new else old) ≡ some row
    → IsIndexedRow row
one_more true new old row h1 h2 e = let same : new ≡ row = cc in rw (← same) h1
one_more false new old row h1 h2 e = h2 e

module _ (b : Backend) (bucket : Text) (l : IsLawful b) where
  open l use {cache_rows}

  multipart_keeps :
      (key sha256sum compression : Text) (size : ℕ) (w : b.World) {r : UploadInstructionsResp}
      {w' : b.World}
      → multipart_upload b bucket key sha256sum compression size w ≡ (ok r, w')
      → cache_rows w' ≡ cache_rows w
  unfolding multipart_upload
  multipart_keeps key sha256sum compression size w h = run_call _ _ _ h λ upload w1 called h1.
      run_reads _ _ h1 λ os _ h2. run_reads _ _ h2 λ reqs _ h3.
        let (_, still) = run_pure _ h3 in
        rw (← still) ((ap cache_rows (ap (λ p. p.1) (sym called))) ∙ l.create_multipart_keeps _ w)

  single_keeps :
      (key sha256sum compression : Text) (w : b.World) {r : UploadInstructionsResp} {w' : b.World}
      → single_upload b bucket key sha256sum compression w ≡ (ok r, w')
      → cache_rows w' ≡ cache_rows w
  unfolding single_upload
  single_keeps key sha256sum compression w h =
      run_lookup _ _ _ h λ url _ h1. let (_, still) = run_pure _ h1 in rw still refl

  -- The presigned requests leave the table as it is.
  pub upload_instructions_keep :
      (key sha256sum compression : Text) (size : ℕ) (w : b.World) {r : UploadInstructionsResp}
      {w' : b.World}
      → generate_file_upload_instructions b bucket key sha256sum compression size w ≡ (ok r, w')
      → cache_rows w' ≡ cache_rows w
  unfolding generate_file_upload_instructions
  upload_instructions_keep key sha256sum compression size w h =
      elim (Bool-cases (slt64 size min_part_size)) [
        | inl small ↦ single_keeps key sha256sum compression w (rw small at h)
        | inr large ↦ multipart_keeps key sha256sum compression size w (rw large at h)
      ]

  pub complete_upload_keeps :
      (key : Text) (upload : Option Text) (etags : List Api.CachePartETag) (w : b.World)
      {w' : b.World}
      → complete_upload b bucket key upload etags w ≡ (ok tt, w')
      → cache_rows w' ≡ cache_rows w
  unfolding complete_upload
  complete_upload_keeps key none etags w h = let (_, still) = run_pure _ h in rw still refl
  complete_upload_keeps key (some u) etags w h =
      ap cache_rows (ap (λ p. p.1) (sym (on_error-eq-ok _ _ h))) ∙ l.complete_multipart_keeps _ w

  -- A record that is put with its index value keeps every record indexed.
  put-IsIndexed :
      (id now : Text) (v : CacheRecord) (ttl : ℕ) (w : b.World) {w' : b.World}
      → put_cache b id (created_at v now) v ttl w ≡ (ok tt, w')
      → IsIndexed (cache_rows w)
      → IsIndexed (cache_rows w')
  put-IsIndexed id now v ttl w h i q k row at =
      one_more (text_eq cache_partition q && text_eq id k) _ (cache_rows w q k) row (now, refl)
        (i q k row) (sym (put_cache_rows b bucket l id _ v ttl w h q k) ∙ at)

  -- CreateEntry, when it returns, leaves a table in which every record is found in the index under
  -- its own fields, if every record was.
  pub create_entry-IsIndexed :
      (ctx : Option OidcIdentity) (req : Api.CreateEntryRequest) (w w' : b.World)
      {resp : Api.CreateEntryResponse}
      → IsIndexed (cache_rows w)
      → create_entry b bucket ctx req w ≡ (ok resp, w')
      → IsIndexed (cache_rows w')
  unfolding new_record
  create_entry-IsIndexed ctx req w w' {resp} i h =
      let c = create_entry-Created b bucket ctx req h in
      let kept = upload_instructions_keep _ _ _ _ w c.presigns in
      put-IsIndexed resp.id (b.format_rfc3339 (b.now c.presigned)) _ _ c.presigned c.stores
        (rw kept i)

  -- UpdateEntry, when it returns, leaves a table in which every record is found in the index under
  -- its own fields, if every record was.
  pub update_entry-IsIndexed :
      (req : Api.UpdateEntryRequest) (w w' : b.World) {resp : Api.UpdateEntryResponse}
      → IsIndexed (cache_rows w)
      → update_entry b bucket req w ≡ (ok resp, w')
      → IsIndexed (cache_rows w')
  update_entry-IsIndexed req w w' i h =
      let u = update_entry-Updated b bucket req h in
      let kept = complete_upload_keeps _ _ _ w u.completes in
      put-IsIndexed _ (b.format_rfc3339 (b.now u.completed)) _ _ u.completed u.stores (rw kept i)
