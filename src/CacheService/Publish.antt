-- ===== src/CacheService/Publish.antt =====
-- What CheckEntry reports once CreateEntry and UpdateEntry have returned.
use zipstash.Base.{
  ◌≡◌, sym, ap, ◌∙◌, Bool, true, Option, some, Text, ok, Bool-cases, inl, inr, run_bind, run_lookup,
  run_deref, run_pure,
}
use zipstash.Keys.{from_provider_v1, build_cache_key}
use zipstash.Api
use zipstash.Index.{CacheRecord}
use zipstash.Backend.{Backend}
use zipstash.Backend.Laws.{Row, IsLawful}
use zipstash.Store.{exists_cache, cache_partition}
use zipstash.Store.Lookup.{exists_cache-false}
use zipstash.CiAuth.{OidcIdentity}
use zipstash.CacheService.Get.{record_key}
use zipstash.CacheService.Handlers.{
  new_record, check_entry, create_entry, update_entry, cache_record_ttl, cache_record_inflight_ttl,
}
use zipstash.CacheService.Owner.{validate_owner-eq-ok}
use zipstash.CacheService.Lifecycle.{
  entry_key, create_entry-Created, update_entry-Updated, put_cache_row, same_record,
}

-- The request that SaveCmd makes before it creates the entry.
abbrev pub check_request : Api.CreateEntryRequest → Api.CacheEntry → Api.CheckEntryRequest
check_request req entry = record {
  owner = entry.owner;
  provider_type = req.provider_type;
  key = entry.key;
  name = entry.name;
  branch = entry.branch;
  platform = req.platform;
}

module _ (b : Backend) (bucket : Text) where
  -- What CheckEntry saw, once it returned.
  pub check_entry-eq-ok :
      (ctx : Option OidcIdentity) (req : Api.CheckEntryRequest) (platform : Api.Platform)
      (w : b.World) {resp : Api.CheckEntryResponse} {w' : b.World}
      → req.platform ≡ some platform
      → check_entry b bucket ctx req w ≡ (ok resp, w')
      → (exists : Bool) × (rec : CacheRecord) × (exists_cache b
            (build_cache_key req.owner
              (from_provider_v1 req.provider_type)
              platform.operating_system
              platform.architecture
              req.key)
            w
          ≡ ok (exists, rec))
        × (resp ≡ record { exists = exists; sha256sum = rec.sha256 })
  unfolding check_entry
  check_entry-eq-ok ctx req platform w {resp} {w'} has h = run_bind _ _ h λ t w1 valid h1.
      run_deref req.platform _ h1 λ p hp h2. run_lookup _ _ _ h2 λ (exists, rec) e h3.
        let (er, ew) = run_pure _ h3 in
        let (_, still) = validate_owner-eq-ok b bucket ctx req.owner _ valid in
        let same : platform ≡ p = cc in (exists, rec, rw (same, ← still) e, sym er)

  module _ (l : IsLawful b) where
    open l use {cache_rows}

    -- The row that UpdateEntry wrote for an entry that CreateEntry accepted.
    pub published :
        (ctx : Option OidcIdentity) (req : Api.CreateEntryRequest) (entry : Api.CacheEntry)
        (platform : Api.Platform) (update : Api.UpdateEntryRequest) (w w1 w2 w3 : b.World)
        {resp : Api.CreateEntryResponse} {resp' : Api.UpdateEntryResponse}
        → req.cache_entry ≡ some entry
        → req.platform ≡ some platform
        → create_entry b bucket ctx req w ≡ (ok resp, w1)
        → update.id ≡ resp.id
        → cache_rows w2 cache_partition resp.id ≡ cache_rows w1 cache_partition resp.id
        → update_entry b bucket update w2 ≡ (ok resp', w3)
        → (row : Row CacheRecord) × (cache_rows w3 cache_partition
              (entry_key req.provider_type entry platform)
            ≡ some row)
          × (row.value.sha256 ≡ entry.sha256sum)
    unfolding new_record
    published ctx req entry platform update w w1 w2 w3 {resp} has_entry has_platform created same
          kept updated =
        let c = create_entry-Created b bucket ctx req created in
        let u = update_entry-Updated b bucket update updated in
        let e : entry ≡ c.entry = cc in
        let p : platform ≡ c.platform = cc in
        let at1 =
          put_cache_row b bucket l resp.id _ _ cache_record_inflight_ttl c.presigned c.stores in
        let r : u.rec ≡ _ =
          same_record b bucket l resp.id w2 (rw (← same) u.was_there) (kept ∙ at1) in
        let at3 =
          put_cache_row b bucket l (record_key u.rec) _ _ cache_record_ttl u.completed u.stores in
        let key : record_key u.rec ≡ entry_key req.provider_type entry platform =
          ap record_key r ∙ rw (← e, ← p) in
        (
          _,
          ap (cache_rows w3 cache_partition) (sym key) ∙ at3,
          ap (λ v. v.sha256) r ∙ ap (λ v. v.sha256sum) (sym e),
        )

    -- CheckEntry reports what the row of the key holds, or that there is no row.
    pub check_entry_reads :
        (ctx : Option OidcIdentity) (req : Api.CheckEntryRequest) (platform : Api.Platform)
        (w : b.World) {resp : Api.CheckEntryResponse} {w' : b.World} {row : Row CacheRecord}
        → req.platform ≡ some platform
        → check_entry b bucket ctx req w ≡ (ok resp, w')
        → cache_rows w cache_partition (
            build_cache_key req.owner
              (from_provider_v1 req.provider_type)
              platform.operating_system
              platform.architecture
              req.key)
          ≡ some row
        → resp ≡ record { exists = true; sha256sum = row.value.sha256 }
    check_entry_reads ctx req platform w has h at =
        let (exists, rec, e, er) = check_entry-eq-ok ctx req platform w has h in
        let key =
          build_cache_key req.owner (from_provider_v1 req.provider_type) platform.operating_system
            platform.architecture req.key in
        elim (Bool-cases exists) [
          | inl there ↦
              let v = same_record b bucket l key w (e ∙ ap (λ x. ok (x, rec)) there) at in
              rw (er, there, v)
          | inr missing ↦
              let gone = exists_cache-false b l key w (e ∙ ap (λ x. ok (x, rec)) missing) in cc
        ]

    -- Once CreateEntry and UpdateEntry have returned, CheckEntry for the same owner, provider,
    -- platform and key reports the entry and its SHA-256, if it returns, and if meanwhile neither the
    -- record of the ID nor that of the key was changed by others.
    pub check_after_update :
        (ctx ctx' : Option OidcIdentity) (req : Api.CreateEntryRequest) (entry : Api.CacheEntry)
        (platform : Api.Platform) (update : Api.UpdateEntryRequest) (w w1 w2 w3 w4 : b.World)
        {resp : Api.CreateEntryResponse} {resp' : Api.UpdateEntryResponse}
        {seen : Api.CheckEntryResponse} {w5 : b.World}
        → req.cache_entry ≡ some entry
        → req.platform ≡ some platform
        → create_entry b bucket ctx req w ≡ (ok resp, w1)
        → update.id ≡ resp.id
        → cache_rows w2 cache_partition resp.id ≡ cache_rows w1 cache_partition resp.id
        → update_entry b bucket update w2 ≡ (ok resp', w3)
        → cache_rows w4 cache_partition (entry_key req.provider_type entry platform)
          ≡ cache_rows w3 cache_partition (entry_key req.provider_type entry platform)
        → check_entry b bucket ctx' (check_request req entry) w4 ≡ (ok seen, w5)
        → seen ≡ record { exists = true; sha256sum = entry.sha256sum }
    check_after_update ctx ctx' req entry platform update w w1 w2 w3 w4 has_entry has_platform
          created same kept updated kept' checked =
        let (row, at, sha) =
          published ctx req entry platform update w w1 w2 w3 has_entry has_platform created same
            kept updated in
        check_entry_reads ctx' (check_request req entry) platform w4 has_platform checked
          (kept' ∙ at)
        ∙ rw sha
