-- ===== src/CacheService/Visible.antt =====
-- When an entry can be seen: not before UpdateEntry, and from then on it cannot be created again.
use zipstash.Base.{
  ◌≡◌, ◌≢◌, refl, sym, ap, ◌∙◌, Bool, false, Option, none, some, Text, inl, inr, ok, err,
  connect_error, already_exists, text_eq_refl, ne→text_eq_false, Bool-cases,
}
use zipstash.Api
use zipstash.Index.{CacheRecord}
use zipstash.Backend.{Backend}
use zipstash.Backend.Laws.{IsLawful}
use zipstash.Store.{exists_cache, cache_partition}
use zipstash.Store.Lookup.{exists_cache-true, exists_cache-false}
use zipstash.CiAuth.{OidcIdentity}
use zipstash.CacheService.Handlers.{check_entry, create_entry, update_entry}
use zipstash.CacheService.Lifecycle.{entry_key, create_entry-Created, put_cache_rows}
use zipstash.CacheService.Indexed.{upload_instructions_keep}
use zipstash.CacheService.Outcomes.{IsKnown, create_entry_exists}
use zipstash.CacheService.Publish.{check_request, check_entry-eq-ok, published}

module _ (b : Backend) (bucket : Text) (l : IsLawful b) where
  open l use {cache_rows}

  -- CreateEntry leaves the key of its entry without a row.
  created_missing :
      (ctx : Option OidcIdentity) (req : Api.CreateEntryRequest) (entry : Api.CacheEntry)
      (platform : Api.Platform) (w w1 : b.World) {resp : Api.CreateEntryResponse}
      → req.cache_entry ≡ some entry
      → req.platform ≡ some platform
      → create_entry b bucket ctx req w ≡ (ok resp, w1)
      → resp.id ≢ entry_key req.provider_type entry platform
      → cache_rows w1 cache_partition (entry_key req.provider_type entry platform) ≡ none
  created_missing ctx req entry platform w w1 {resp} has_entry has_platform created other =
      let c = create_entry-Created b bucket ctx req created in
      let e : entry ≡ c.entry = cc in
      let p : platform ≡ c.platform = cc in
      let key = entry_key req.provider_type entry platform in
      let same : entry_key req.provider_type c.entry c.platform ≡ key = rw (e, p) refl in
      let missing =
        exists_cache-false b l key w (ap (λ k. exists_cache b k w) (sym same) ∙ c.was_missing) in
      let kept = upload_instructions_keep b bucket l _ _ _ _ w c.presigns in
      put_cache_rows b bucket l resp.id _ _ _ c.presigned c.stores cache_partition key
      ∙ rw (ne→text_eq_false resp.id key other, text_eq_refl cache_partition, kept) missing

  -- Between CreateEntry and UpdateEntry an entry is not visible: CheckEntry for the same owner,
  -- provider, platform and key reports that there is none, if it returns, if the key has no other row
  -- meanwhile and the upload ID is not the key itself.
  pub check_before_update :
      (ctx ctx' : Option OidcIdentity) (req : Api.CreateEntryRequest) (entry : Api.CacheEntry)
      (platform : Api.Platform) (w w1 w2 : b.World) {resp : Api.CreateEntryResponse}
      {seen : Api.CheckEntryResponse} {w3 : b.World}
      → req.cache_entry ≡ some entry
      → req.platform ≡ some platform
      → create_entry b bucket ctx req w ≡ (ok resp, w1)
      → resp.id ≢ entry_key req.provider_type entry platform
      → cache_rows w2 cache_partition (entry_key req.provider_type entry platform)
        ≡ cache_rows w1 cache_partition (entry_key req.provider_type entry platform)
      → check_entry b bucket ctx' (check_request req entry) w2 ≡ (ok seen, w3)
      → seen.exists ≡ false
  check_before_update ctx ctx' req entry platform w w1 w2 has_entry has_platform created other kept
        checked =
      let gone =
        kept ∙ created_missing ctx req entry platform w w1 has_entry has_platform created other in
      let (exists, rec, e, er) =
        check_entry-eq-ok b bucket ctx' (check_request req entry) platform w2 has_platform
          checked in
      elim (Bool-cases exists) [
        | inl there ↦
            let (row, at, _) =
              exists_cache-true b l (entry_key req.provider_type entry platform) w2
                (e ∙ ap (λ x. ok (x, rec)) there) in
            let no : none ≡ some row = sym gone ∙ at in cc
        | inr missing ↦ ap (λ r. r.exists) er ∙ missing
      ]

  -- Once CreateEntry and UpdateEntry have returned, CreateEntry for the same key answers that the
  -- entry exists and changes nothing, if the owner is known, the index answers, and meanwhile neither
  -- the record of the ID nor that of the key was changed by others.
  pub create_again :
      (ctx : Option OidcIdentity) (identity : OidcIdentity) (req : Api.CreateEntryRequest)
      (entry : Api.CacheEntry) (platform : Api.Platform) (update : Api.UpdateEntryRequest)
      (w w1 w2 w3 w4 : b.World) {resp : Api.CreateEntryResponse} {resp' : Api.UpdateEntryResponse}
      {exists : Bool} {rec : CacheRecord}
      → req.cache_entry ≡ some entry
      → req.platform ≡ some platform
      → create_entry b bucket ctx req w ≡ (ok resp, w1)
      → update.id ≡ resp.id
      → cache_rows w2 cache_partition resp.id ≡ cache_rows w1 cache_partition resp.id
      → update_entry b bucket update w2 ≡ (ok resp', w3)
      → cache_rows w4 cache_partition (entry_key req.provider_type entry platform)
        ≡ cache_rows w3 cache_partition (entry_key req.provider_type entry platform)
      → IsKnown b req.provider_type entry.owner w4
      → exists_cache b (entry_key req.provider_type entry platform) w4 ≡ ok (exists, rec)
      → create_entry b bucket (some identity) req w4 ≡ (
        err (
            connect_error already_exists
              "cache.v1.CacheService.CreateEntry cache entry already exists"),
        w4,
      )
  create_again ctx identity req entry platform update w w1 w2 w3 w4 {exists} {rec} has_entry
        has_platform created same kept updated kept' known answers =
      let (row, at, _) =
        published b bucket l ctx req entry platform update w w1 w2 w3 has_entry has_platform created
          same kept updated in
      elim (Bool-cases exists) [
        | inl there ↦
            create_entry_exists b bucket identity req entry platform rec w4 has_entry has_platform
              known (answers ∙ ap (λ x. ok (x, rec)) there)
        | inr missing ↦ absurd (
            let gone =
              exists_cache-false b l (entry_key req.provider_type entry platform) w4
                (answers ∙ ap (λ x. ok (x, rec)) missing) in
            let no : none ≡ some row = sym gone ∙ kept' ∙ at in cc)
      ]
