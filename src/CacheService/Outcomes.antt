-- ===== src/CacheService/Outcomes.antt =====
-- The ways in which the handlers end early, and what UpdateEntry leaves behind.
use zipstash.Base.{
  ◌&&◌, text_eq, ap, ◌≡◌, refl, sym, ◌∙◌, Bool, true, false, none, some, Text, Result, ok, err,
  crash, panic, Err, connect_error, already_exists, guard, reads, on_error, ◌>>=◌, ◌>>◌, bind_ok,
  deref-some, deref-none,
}
use zipstash.Keys.{Provider, from_provider_v1, tenant_key}
use zipstash.Api
use zipstash.Index.{CacheRecord, TenantRecord}
use zipstash.Backend.{Backend}
use zipstash.Backend.Laws.{Row, IsLawful}
use zipstash.Store.{exists_cache, exists_tenant_by_key, cache_partition}
use zipstash.CiAuth.{OidcIdentity}
use zipstash.CacheService.Get.{record_key, exists_with_fallback, get_entry}
use zipstash.CacheService.Handlers.{validate_owner, check_entry, create_entry, update_entry}
use zipstash.CacheService.Owner.{validate_owner_found}
use zipstash.CacheService.Lifecycle.{entry_key, update_entry-Updated, put_cache_rows, put_cache_row}
use zipstash.CacheService.Indexed.{complete_upload_keeps}

-- The index knows a tenant for the provider and owner.
abbrev pub IsKnown : (b : Backend) → Provider → Text → b.World → Type 0
IsKnown b provider_type owner w =
    (rec : TenantRecord) × (exists_tenant_by_key b
        (tenant_key (from_provider_v1 provider_type) owner) w
      ≡ ok (true, rec))

pub read_ok :
    {W A B : Type 0} (g : Err → Err) (r : W → Result A) (f : A → W → Result B × W) (a : A) (w : W)
    → r w ≡ ok a
    → (on_error g (reads r) >>= f) w ≡ f a w
unfolding on_error reads ◌>>=◌
read_ok g r f a w e = rw e refl

refused :
    {W B : Type 0} (c : Bool) (e : Err) (n : W → Result B × W) (w : W)
    → c ≡ false
    → (guard c e >> n) w ≡ (err e, w)
unfolding guard ◌>>=◌
refused c e n w h = rw h refl

call_crash :
    {W A B : Type 0} (g : Err → Err) (m : W → Result A × W) (f : A → W → Result B × W) (w : W)
    → m w ≡ (crash panic, w)
    → (on_error g m >>= f) w ≡ (crash panic, w)
unfolding on_error ◌>>=◌
call_crash g m f w h = rw h refl

module _ (b : Backend) (bucket : Text) where
  search_panics :
      (req : Api.GetEntryRequest) (w : b.World)
      → req.platform ≡ none
      → exists_with_fallback b bucket req w ≡ (crash panic, w)
  unfolding exists_with_fallback
  search_panics req w h = deref-none req.platform _ w h

  pub accepted :
      {B : Type 0} (identity : OidcIdentity) (provider_type : Provider) (owner : Text)
      (n : b.World → Result B × b.World) (w : b.World)
      → IsKnown b provider_type owner w
      → (validate_owner b bucket (some identity) owner (from_provider_v1 provider_type) >> n) w
        ≡ n w
  accepted identity provider_type owner n w (rec, e) =
      bind_ok _ _
        (validate_owner_found b bucket identity owner (from_provider_v1 provider_type) rec w e)

  -- For a known owner, CreateEntry answers that an entry exists if the index has its key, and changes
  -- nothing.
  pub create_entry_exists :
      (identity : OidcIdentity) (req : Api.CreateEntryRequest) (entry : Api.CacheEntry)
      (platform : Api.Platform) (rec : CacheRecord) (w : b.World)
      → req.cache_entry ≡ some entry
      → req.platform ≡ some platform
      → IsKnown b req.provider_type entry.owner w
      → exists_cache b (entry_key req.provider_type entry platform) w ≡ ok (true, rec)
      → create_entry b bucket (some identity) req w ≡ (
        err (
            connect_error already_exists
              "cache.v1.CacheService.CreateEntry cache entry already exists"),
        w,
      )
  unfolding create_entry
  create_entry_exists identity req entry platform rec w has_entry has_platform known e =
      deref-some req.cache_entry _ w has_entry
      ∙ accepted identity req.provider_type entry.owner _ w known
      ∙ deref-some req.platform _ w has_platform
      ∙ read_ok _ _ _ (true, rec) w e
      ∙ refused _ _ _ w refl

  -- For known owners, a request without a platform makes CheckEntry, CreateEntry and GetEntry
  -- dereference nil, before anything is changed.
  pub no_platform_panics :
      (identity : OidcIdentity) (check : Api.CheckEntryRequest) (create : Api.CreateEntryRequest)
      (entry : Api.CacheEntry) (get : Api.GetEntryRequest) (w : b.World)
      → create.cache_entry ≡ some entry
      → check.platform ≡ none
      → create.platform ≡ none
      → get.platform ≡ none
      → IsKnown b check.provider_type check.owner w
      → IsKnown b create.provider_type entry.owner w
      → IsKnown b get.provider_type get.owner w
      → (check_entry b bucket (some identity) check w ≡ (crash panic, w))
        × (create_entry b bucket (some identity) create w ≡ (crash panic, w))
        × (get_entry b bucket (some identity) get w ≡ (crash panic, w))
  unfolding check_entry create_entry get_entry
  no_platform_panics identity check create entry get w has h1 h2 h3 k1 k2 k3 = (
    accepted identity check.provider_type check.owner _ w k1 ∙ deref-none check.platform _ w h1,
    deref-some create.cache_entry _ w has
        ∙ accepted identity create.provider_type entry.owner _ w k2
        ∙ deref-none create.platform _ w h2,
    accepted identity get.provider_type get.owner _ w k3
        ∙ call_crash _ _ _ w (search_panics get w h3),
  )

  -- UpdateEntry, when it returns, has written the record that it found under the ID, with the
  -- clock's time as its time of update, to the row of the record's own key, and every other row is as before: the row of the
  -- ID too, if the ID is not that key.
  pub update_entry_only :
      (l : IsLawful b) (req : Api.UpdateEntryRequest) (rec : CacheRecord) (w w' : b.World)
      {resp : Api.UpdateEntryResponse}
      → exists_cache b req.id w ≡ ok (true, rec)
      → update_entry b bucket req w ≡ (ok resp, w')
      → ((v : b.World) × (row : Row CacheRecord) × (l.cache_rows w' cache_partition (record_key rec)
            ≡ some row)
          × (row.value ≡ record rec { updated_at = b.now v }))
        × ((q k : Text)
            → (text_eq cache_partition q && text_eq (record_key rec) k) ≡ false
            → l.cache_rows w' q k ≡ l.cache_rows w q k)
  update_entry_only l req rec w w' there h =
      let u = update_entry-Updated b bucket req h in
      let same : u.rec ≡ rec = let t = u.was_there in cc in
      let kept = complete_upload_keeps b bucket l _ _ _ w u.completes in
      let renewed : CacheRecord → CacheRecord = λ r. record r { updated_at = b.now u.completed } in
      (
        (
          u.completed,
          _,
          ap (λ r. l.cache_rows w' cache_partition (record_key r)) (sym same)
              ∙ put_cache_row b bucket l (record_key u.rec) _ _ _ u.completed u.stores,
          ap renewed same,
        ),
        λ q k other.
            put_cache_rows b bucket l (record_key u.rec) _ _ _ u.completed u.stores q k
            ∙ rw (same, other, kept) refl,
      )
