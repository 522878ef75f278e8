-- ===== src/CacheService/Returns.antt =====
-- The handlers return where the services that they call answer.
use zipstash.Base.{
  ℕ, ◌≡◌, ◌⊎◌, refl, Bool, true, false, List, [], ◌∷◌, Option, none, some, Text, inl, inr, Result,
  ok, err, Err, errors_is, key_not_exists, guard, reads, on_error, pure, ◌>>=◌, ◌>>◌, deref-some,
  ltb, ltb_false→le, Bool-cases,
}
use zipstash.Api
use zipstash.Index.{CacheRecord}
use zipstash.Store.Lookup.{exists_cache_answers}
use zipstash.Offsets.{Offset, min_part_size}
use zipstash.Offsets.Tiling.{calculate_offsets-Tiles}
use zipstash.Backend.{
  Backend, WriteOptions, PutObjectInput, UploadPartInput, CreateMultipartUploadInput,
  CompleteMultipartUploadInput,
}
use zipstash.Store.{exists_cache, put_cache}
use zipstash.Presigner.{
  CacheUrlInstruction, offsets_of, presign_each, single_upload, multipart_upload,
  generate_file_upload_instructions,
}
use zipstash.Presigner.Plan.{IsFileSize, in_range, is_small}
use zipstash.CiAuth.{OidcIdentity}
use zipstash.CacheService.Handlers.{check_entry, create_entry, complete_upload, update_entry}
use zipstash.CacheService.Lifecycle.{entry_key}
use zipstash.CacheService.Outcomes.{IsKnown, read_ok, accepted}

-- Every call of the table and of S3 that the three handlers make answers: a record is read or is
-- not there, and is written where no record is asked to be new.
pub record IsUp (b : Backend) : Type 0 where
  pub gets :
      (p k : Text) (w : b.World)
      → ((v : CacheRecord) × (b.cache_store.get p k w ≡ ok v))
        ⊎ ((e : Err) × (b.cache_store.get p k w ≡ err e) × (errors_is e key_not_exists ≡ true))
  pub creates :
      (p k : Text) (v : CacheRecord) (o : WriteOptions) (w : b.World)
      → o.create_constraint_disabled ≡ true
      → (w' : b.World) × (b.cache_store.create p k v o w ≡ (ok tt, w'))
  pub presigns_put :
      (i : PutObjectInput) (t : ℕ) (w : b.World)
      → (url : Text) × (b.presign_put_object i t w ≡ ok url)
  pub presigns_part :
      (i : UploadPartInput) (t : ℕ) (w : b.World)
      → (url : Text) × (b.presign_upload_part i t w ≡ ok url)
  pub creates_multipart :
      (i : CreateMultipartUploadInput) (w : b.World)
      → (u : Option Text) × (w' : b.World) × (b.create_multipart_upload i w ≡ (ok u, w'))
  pub completes_multipart :
      (i : CompleteMultipartUploadInput) (w : b.World)
      → (w' : b.World) × (b.complete_multipart_upload i w ≡ (ok tt, w'))

-- It returns a value.
abbrev pub Returned : {W A : Type 0} → Result A × W → Type 0
Returned {W} {A} r = (a : A) × (w : W) × (r ≡ (ok a, w))

module _ {W A B : Type 0} where
  bind_returns :
      (m : W → Result A × W) (f : A → W → Result B × W) (w : W)
      → Returned (m w)
      → ((a : A) (v : W) → Returned (f a v))
      → Returned ((m >>= f) w)
  unfolding ◌>>=◌
  bind_returns m f w (a, v, e) k = rw e (k a v)

  call_returns :
      (g : Err → Err) (m : W → Result A × W) (f : A → W → Result B × W) (w : W)
      → Returned (m w)
      → ((a : A) (v : W) → Returned (f a v))
      → Returned ((on_error g m >>= f) w)
  unfolding on_error ◌>>=◌
  call_returns g m f w (a, v, e) k = rw e (k a v)

  reads_returns :
      (r : W → Result A) (f : A → W → Result B × W) (a : A) (w : W)
      → r w ≡ ok a
      → Returned (f a w)
      → Returned ((reads r >>= f) w)
  unfolding reads ◌>>=◌
  reads_returns r f a w e k = rw e k

  lookup_returns :
      (g : Err → Err) (r : W → Result A) (f : A → W → Result B × W) (a : A) (w : W)
      → r w ≡ ok a
      → Returned (f a w)
      → Returned ((on_error g (reads r) >>= f) w)
  lookup_returns g r f a w e k = rw (read_ok g r f a w e) k

module _ {W B : Type 0} where
  guard_returns :
      (c : Bool) (e : Err) (n : W → Result B × W) (w : W)
      → c ≡ true
      → Returned (n w)
      → Returned ((guard c e >> n) w)
  unfolding guard ◌>>=◌
  guard_returns c e n w h k = rw h k

  mapped_returns :
      (g : Err → Err) (m : W → Result B × W) (w : W) → Returned (m w) → Returned (on_error g m w)
  unfolding on_error
  mapped_returns g m w (a, v, e) = rw e (a, v, refl)

  pure_returns : (a : B) (w : W) → Returned (pure a w)
  unfolding pure
  pure_returns a w = (a, w, refl)

module _ (b : Backend) (bucket : Text) (up : IsUp b) where
  presign_each_returns :
      (presign : Offset → b.World → Result Text) (method : Text) (os : List Offset) (w : b.World)
      → ((o : Offset) → (url : Text) × (presign o w ≡ ok url))
      → (is : List CacheUrlInstruction) × (presign_each b presign method os w ≡ ok is)
  unfolding presign_each
  presign_each_returns presign method [] w h = ([], refl)
  presign_each_returns presign method (o ∷ os) w h =
      let (url, e) = h o in
      let (is, e') = presign_each_returns presign method os w h in rw (e, e') (_, refl)

  upload_instructions_return :
      (key sha256sum compression : Text) (size : ℕ) (w : b.World)
      → IsFileSize size
      → Returned (generate_file_upload_instructions b bucket key sha256sum compression size w)
  unfolding generate_file_upload_instructions single_upload multipart_upload offsets_of
  upload_instructions_return key sha256sum compression size w small =
      elim (Bool-cases (ltb size min_part_size)) [
        | inl less ↦
            rw (is_small size small, less)
              (lookup_returns _ _ _ _ w (up.presigns_put _ _ w).1 (pure_returns _ w))
        | inr more ↦
            let (os, e, _, _) =
              calculate_offsets-Tiles size min_part_size
                (in_range size small (ltb_false→le size min_part_size more)) in
            rw (is_small size small, more)
              (call_returns _ _ _ w (up.creates_multipart _ w) λ u v.
                reads_returns _ _ os v (rw e refl) (
                  reads_returns _ _ _ v
                    (presign_each_returns _ _ os v λ o. up.presigns_part _ _ v).1
                    (pure_returns _ v)))
      ]

  put_cache_returns :
      (id created : Text) (v : CacheRecord) (ttl : ℕ) (w : b.World)
      → Returned (put_cache b id created v ttl w)
  unfolding put_cache
  put_cache_returns id created v ttl w =
      let (w', e) = up.creates _ id v _ w refl in mapped_returns _ _ w (tt, w', e)

  complete_upload_returns :
      (key : Text) (upload : Option Text) (etags : List Api.CachePartETag) (w : b.World)
      → Returned (complete_upload b bucket key upload etags w)
  unfolding complete_upload
  complete_upload_returns key none etags w = pure_returns tt w
  complete_upload_returns key (some u) etags w =
      let (w', e) = up.completes_multipart _ w in mapped_returns _ _ w (tt, w', e)

  create_entry_returns :
      (identity : OidcIdentity) (req : Api.CreateEntryRequest) (entry : Api.CacheEntry)
      (platform : Api.Platform) (rec : CacheRecord) (w : b.World)
      → req.cache_entry ≡ some entry
      → req.platform ≡ some platform
      → IsFileSize entry.file_size
      → IsKnown b req.provider_type entry.owner w
      → exists_cache b (entry_key req.provider_type entry platform) w ≡ ok (false, rec)
      → Returned (create_entry b bucket (some identity) req w)
  unfolding create_entry
  create_entry_returns identity req entry platform rec w has_entry has_platform size known new =
      rw (deref-some req.cache_entry _ w has_entry) (
        rw (accepted b bucket identity req.provider_type entry.owner _ w known) (
          rw (deref-some req.platform _ w has_platform) (
            lookup_returns _ _ _ (false, rec) w new
              (guard_returns _ _ _ w refl (
                reads_returns _ _ (b.new_uuid w) w refl (
                  call_returns _ _ _ w (upload_instructions_return _ _ _ entry.file_size w size)
                    λ instructs v. reads_returns _ _ (b.now v) v refl (
                      rw (deref-some (some identity) _ v refl) (
                        call_returns _ _ _ v (put_cache_returns _ _ _ _ v)
                          λ _ u. pure_returns _ u))))))))

  update_entry_returns :
      (req : Api.UpdateEntryRequest) (rec : CacheRecord) (w : b.World)
      → exists_cache b req.id w ≡ ok (true, rec)
      → Returned (update_entry b bucket req w)
  unfolding update_entry
  update_entry_returns req rec w there =
      lookup_returns _ _ _ (true, rec) w there
        (guard_returns _ _ _ w refl (
          bind_returns _ _ w
            (complete_upload_returns _ rec.multipart_upload_id req.multipart_etags w)
            λ _ v.
              reads_returns _ _ (b.now v) v refl
                (call_returns _ _ _ v (put_cache_returns _ _ _ _ v) λ _ u. pure_returns _ u)))

  check_entry_returns :
      (identity : OidcIdentity) (req : Api.CheckEntryRequest) (platform : Api.Platform)
      (w : b.World)
      → req.platform ≡ some platform
      → IsKnown b req.provider_type req.owner w
      → Returned (check_entry b bucket (some identity) req w)
  unfolding check_entry
  check_entry_returns identity req platform w has known =
      let (exists, rec, e) = exists_cache_answers b _ w (up.gets _ _ w) in
      rw (accepted b bucket identity req.provider_type req.owner _ w known) (
        rw (deref-some req.platform _ w has)
          (lookup_returns _ _ _ (exists, rec) w e (pure_returns _ w)))

  -- Where the table and S3 answer every call, and for known owners and given platforms: CheckEntry
  -- returns, CreateEntry returns for a key that the index does not have and a file of up to 16 PiB,
  -- and UpdateEntry returns for an ID that it has.
  pub handlers_return :
      (identity : OidcIdentity) (check : Api.CheckEntryRequest) (create : Api.CreateEntryRequest)
      (update : Api.UpdateEntryRequest) (entry : Api.CacheEntry) (platform platform' : Api.Platform)
      (rec rec' : CacheRecord) (w : b.World)
      → check.platform ≡ some platform'
      → IsKnown b check.provider_type check.owner w
      → create.cache_entry ≡ some entry
      → create.platform ≡ some platform
      → IsFileSize entry.file_size
      → IsKnown b create.provider_type entry.owner w
      → exists_cache b (entry_key create.provider_type entry platform) w ≡ ok (false, rec)
      → exists_cache b update.id w ≡ ok (true, rec')
      → Returned (check_entry b bucket (some identity) check w)
        × Returned (create_entry b bucket (some identity) create w)
        × Returned (update_entry b bucket update w)
  handlers_return identity check create update entry platform platform' rec rec' w h1 h2 h3 h4 h5 h6
        h7 h8 =
      (
        check_entry_returns identity check platform' w h1 h2,
        create_entry_returns identity create entry platform rec w h3 h4 h5 h6 h7,
        update_entry_returns update rec' w h8,
      )
