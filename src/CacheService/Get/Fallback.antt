-- ===== src/CacheService/Get/Fallback.antt =====
-- Which record GetEntry answers with: that of the key, or one of the fallback branch.
use zipstash.Base.{
  ◌≡◌, refl, sym, ap, ◌∙◌, Bool, true, false, Option, none, some, Text, codes, text_eq, ok,
  has_prefix, inl, inr, ◌⊎◌, run_bind, run_call, run_deref, run_lookup, run_guard, run_pure,
}
use zipstash.Keys.{from_provider_v1, build_cache_key, created_prefix}
use zipstash.Keys.Created.{LackHash, SameFields, created_prefix_exact}
use zipstash.GoStd.Query.{AreBytes}
use zipstash.Api
use zipstash.Index.{CacheRecord}
use zipstash.Backend.{Backend}
use zipstash.Backend.Laws.{attribute, Row, Rows, Holds, IsLawful}
use zipstash.Store.{
  exists_cache, exists_cache_by_fallback_branch, cache_partition, by_created, cache_options,
}
use zipstash.Store.Lookup.{exists_cache-true, exists_cache-false, fallback-true}
use zipstash.CiAuth.{OidcIdentity}
use zipstash.CacheService.Get.{
  ExistsWithFallbackResult, fallback_result, look_for_fallback, choose, exists_with_fallback,
  get_entry,
}
use zipstash.CacheService.Owner.{validate_owner-eq-ok}
use zipstash.CacheService.Indexed.{created_at, IsIndexed}

-- The key that a request asks for.
abbrev pub asked_key : Api.GetEntryRequest → Api.Platform → Text
asked_key req platform =
    build_cache_key req.owner (from_provider_v1 req.provider_type) platform.operating_system
      platform.architecture req.key

abbrev pub asked_prefix : Api.GetEntryRequest → Api.Platform → Text
asked_prefix req platform =
    created_prefix req.owner (from_provider_v1 req.provider_type) platform.operating_system
      platform.architecture req.name req.fallback_branch

module _ (b : Backend) (bucket : Text) where
  -- The record under the key, or else one under the prefix of the fallback branch.
  abbrev Choice : Api.GetEntryRequest → Api.Platform → b.World → CacheRecord → Bool → Type 0
  Choice req platform w rec fallback =
      ((fallback ≡ false) × (exists_cache b (asked_key req platform) w ≡ ok (true, rec)))
      ⊎ ((fallback ≡ true)
          × ((before : CacheRecord) × (exists_cache b (asked_key req platform) w
                ≡ ok (false, before)))
          × (exists_cache_by_fallback_branch b (asked_prefix req platform) w ≡ ok (true, rec)))

  fallback-Choice :
      (req : Api.GetEntryRequest) (platform : Api.Platform) (w : b.World) (before : CacheRecord)
      (a : Bool × CacheRecord) {r : ExistsWithFallbackResult}
      → exists_cache b (asked_key req platform) w ≡ ok (false, before)
      → exists_cache_by_fallback_branch b (asked_prefix req platform) w ≡ ok a
      → fallback_result a ≡ r
      → r.exists ≡ true
      → Choice req platform w r.rec r.fallback
  unfolding fallback_result
  fallback-Choice req platform w before (true, rec) missing e same there =
      rw (← same) (inr (refl, (before, missing), e))
  fallback-Choice req platform w before (false, rec) missing e same there = cc

  choose-Choice :
      (req : Api.GetEntryRequest) (platform : Api.Platform) (w : b.World) (a : Bool × CacheRecord)
      {r : ExistsWithFallbackResult} {w' : b.World}
      → exists_cache b (asked_key req platform) w ≡ ok a
      → choose b bucket req platform (asked_key req platform) a w ≡ (ok r, w')
      → r.exists ≡ true
      → Choice req platform w r.rec r.fallback × (w' ≡ w)
  unfolding choose look_for_fallback
  choose-Choice req platform w (true, rec) e h there =
      let (same, still) = run_pure _ h in (rw (← same) (inl (refl, e)), sym still)
  choose-Choice req platform w (false, before) e h there =
      run_lookup _ (exists_cache_by_fallback_branch b (asked_prefix req platform)) _ h λ a e' h1.
        let (same, still) = run_pure _ h1 in
        (fallback-Choice req platform w before a e e' same there, sym still)

  exists_with_fallback-Choice :
      (req : Api.GetEntryRequest) (platform : Api.Platform) (w : b.World)
      {r : ExistsWithFallbackResult} {w' : b.World}
      → req.platform ≡ some platform
      → exists_with_fallback b bucket req w ≡ (ok r, w')
      → r.exists ≡ true
      → Choice req platform w r.rec r.fallback × (w' ≡ w)
  unfolding exists_with_fallback
  exists_with_fallback-Choice req platform w has h there = run_deref req.platform _ h λ p hp h1.
      let same : platform ≡ p = cc in
      run_lookup _ (exists_cache b (asked_key req p)) _ h1
        λ a e h2. rw same (choose-Choice req p w a e h2 there)

  -- What GetEntry answered with, once it returned: a record that the index holds.
  get_entry-Choice :
      (ctx : Option OidcIdentity) (req : Api.GetEntryRequest) (platform : Api.Platform)
      (w : b.World) {resp : Api.GetEntryResponse} {w' : b.World}
      → req.platform ≡ some platform
      → get_entry b bucket ctx req w ≡ (ok resp, w')
      → (rec : CacheRecord) × Choice req platform w rec resp.fallback
        × (resp.cache_entry.sha256sum ≡ rec.sha256)
        × (resp.cache_entry.branch ≡ rec.branch)
        × (w' ≡ w)
  unfolding get_entry
  get_entry-Choice ctx req platform w has h = run_bind _ _ h λ t w1 valid h1.
      run_call _ _ _ h1 λ entry w2 e2 h2. run_guard entry.exists _ _ h2 λ there h3.
        run_lookup _ _ _ h3 λ (exists, res) e4 h4. run_guard exists _ _ h4 λ stored h5.
          run_lookup _ _ _ h5 λ instructs e6 h6.
            let (same, still) = run_pure _ h6 in
            let (_, start) = validate_owner-eq-ok b bucket ctx req.owner _ valid in
            let (choice, kept) = exists_with_fallback-Choice req platform w1 has e2 there in
            (
              entry.rec,
              rw (← same) (rw start at choice),
              rw (← same) refl,
              rw (← same) refl,
              rw (← still, kept, start) refl,
            )

created_attribute :
    (p k now : Text) (row : Row CacheRecord)
    → row.extra_fields ≡ (cache_options (created_at row.value now) row.value 0).extra_fields
    → attribute p k row by_created.sort_attribute ≡ some (created_at row.value now)
unfolding attribute text_eq codes
created_attribute p k now row e = rw e refl

-- The fields that make up the index value of a record, and of a request.
abbrev pub HasPlainFields : CacheRecord → Type 0
HasPlainFields v =
    LackHash v.owner v.provider v.operating_system v.architecture v.name × AreBytes v.branch

abbrev pub AsksPlainly : Api.GetEntryRequest → Api.Platform → Type 0
AsksPlainly req platform =
    LackHash req.owner (from_provider_v1 req.provider_type) platform.operating_system
      platform.architecture req.name
    × AreBytes req.fallback_branch

-- The record is of the owner, provider, platform and name that the request names, and of its
-- fallback branch.
abbrev pub IsOfBranch : CacheRecord → Api.GetEntryRequest → Api.Platform → Type 0
IsOfBranch v req platform =
    SameFields v.owner v.provider v.operating_system v.architecture v.name v.branch req.owner
      (from_provider_v1 req.provider_type) platform.operating_system platform.architecture req.name
      req.fallback_branch

held-IsOfBranch :
    (rows : Rows CacheRecord) (req : Api.GetEntryRequest) (platform : Api.Platform)
    {v : CacheRecord}
    → IsIndexed rows
    → ((q k : Text) (row : Row CacheRecord) → rows q k ≡ some row → HasPlainFields row.value)
    → AsksPlainly req platform
    → (held : Holds rows cache_partition (asked_prefix req platform) by_created v)
    → IsOfBranch held.row.value req platform
held-IsOfBranch rows req platform indexed plain asks held =
    let v = held.row.value in
    let (now, fields) = indexed held.p held.k held.row held.at in
    let (lacks, bytes) = plain held.p held.k held.row held.at in
    let is_created : created_at v now ≡ held.matches.sort_value =
      let e = created_attribute held.p held.k now held.row fields in
      let s = held.matches.sorted_by in cc in
    (created_prefix_exact v.owner v.provider v.operating_system v.architecture v.name v.branch
        req.owner (from_provider_v1 req.provider_type) platform.operating_system
        platform.architecture req.name req.fallback_branch now lacks asks.0 bytes asks.1).0
      (ap (λ s. has_prefix s (asked_prefix req platform)) is_created ∙ held.matches.begins)

-- Which row GetEntry answered from.
pub record Answered (rows : Rows CacheRecord) (req : Api.GetEntryRequest) (platform : Api.Platform)
    (resp : Api.GetEntryResponse) : Type 0 where
  pub p : Text
  pub k : Text
  pub row : Row CacheRecord
  pub at : rows p k ≡ some row
  pub same_sha : resp.cache_entry.sha256sum ≡ row.value.sha256
  pub same_branch : resp.cache_entry.branch ≡ row.value.branch
  pub why :
      ((resp.fallback ≡ false) × (p ≡ cache_partition) × (k ≡ asked_key req platform))
      ⊎ ((resp.fallback ≡ true)
          × (rows cache_partition (asked_key req platform) ≡ none)
          × IsOfBranch row.value req platform)

-- When GetEntry returns, it answers from the row of the key that was asked for, or, only if there is
-- no such row, from a row of the same owner, provider, platform and name and of the fallback branch,
-- and says which; it writes nothing. Every row is indexed, and no field but the branch holds a "#".
pub get_entry-Answered :
    (b : Backend) (bucket : Text) (l : IsLawful b) (ctx : Option OidcIdentity)
    (req : Api.GetEntryRequest) (platform : Api.Platform) (w w' : b.World)
    {resp : Api.GetEntryResponse}
    → IsIndexed (l.cache_rows w)
    → ((q k : Text) (row : Row CacheRecord)
        → l.cache_rows w q k ≡ some row
        → HasPlainFields row.value)
    → AsksPlainly req platform
    → req.platform ≡ some platform
    → get_entry b bucket ctx req w ≡ (ok resp, w')
    → Answered (l.cache_rows w) req platform resp × (w' ≡ w)
get_entry-Answered b bucket l ctx req platform w w' indexed plain asks has h =
    let (rec, choice, sha, branch, still) = get_entry-Choice b bucket ctx req platform w has h in
    elim choice [
      | inl (direct, e) ↦
          let (row, at, same) = exists_cache-true b l (asked_key req platform) w e in
          (
            record {
              p = cache_partition;
              k = asked_key req platform;
              row = row;
              at = at;
              same_sha = sha ∙ ap (λ v. v.sha256) (sym same);
              same_branch = branch ∙ ap (λ v. v.branch) (sym same);
              why = inl (direct, refl, refl);
            },
            still,
          )
      | inr (indirect, (before, missing), e) ↦
          let held = fallback-true b l (asked_prefix req platform) w e in
          (
            record {
              p = held.p;
              k = held.k;
              row = held.row;
              at = held.at;
              same_sha = sha ∙ ap (λ v. v.sha256) (sym held.holds);
              same_branch = branch ∙ ap (λ v. v.branch) (sym held.holds);
              why = inr (
                indirect,
                exists_cache-false b l (asked_key req platform) w missing,
                held-IsOfBranch (l.cache_rows w) req platform indexed plain asks held,
              );
            },
            still,
          )
    ]
