-- ===== src/Client/Joined.antt =====
-- The parts that complete an upload, in the order of their numbers: save.go, rpc_cache.go and S3.
use mathlib.Core.List.{Permᴰ}
use mathlib.Core.List.Permᴰ
use zipstash.Base.{
  ℕ, ◌+◌, ◌≡◌, ◌<◌, refl, sym, ap, ◌∙◌, List, [], ◌∷◌, map, Option, some, Text, length, arith,
  slt32, slt32_small, suc,
}
use zipstash.Offsets
use zipstash.Offsets.{calculate_offsets, min_part_size}
use zipstash.Offsets.Tiling.{IsNumbered}
use zipstash.Api
use zipstash.CacheService.Convert.{from_cache_part_etag_v1, sort_parts, completed_part}
use zipstash.CacheService.Convert.Etags.{from_cache_part_etag_v1_any_order}
use zipstash.Transfer.Upload.{CachePartETag}
use zipstash.Transfer.Whole.{concat, slice, slices}
use zipstash.Transfer.Numbered.{
  CountsFrom, CountsFrom-AreDistinct, CountsFrom-below, sort-CountsFrom,
}
use zipstash.Client.Convert.{to_etags_v1}
use zipstash.Client.S3.{AreParts}

module _ (part : ℕ → Text → Option Text) (file : Text) where
  -- Each ETag is that with which S3 keeps the bytes of a range under its number.
  abbrev pub AreSent : List Offsets.Offset → List CachePartETag → Type 0
  AreSent [] [] = Unit
  AreSent (o ∷ os) (t ∷ ts) =
      (t.part ≡ o.part) × (part o.part t.etag ≡ some (slice file o)) × AreSent os ts
  AreSent [] (_ ∷ _) = ⊥
  AreSent (_ ∷ _) [] = ⊥

  sent_counts :
      (n : ℕ) (os : List Offsets.Offset) (ts : List CachePartETag)
      → IsNumbered n os
      → AreSent os ts
      → CountsFrom (λ e. e.part) n (to_etags_v1 ts) × (length (to_etags_v1 ts) ≡ length os)
  unfolding to_etags_v1
  sent_counts n [] [] k h = (tt, refl)
  sent_counts n (o ∷ os) (t ∷ ts) (p, k) (e, _, h) =
      let (counts, same) = sent_counts (n + 1) os ts k h in ((e ∙ p, counts), ap suc same)
  sent_counts n [] (_ ∷ _) k h = absurd h
  sent_counts n (_ ∷ _) [] k h = absurd h

  sent-AreParts :
      (n last : ℕ) (os : List Offsets.Offset) (ts : List CachePartETag)
      → IsNumbered n os
      → last < n
      → AreSent os ts
      → AreParts part last (map completed_part (to_etags_v1 ts)) (concat (slices file os))
  unfolding to_etags_v1 completed_part
  sent-AreParts n last [] [] k h s = refl
  sent-AreParts n last (o ∷ os) (t ∷ ts) (p, k) h (e, kept, s) = (
    slice file o,
    concat (slices file os),
    omega (arith, e, p),
    ap (λ m. part m t.etag) e ∙ kept,
    refl,
    sent-AreParts (n + 1) t.part os ts k (omega (arith, e, p)) s,
  )
  sent-AreParts n last [] (_ ∷ _) k h s = absurd s
  sent-AreParts n last (_ ∷ _) [] k h s = absurd s

  -- The parts that are sent to S3, when the ETags came in any order.
  pub sent_any_order :
      (os : List Offsets.Offset) (ts us : List CachePartETag)
      → IsNumbered 1 os
      → AreSent os ts
      → length os + 2 < 2147483648
      → Permᴰ us ts
      → AreParts part 0 (from_cache_part_etag_v1 (to_etags_v1 us)) (concat (slices file os))
  unfolding from_cache_part_etag_v1 sort_parts to_etags_v1
  sent_any_order os ts us k h few p =
      let (counts, same) = sent_counts 1 os ts k h in
      let key : Api.CachePartETag → ℕ = λ e. e.part in
      let sorted =
        sort-CountsFrom key (λ e f. slt32 e.part f.part) 2147483648
          (λ e f a b. slt32_small e.part f.part a b) 1 (to_etags_v1 ts) counts
          (omega (arith, same)) in
      let any =
        from_cache_part_etag_v1_any_order (to_etags_v1 ts) (to_etags_v1 us)
          ∣ Permᴰ.map _ (Permᴰ.symm p) ∣₁
          (CountsFrom-below key 1 2147483648 (to_etags_v1 ts) counts (omega (arith, same)))
          (CountsFrom-AreDistinct key 1 (to_etags_v1 ts) counts) in
      let in_order : map completed_part (to_etags_v1 ts)
          ≡ from_cache_part_etag_v1 (to_etags_v1 us) =
        ap (map completed_part) (sym sorted) ∙ any in
      rw (← in_order) (sent-AreParts 1 0 os ts k (omega arith) h)
