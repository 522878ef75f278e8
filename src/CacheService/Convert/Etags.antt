-- ===== src/CacheService/Convert/Etags.antt =====
-- The parts that complete an upload: in ascending order, however the client lists them.
use mathlib.Core.Logic.{∥∥₁_elim}
use zipstash.Base.{
  AreDistinct, Ascending, sort-sort, sort-Ascending, sort-Perm, ℕ, ◌≡◌, ◌<◌, ◌≤◌, ap, List, [], ◌∷◌,
  map, ltb, slt32, slt32_small, All,
}
use mathlib.Core.List.{Perm}
use mathlib.Core.List.Permᴰ
use zipstash.Api
use zipstash.Backend.{CompletedPart}
use zipstash.CacheService.Convert.{sort_parts, from_cache_part_etag_v1, completed_part}

-- A part number that is not negative as an `int32`.
abbrev pub IsSmall : Api.CachePartETag → Type 0
IsSmall e = e.part < 2147483648

-- Part numbers ascend.
abbrev pub Ascends : List CompletedPart → Type 0
Ascends [] = Unit
Ascends (p ∷ ps) = All (λ q. p.part_number ≤ q.part_number) ps × Ascends ps

agree : (e f : Api.CachePartETag) → IsSmall e → IsSmall f → slt32 e.part f.part ≡ ltb e.part f.part
agree e f he hf = slt32_small e.part f.part he hf

-- The parts that complete an upload are the same in whatever order the client lists its parts, if
-- their numbers differ and are not negative.
pub from_cache_part_etag_v1_any_order :
    (es fs : List Api.CachePartETag)
    → Perm es fs
    → All IsSmall es
    → AreDistinct (λ e. e.part) es
    → from_cache_part_etag_v1 es ≡ from_cache_part_etag_v1 fs
unfolding from_cache_part_etag_v1 sort_parts
from_cache_part_etag_v1_any_order es fs p h d = ∥∥₁_elim p (hlevel) (λ q.
    ap (map completed_part)
      (sort-sort (λ e f. slt32 e.part f.part) (λ e. e.part) IsSmall agree es fs q h d))

map-All :
    (n : ℕ) (es : List Api.CachePartETag)
    → All (λ f. n ≤ f.part) es
    → All (λ q. n ≤ q.part_number) (map completed_part es)
unfolding completed_part
map-All n [] h = tt
map-All n (e ∷ es) (h, hs) = (h, map-All n es hs)

map-Ascends :
    (es : List Api.CachePartETag) → Ascending (λ e. e.part) es → Ascends (map completed_part es)
unfolding completed_part
map-Ascends [] h = tt
map-Ascends (e ∷ es) (h, hs) = (map-All e.part es h, map-Ascends es hs)

-- The parts that complete an upload are those of the client, and their numbers ascend, if none is
-- negative.
pub from_cache_part_etag_v1_lem :
    (es : List Api.CachePartETag)
    → All IsSmall es
    → Ascends (from_cache_part_etag_v1 es)
      × Perm (from_cache_part_etag_v1 es) (map completed_part es)
unfolding from_cache_part_etag_v1 sort_parts
from_cache_part_etag_v1_lem es h = (
  map-Ascends (sort_parts es)
      (sort-Ascending (λ e f. slt32 e.part f.part) (λ e. e.part) IsSmall agree es h),
  ∣ Permᴰ.map _ (sort-Perm (λ e f. slt32 e.part f.part) es) ∣₁,
)
