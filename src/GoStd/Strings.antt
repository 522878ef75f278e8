-- ===== src/GoStd/Strings.antt =====
-- Package strings: `Join`, `Split`, `TrimSpace`, `Fields`.
use zipstash.Base.{
  ℕ, ◌≡◌, ◌≢◌, refl, ap, ◌∙◌, true, List, [], ◌∷◌, ◌++◌, arith, ◌==◌, if◌then◌else◌, Text, Lacks,
  has_prefix, All,
}

-- strings.Join(parts, sep) for a separator of one byte
unfoldable pub join : List Text → ℕ → Text
join [] sep = []
join (p ∷ []) sep = p
join (p ∷ q ∷ ps) sep = p ++ sep ∷ join (q ∷ ps) sep

unfoldable pub add_to_head : ℕ → List Text → List Text
add_to_head c [] = (c ∷ []) ∷ []
add_to_head c (p ∷ ps) = (c ∷ p) ∷ ps

-- strings.Split(s, sep) for a separator of one byte
unfoldable pub split : Text → ℕ → List Text
unfolding add_to_head
split [] sep = [] ∷ []
split (c ∷ s) sep = let rest = split s sep in if c == sep then [] ∷ rest else add_to_head c rest

pub split_of_Lacks : (p : Text) (sep : ℕ) → Lacks sep p → split p sep ≡ p ∷ []
unfolding split
split_of_Lacks [] sep h = refl
split_of_Lacks (c ∷ p) sep (hc, h) = ground (arith, split_of_Lacks p sep h)

pub split-append : (p s : Text) (sep : ℕ) → Lacks sep p → split (p ++ sep ∷ s) sep ≡ p ∷ split s sep
unfolding split
split-append [] s sep h = ground arith
split-append (c ∷ p) s sep (hc, h) = ground (arith, split-append p s sep h)

-- A part that lacks the separator is told from what follows it.
pub has_prefix-part :
    (p q s t : Text) (sep : ℕ)
    → Lacks sep p
    → Lacks sep q
    → has_prefix (p ++ sep ∷ s) (q ++ sep ∷ t) ≡ true
    → (p ≡ q) × (has_prefix s t ≡ true)
unfolding has_prefix
has_prefix-part [] [] s t sep hp hq h = (refl, ground arith)
has_prefix-part [] (d ∷ q) s t sep hp (hd, hq) h = absurd (ground arith)
has_prefix-part (c ∷ p) [] s t sep (hc, hp) hq h = absurd (ground arith)
has_prefix-part (c ∷ p) (d ∷ q) s t sep (hc, hp) (hd, hq) h =
    let r : (p ≡ q) × (has_prefix s t ≡ true) = has_prefix-part p q s t sep hp hq (ground arith) in
    (ground (arith, r.0), r.1)

add_to_head-append :
    (c : ℕ) (ps qs : List Text) → ps ≢ [] → add_to_head c (ps ++ qs) ≡ add_to_head c ps ++ qs
unfolding add_to_head
add_to_head-append c [] qs h = absurd (h refl)
add_to_head-append c (p ∷ ps) qs h = refl

split-ne-nil : (s : Text) (sep : ℕ) → split s sep ≢ []
unfolding split
split-ne-nil [] sep = ground arith
split-ne-nil (c ∷ s) sep = ground (arith, split-ne-nil s sep)

-- A separator between two texts splits them apart.
pub split-append_any :
    (p s : Text) (sep : ℕ) → split (p ++ sep ∷ s) sep ≡ split p sep ++ split s sep
unfolding split
split-append_any [] s sep = ground arith
split-append_any (c ∷ p) s sep = ground (
  arith,
  split-append_any p s sep,
  split-ne-nil p sep,
  add_to_head-append c (split p sep) (split s sep),
)

-- Splitting a join gives the parts back.
pub split-join :
    (p : Text) (ps : List Text) (sep : ℕ)
    → All (Lacks sep) (p ∷ ps)
    → split (join (p ∷ ps) sep) sep ≡ p ∷ ps
unfolding join
split-join p [] sep (hp, h) = split_of_Lacks p sep hp
split-join p (q ∷ ps) sep (hp, h) =
    split-append p (join (q ∷ ps) sep) sep hp ∙ ap (λ qs. p ∷ qs) (split-join q ps sep h)
