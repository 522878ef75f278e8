-- ===== src/GoStd/Words.antt =====
-- Package strings: `Split` by a word, `Contains`, `TrimSpace`.
use zipstash.Base.{
  ℕ, zero, suc, ◌-◌, ◌≡◌, refl, ap, Bool, true, false, ◌||◌, List, [], ◌∷◌, ◌++◌, arith, ◌==◌,
  if◌then◌else◌, Text, has_prefix, All, length, inl, inr, Bool-cases,
}
use zipstash.GoStd.Strings.{add_to_head}

-- What is left after `skip` more bytes of an occurrence, split.
split_from : Text → ℕ → Text → List Text
unfolding add_to_head
split_from sep skip [] = [] ∷ []
split_from sep (suc skip) (c ∷ s) = split_from sep skip s
split_from sep zero (c ∷ s) =
    let behind = split_from sep (length sep - 1) s in
    let on = split_from sep 0 s in if has_prefix (c ∷ s) sep then [] ∷ behind else add_to_head c on

-- strings.Split(s, sep) for a separator that is not empty: the occurrences from left to right, which
-- do not overlap
unfoldable pub split_word : Text → Text → List Text
unfolding split_from
split_word s sep = split_from sep 0 s

-- strings.Contains(s, sep) for a separator that is not empty
unfoldable pub contains_word : Text → Text → Bool
contains_word [] sep = false
contains_word (c ∷ s) sep = has_prefix (c ∷ s) sep || contains_word s sep

-- The white space of ASCII.
unfoldable pub is_space : ℕ → Bool
is_space c = c == 32 || c == 9 || c == 10 || c == 11 || c == 12 || c == 13

trim_left : Text → Text
trim_left [] = []
trim_left (c ∷ s) = let rest = trim_left s in if is_space c then rest else c ∷ s

unless_blank : ℕ → Text → Text
unless_blank c [] = if is_space c then [] else c ∷ []
unless_blank c (d ∷ s) = c ∷ d ∷ s

trim_right : Text → Text
unfolding unless_blank
trim_right [] = []
trim_right (c ∷ s) = unless_blank c (trim_right s)

-- strings.TrimSpace(s) for a text of ASCII
unfoldable pub trim_space : Text → Text
unfolding trim_left trim_right
trim_space s = trim_right (trim_left s)

split_from-absent : (sep s : Text) → contains_word s sep ≡ false → split_from sep 0 s ≡ s ∷ []
unfolding split_from contains_word add_to_head
split_from-absent sep [] h = refl
split_from-absent sep (c ∷ s) h = ground (arith, split_from-absent sep s)

split_from_some :
    (sep : Text) (k : ℕ) (s : Text) → (p : Text) × (ps : List Text) × (split_from sep k s ≡ p ∷ ps)
unfolding split_from add_to_head
split_from_some sep k [] = ([], [], refl)
split_from_some sep (suc k) (c ∷ s) = split_from_some sep k s
split_from_some sep zero (c ∷ s) = elim (Bool-cases (has_prefix (c ∷ s) sep)) [
  | inl here ↦ rw here ([], split_from sep (length sep - 1) s, refl)
  | inr there ↦ let (p, ps, e) = split_from_some sep 0 s in rw (there, e) (c ∷ p, ps, refl)
]

split_from-present :
    (sep s : Text)
    → contains_word s sep ≡ true
    → (p q : Text) × (ps : List Text) × (split_from sep 0 s ≡ p ∷ q ∷ ps)
unfolding split_from contains_word add_to_head
split_from-present sep [] h = cc
split_from-present sep (c ∷ s) h = elim (Bool-cases (has_prefix (c ∷ s) sep)) [
  | inl here ↦
      let (q, ps, e) = split_from_some sep (length sep - 1) s in rw (here, e) ([], q, ps, refl)
  | inr there ↦
      let (p, q, ps, e) = split_from-present sep s (rw there at h) in
      rw (there, e) (c ∷ p, q, ps, refl)
]

-- A text without the separator is one part, any other text at least two.
pub split_word-absent : (s sep : Text) → contains_word s sep ≡ false → split_word s sep ≡ s ∷ []
unfolding split_word
split_word-absent s sep h = split_from-absent sep s h

pub split_word-present :
    (s sep : Text)
    → contains_word s sep ≡ true
    → (p q : Text) × (ps : List Text) × (split_word s sep ≡ p ∷ q ∷ ps)
unfolding split_word
split_word-present s sep h = split_from-present sep s h

split_from-skip : (sep p s : Text) → split_from sep (length p) (p ++ s) ≡ split_from sep 0 s
unfolding split_from
split_from-skip sep [] s = refl
split_from-skip sep (c ∷ p) s = split_from-skip sep p s

-- A text that begins with the separator.
pub split_word-leading :
    (c : ℕ) (sep s : Text)
    → has_prefix (c ∷ sep ++ s) (c ∷ sep) ≡ true
    → split_word (c ∷ sep ++ s) (c ∷ sep) ≡ [] ∷ split_word s (c ∷ sep)
unfolding split_word split_from
split_word-leading c sep s h =
    let n : suc (length sep) - 1 ≡ length sep = omega arith in
    rw (h, n) (ap (λ ps. [] ∷ ps) (split_from-skip (c ∷ sep) sep s))

-- No white space.
abbrev pub IsUnspaced : Text → Type 0
IsUnspaced = All (λ c. is_space c ≡ false)

trim_right-id : (s : Text) → IsUnspaced s → trim_right s ≡ s
unfolding trim_right unless_blank
trim_right-id [] h = refl
trim_right-id (c ∷ []) (h, _) = ground arith
trim_right-id (c ∷ d ∷ s) (h, hs) = rw (trim_right-id (d ∷ s) hs) refl

trim_left-id : (s : Text) → IsUnspaced s → trim_left s ≡ s
unfolding trim_left
trim_left-id [] h = refl
trim_left-id (c ∷ s) (h, hs) = ground arith

-- A space before a word is cut off.
pub trim_space-word : (s : Text) → IsUnspaced s → trim_space (32 ∷ s) ≡ s
unfolding trim_space trim_left is_space
trim_space-word s h = rw (trim_left-id s h) (trim_right-id s h)
