-- ===== src/GoStd/Query/Laws.antt =====
-- An escaped text can be read back, so two texts are escaped alike only if they are the same.
use zipstash.Base.{
  ℕ, ◌≡◌, ◌≢◌, refl, ap, ◌∙◌, ◌+◌, ◌-◌, ◌*◌, ◌/◌, ◌%◌, ◌<◌, true, [], ◌∷◌, ◌++◌, inl, inr,
  Bool-cases, arith, ◌==◌, ltb, if◌then◌else◌, Text, Lacks, All-append,
}
use zipstash.GoStd.Query.{is_unreserved, upper_hex, escape_byte, query_escape, AreBytes}

from_hex : ℕ → ℕ
from_hex d = if ltb d 58 then d - 48 else d - 55

from_hex-upper_hex : (n : ℕ) → n < 16 → from_hex (upper_hex n) ≡ n
unfolding from_hex upper_hex
from_hex-upper_hex n h = ground arith

from_plus : ℕ → ℕ
from_plus c = if c == 43 then 32 else c

-- Reads a text back: "+" is a space, "%XY" the byte with these digits.
unescape : Text → Text
unescape [] = []
unescape (c ∷ []) = from_plus c ∷ []
unescape (c ∷ d ∷ []) = from_plus c ∷ from_plus d ∷ []
unescape (c ∷ d ∷ e ∷ s) =
    let coded = (from_hex d * 16 + from_hex e) ∷ unescape s in
    let plain = from_plus c ∷ unescape (d ∷ e ∷ s) in if c == 37 then coded else plain

unescape_plain : (c : ℕ) (s : Text) → c ≢ 37 → unescape (c ∷ s) ≡ from_plus c ∷ unescape s
unfolding unescape
unescape_plain c [] h = refl
unescape_plain c (d ∷ []) h = refl
unescape_plain c (d ∷ e ∷ s) h = ground arith

unreserved_ne : (c : ℕ) → is_unreserved c ≡ true → (c ≢ 37) × (c ≢ 43) × (c ≢ 35)
unfolding is_unreserved
unreserved_ne c h = ground arith

from_plus_ne : (c : ℕ) → c ≢ 43 → from_plus c ≡ c
unfolding from_plus
from_plus_ne c h = ground arith

unescape_coded :
    (c : ℕ) (s : Text)
    → c < 256
    → unescape (37 ∷ upper_hex (c / 16) ∷ upper_hex (c % 16) ∷ s) ≡ c ∷ unescape s
unfolding unescape
unescape_coded c s h =
    rw (from_hex-upper_hex (c / 16) (omega arith), from_hex-upper_hex (c % 16) (omega arith))
      (ap (λ d. d ∷ unescape s) (omega arith))

space_back : from_plus 43 ≡ 32
unfolding from_plus
space_back = refl

unescape_byte : (c : ℕ) (s : Text) → c < 256 → unescape (escape_byte c ++ s) ≡ c ∷ unescape s
unfolding escape_byte
unescape_byte c s h = elim (Bool-cases (is_unreserved c)) [
  | inl plain ↦
      let n : (c ≢ 37) × (c ≢ 43) × (c ≢ 35) = unreserved_ne c plain in
      rw (plain, unescape_plain c s n.0) (ground (arith, n.1, from_plus_ne c))
  | inr coded ↦ rw coded (elim (Bool-cases (c == 32)) [
    | inl space ↦ rw (space, unescape_plain 43 s (omega arith), space_back) (ground arith)
    | inr other ↦ rw other (unescape_coded c s h)
  ])
]

unescape-query_escape : (s : Text) → AreBytes s → unescape (query_escape s) ≡ s
unfolding query_escape unescape
unescape-query_escape [] h = refl
unescape-query_escape (c ∷ s) (hc, h) =
    unescape_byte c (query_escape s) hc ∙ ap (λ t. c ∷ t) (unescape-query_escape s h)

pub query_escape_injective :
    (s t : Text) → AreBytes s → AreBytes t → query_escape s ≡ query_escape t → s ≡ t
query_escape_injective s t hs ht e = cc (unescape-query_escape s hs, unescape-query_escape t ht)

escape_byte-Lacks : (c : ℕ) → Lacks 35 (escape_byte c)
unfolding escape_byte upper_hex
escape_byte-Lacks c = elim (Bool-cases (is_unreserved c)) [
  | inl plain ↦ rw plain ((unreserved_ne c plain).2, tt)
  | inr coded ↦ rw coded (ground arith)
]

-- An escaped text holds no "#".
pub query_escape-Lacks : (s : Text) → Lacks 35 (query_escape s)
unfolding query_escape
query_escape-Lacks [] = tt
query_escape-Lacks (c ∷ s) =
    All-append (λ d. d ≢ 35) (escape_byte c) (query_escape s) (escape_byte-Lacks c)
      (query_escape-Lacks s)
