-- ===== src/GoStd/Query.antt =====
-- Package net/url: `QueryEscape`.
pub mod Laws
use zipstash.Base.{
  ℕ, zero, suc, ◌≡◌, ◌≢◌, refl, ap, sym, ◌∙◌, ◌+◌, ◌-◌, ◌*◌, ◌/◌, ◌%◌, ◌<◌, Bool, true, false, ◌&&◌,
  ◌||◌, List, [], ◌∷◌, ◌++◌, Option, none, some, arith, ◌==◌, ltb, leb, if◌then◌else◌, Text, Lacks,
  All, All-append,
}

between : ℕ → ℕ → ℕ → Bool
between lo hi c = leb lo c && leb c hi

-- letters, digits and - _ . ~
unfoldable pub is_unreserved : ℕ → Bool
unfolding between
is_unreserved c =
    between b'a' b'z' c
    || between b'A' b'Z' c
    || between b'0' b'9' c
    || c == b'-'
    || c == b'_'
    || c == b'.'
    || c == b'~'

-- "0123456789ABCDEF"[n]
unfoldable pub upper_hex : ℕ → ℕ
upper_hex n = if ltb n 10 then n + 48 else n + 55

unfoldable pub escape_byte : ℕ → Text
escape_byte c =
    if is_unreserved c
    then c ∷ []
    else if c == 32
    then 43 ∷ []
    else 37 ∷ upper_hex (c / 16) ∷ upper_hex (c % 16) ∷ []

unfoldable pub query_escape : Text → Text
query_escape [] = []
query_escape (c ∷ s) = escape_byte c ++ query_escape s

abbrev pub AreBytes : Text → Type 0
AreBytes = All (λ c. c < 256)
