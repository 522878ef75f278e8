-- ===== src/Base/Bytes.antt =====
-- Go strings as lists of bytes, and the tests on them.
use Prim.Native.Nat.{ℕ}
use Prim.Native.Char.{code}
use Prim.Native.String.{String}
use mathlib.Core.Path.{◌≡◌, refl, ap, ◌∙◌, sym}
use mathlib.Core.Logic.{◌↔◌, ◌≢◌}
use mathlib.Core.Bool.{Bool, true, false, ◌&&◌}
use mathlib.Core.List.{List, [], ◌∷◌, ◌++◌}
use native.Mathlib.Omega.{arith}
use zipstash.Base.Tests.{◌==◌}
use zipstash.Base.Lists.{All}

abbrev pub Text : Type 0
Text = List ℕ

-- The bytes of an ASCII literal.
unfoldable pub codes : String → Text
codes String.[] = []
codes (String.◌∷◌ c s) = code c ∷ codes s

abbrev pub empty : Text
empty = []

-- s == t
unfoldable pub text_eq : Text → Text → Bool
text_eq [] [] = true
text_eq [] (_ ∷ _) = false
text_eq (_ ∷ _) [] = false
text_eq (x ∷ xs) (y ∷ ys) = x == y && text_eq xs ys

-- strings.HasPrefix(s, prefix)
unfoldable pub has_prefix : Text → Text → Bool
has_prefix s [] = true
has_prefix [] (_ ∷ _) = false
has_prefix (x ∷ xs) (y ∷ ys) = x == y && has_prefix xs ys

pub text_eq_refl : (s : Text) → text_eq s s ≡ true
unfolding text_eq
text_eq_refl [] = refl
text_eq_refl (x ∷ xs) = ground (arith, text_eq_refl xs)

pub text_eq→eq : (s t : Text) → text_eq s t ≡ true → s ≡ t
unfolding text_eq
text_eq→eq [] [] h = refl
text_eq→eq [] (_ ∷ _) h = cc
text_eq→eq (_ ∷ _) [] h = cc
text_eq→eq (x ∷ xs) (y ∷ ys) h = ground (arith, text_eq→eq xs ys)

pub eq→text_eq : (s t : Text) → s ≡ t → text_eq s t ≡ true
eq→text_eq s t h = ap (text_eq s) (sym h) ∙ text_eq_refl s

pub text_eq_iff : (s t : Text) → (text_eq s t ≡ true) ↔ (s ≡ t)
text_eq_iff s t = (text_eq→eq s t, eq→text_eq s t)

pub ne→text_eq_false : (s t : Text) → s ≢ t → text_eq s t ≡ false
unfolding text_eq
ne→text_eq_false s t h = ground (arith, text_eq→eq s t)

pub has_prefix-append : (s t : Text) → has_prefix (s ++ t) s ≡ true
unfolding has_prefix
has_prefix-append [] t = refl
has_prefix-append (x ∷ xs) t = ground (arith, has_prefix-append xs t)

pub has_prefix-cancel : (p s t : Text) → has_prefix (p ++ s) (p ++ t) ≡ has_prefix s t
unfolding has_prefix
has_prefix-cancel [] s t = refl
has_prefix-cancel (x ∷ p) s t = ground (arith, has_prefix-cancel p s t)

pub has_prefix-cons : (x : ℕ) (s t : Text) → has_prefix (x ∷ s) (x ∷ t) ≡ has_prefix s t
unfolding has_prefix
has_prefix-cons x s t = ground arith

pub has_prefix-nil : (s : Text) → has_prefix s [] ≡ true
unfolding has_prefix
has_prefix-nil s = ground arith

pub ruleset prefix_laws = (has_prefix-cancel, has_prefix-cons, has_prefix-nil, has_prefix-append)

-- A prefix leaves a rest.
pub has_prefix-rest : (s p : Text) → has_prefix s p ≡ true → (t : Text) × (s ≡ p ++ t)
unfolding has_prefix
has_prefix-rest s [] h = (s, refl)
has_prefix-rest [] (y ∷ ys) h = cc
has_prefix-rest (x ∷ xs) (y ∷ ys) h =
    let r : (t : Text) × (xs ≡ ys ++ t) = has_prefix-rest xs ys (ground arith) in
    (r.0, ground (arith, r.1))

-- No byte of the text is `b`.
abbrev pub Lacks : ℕ → Text → Type 0
Lacks b = All (λ c. c ≢ b)
