-- ===== src/Base/Lists.antt =====
-- Lists measured by native numbers, with the library's names, and predicates on all elements.
use Prim.Native.Nat.{ℕ, zero, suc, ◌+◌, ◌-◌, ◌≤◌}
use mathlib.Core.Path.{◌≡◌, refl, ap}
use mathlib.Core.List.{List, [], ◌∷◌, ◌++◌, map}
use native.Mathlib.Omega.{arith}

module _ {ℓ} {A : Type ℓ} where
  abbrev pub length : List A → ℕ
  length [] = 0
  length (x ∷ xs) = suc (length xs)

  abbrev pub take : ℕ → List A → List A
  take zero xs = []
  take (suc n) [] = []
  take (suc n) (x ∷ xs) = x ∷ take n xs

  abbrev pub drop : ℕ → List A → List A
  drop zero xs = xs
  drop (suc n) [] = []
  drop (suc n) (x ∷ xs) = drop n xs

  pub length-append : (xs ys : List A) → length (xs ++ ys) ≡ length xs + length ys
  length-append [] ys = omega arith
  length-append (x ∷ xs) ys = omega (arith, length-append xs ys)

  pub take-append-drop : (n : ℕ) (xs : List A) → take n xs ++ drop n xs ≡ xs
  take-append-drop zero xs = refl
  take-append-drop (suc n) [] = refl
  take-append-drop (suc n) (x ∷ xs) = ap (λ ys. x ∷ ys) (take-append-drop n xs)

  pub take_all : (n : ℕ) (xs : List A) → length xs ≤ n → take n xs ≡ xs
  take_all zero [] h = refl
  take_all zero (x ∷ xs) h = absurd (omega arith)
  take_all (suc n) [] h = refl
  take_all (suc n) (x ∷ xs) h = ap (λ ys. x ∷ ys) (take_all n xs (omega arith))

  pub length-drop : (n : ℕ) (xs : List A) → length (drop n xs) ≡ length xs - n
  length-drop zero xs = omega arith
  length-drop (suc n) [] = omega arith
  length-drop (suc n) (x ∷ xs) = omega (arith, length-drop n xs)

  pub length-take_le : (n : ℕ) (xs : List A) → n ≤ length xs → length (take n xs) ≡ n
  length-take_le zero xs h = refl
  length-take_le (suc n) [] h = absurd (omega arith)
  length-take_le (suc n) (x ∷ xs) h = ap suc (length-take_le n xs (omega arith))

  abbrev pub take_drop : ℕ → ℕ → List A → List A
  take_drop n m xs = take n (drop m xs)

module _ {ℓ κ} {A : Type ℓ} (P : A → Type κ) where
  abbrev pub All : List A → Type κ
  All [] = Unit
  All (x ∷ xs) = P x × All xs

  pub All-append : (xs ys : List A) → All xs → All ys → All (xs ++ ys)
  All-append [] ys _ hy = hy
  All-append (x ∷ xs) ys (px, hx) hy = (px, All-append xs ys hx hy)

module _ {ℓ κ} {A : Type ℓ} {B : Type κ} (f : A → B) where
  pub length-map : (xs : List A) → length (map f xs) ≡ length xs
  length-map [] = refl
  length-map (x ∷ xs) = ap suc (length-map xs)
