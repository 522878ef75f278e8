-- ===== src/Transfer/Numbered.antt =====
-- Lists whose keys count up: the parts of a file in the order of their numbers.
use zipstash.Base.{
  ℕ, ◌+◌, ◌≡◌, ◌≢◌, ◌<◌, ◌≤◌, refl, Bool, false, List, [], ◌∷◌, length, All, arith, ltb,
  le→ltb_false, sort_by, insert_by, AreDistinct,
}

module _ {A : Type 0} (key : A → ℕ) where
  abbrev pub CountsFrom : ℕ → List A → Type 0
  CountsFrom n [] = Unit
  CountsFrom n (a ∷ xs) = (key a ≡ n) × CountsFrom (n + 1) xs

  CountsFrom-ne : (n k : ℕ) (xs : List A) → CountsFrom n xs → k < n → All (λ a. k ≢ key a) xs
  CountsFrom-ne n k [] h lt = tt
  CountsFrom-ne n k (a ∷ xs) (e, h) lt =
      (omega (arith, e), CountsFrom-ne (n + 1) k xs h (omega arith))

  pub CountsFrom-AreDistinct : (n : ℕ) (xs : List A) → CountsFrom n xs → AreDistinct key xs
  CountsFrom-AreDistinct n [] h = tt
  CountsFrom-AreDistinct n (a ∷ xs) (e, h) =
      (CountsFrom-ne (n + 1) (key a) xs h (omega (arith, e)), CountsFrom-AreDistinct (n + 1) xs h)

  pub CountsFrom-below :
      (n m : ℕ) (xs : List A) → CountsFrom n xs → n + length xs ≤ m → All (λ a. key a < m) xs
  CountsFrom-below n m [] h le = tt
  CountsFrom-below n m (a ∷ xs) (e, h) le =
      (omega (arith, e), CountsFrom-below (n + 1) m xs h (omega arith))

-- A list whose keys count up is sorted already.
module _ {A : Type 0} (key : A → ℕ) (lt : A → A → Bool) (bound : ℕ)
    (agree : (a b : A) → key a < bound → key b < bound → lt a b ≡ ltb (key a) (key b)) where
  first-stays :
      (n : ℕ) (a : A) (xs : List A)
      → key a ≡ n
      → CountsFrom key (n + 1) xs
      → n + 1 < bound
      → insert_by lt a xs ≡ a ∷ xs
  unfolding insert_by
  first-stays n a [] e h k = refl
  first-stays n a (b ∷ xs) e (e', h) k =
      let no : ltb (key b) (key a) ≡ false = le→ltb_false (key b) (key a) (omega (arith, e, e')) in
      rw (agree b a (omega (arith, e')) (omega (arith, e)), no) refl

  pub sort-CountsFrom :
      (n : ℕ) (xs : List A) → CountsFrom key n xs → n + length xs + 1 < bound → sort_by lt xs ≡ xs
  unfolding sort_by
  sort-CountsFrom n [] h k = refl
  sort-CountsFrom n (a ∷ xs) (e, h) k =
      rw (sort-CountsFrom (n + 1) xs h (omega arith)) (first-stays n a xs e h (omega arith))
