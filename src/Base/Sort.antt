-- ===== src/Base/Sort.antt =====
-- Sorting by a key, as an insertion sort: elements with the same key keep their order. Go's sort
-- leaves the order of those open.
use Prim.Native.Nat.{ℕ, ◌≤◌}
use mathlib.Core.Path.{◌≡◌, refl, sym, ap, ◌∙◌, subst}
use mathlib.Core.Logic.{◌≢◌, inl, inr}
use mathlib.Core.Bool.{Bool}
use mathlib.Core.List.{List, [], ◌∷◌, Permᴰ}
use mathlib.Core.List.Permᴰ
use mathlib.Core.List.Permᴰ.{nil, cons, swap, trans}
use native.Mathlib.Omega.{arith}
use zipstash.Base.Tests.{Bool-cases, ltb, ltb→lt, ltb_false→le, if◌then◌else◌}
use zipstash.Base.Lists.{All}

module _ {A : Type 0} (lt : A → A → Bool) where
  unfoldable pub insert_by : A → List A → List A
  insert_by e [] = e ∷ []
  insert_by e (f ∷ fs) = if lt f e then f ∷ insert_by e fs else e ∷ f ∷ fs

  unfoldable pub sort_by : List A → List A
  sort_by [] = []
  sort_by (e ∷ es) = insert_by e (sort_by es)

module _ {A : Type 0} where
  pub All-Perm : (Q : A → Type 0) (es fs : List A) → Permᴰ es fs → All Q es → All Q fs
  All-Perm Q _ _ nil h = h
  All-Perm Q _ _ (cons {l₁ = es} {l₂ = fs} e p) (h, hs) = (subst Q e h, All-Perm Q es fs p hs)
  All-Perm Q _ _ (swap e f) (h, (h', hs)) = (subst Q f h', (subst Q e h, hs))
  All-Perm Q _ _ (trans {l₁ = a} {l₂ = b} {l₃ = c} p q) h = All-Perm Q b c q (All-Perm Q a b p h)

module _ {A : Type 0} (lt : A → A → Bool) where
  insert-All : (Q : A → Type 0) (e : A) (es : List A) → Q e → All Q es → All Q (insert_by lt e es)
  unfolding insert_by
  insert-All Q e [] he hs = (he, tt)
  insert-All Q e (f ∷ fs) he (hf, hs) = elim (Bool-cases (lt f e)) [
    | inl less ↦ rw less (hf, insert-All Q e fs he hs)
    | inr first ↦ rw first (he, (hf, hs))
  ]

  pub sort-All : (Q : A → Type 0) (es : List A) → All Q es → All Q (sort_by lt es)
  unfolding sort_by
  sort-All Q [] h = h
  sort-All Q (e ∷ es) (h, hs) = insert-All Q e (sort_by lt es) h (sort-All Q es hs)

  insert-Perm : (e : A) (es : List A) → Permᴰ (insert_by lt e es) (e ∷ es)
  unfolding insert_by
  insert-Perm e [] = Permᴰ.refl _
  insert-Perm e (f ∷ fs) = elim (Bool-cases (lt f e)) [
    | inl less ↦ rw less (trans (cons refl (insert-Perm e fs)) (swap refl refl))
    | inr first ↦ rw first (Permᴰ.refl _)
  ]

  -- Sorting keeps the elements.
  pub sort-Perm : (es : List A) → Permᴰ (sort_by lt es) es
  unfolding sort_by
  sort-Perm [] = nil
  sort-Perm (e ∷ es) = trans (insert-Perm e (sort_by lt es)) (cons refl (sort-Perm es))

module _ {A : Type 0} (key : A → ℕ) where
  -- No two elements have the same key.
  abbrev pub AreDistinct : List A → Type 0
  AreDistinct [] = Unit
  AreDistinct (e ∷ es) = All (λ f. key e ≢ key f) es × AreDistinct es

  abbrev pub Ascending : List A → Type 0
  Ascending [] = Unit
  Ascending (e ∷ es) = All (λ f. key e ≤ key f) es × Ascending es

  AreDistinct-Perm : (es fs : List A) → Permᴰ es fs → AreDistinct es → AreDistinct fs
  AreDistinct-Perm _ _ nil h = h
  AreDistinct-Perm _ _ (cons {a} {l₁ = es} {l₂ = fs} e p) (h, hs) = (
    subst (λ x. All (λ f. key x ≢ key f) fs) e (All-Perm (λ f. key a ≢ key f) es fs p h),
    AreDistinct-Perm es fs p hs,
  )
  AreDistinct-Perm _ _ (swap {a} {b} {l} e f) ((h, h1), (h2, hs)) = (
    (
      λ s. h (ap (λ x. key x) e ∙ sym s ∙ sym (ap (λ x. key x) f)),
      subst (λ x. All (λ g. key x ≢ key g) l) f h2,
    ),
    (subst (λ x. All (λ g. key x ≢ key g) l) e h1, hs),
  )
  AreDistinct-Perm _ _ (trans {l₁ = a} {l₂ = b} {l₃ = c} p q) h =
      AreDistinct-Perm b c q (AreDistinct-Perm a b p h)

  All-le : (n m : ℕ) (es : List A) → n ≤ m → All (λ f. m ≤ key f) es → All (λ f. n ≤ key f) es
  All-le n m [] h _ = tt
  All-le n m (e ∷ es) h (h1, hs) = (omega arith, All-le n m es h hs)

-- The order is that of the keys on the elements that satisfy `P`.
module _ {A : Type 0} (lt : A → A → Bool) (key : A → ℕ) (P : A → Type 0)
    (agree : (e f : A) → P e → P f → lt e f ≡ ltb (key e) (key f)) where
  -- Two elements with different keys can be inserted in either order.
  insert-insert :
      (e f : A) (gs : List A)
      → P e
      → P f
      → All P gs
      → key e ≢ key f
      → insert_by lt e (insert_by lt f gs) ≡ insert_by lt f (insert_by lt e gs)
  unfolding insert_by
  insert-insert e f [] he hf hs d = ground (arith, agree e f he hf, agree f e hf he)
  insert-insert e f (g ∷ gs) he hf (hg, hs) d = ground (
    arith,
    agree e f he hf,
    agree f e hf he,
    agree g f hg hf,
    agree g e hg he,
    insert-insert e f gs he hf hs d,
  )

  -- The result of sorting does not depend on the order before, if the keys differ.
  pub sort-sort :
      (es fs : List A) → Permᴰ es fs → All P es → AreDistinct key es → sort_by lt es ≡ sort_by lt fs
  unfolding sort_by
  sort-sort _ _ nil h d = refl
  sort-sort _ _ (cons {a} {b} {l₁ = es} {l₂ = fs} e p) (h, hs) (d, ds) =
      rw (e, sort-sort es fs p hs ds) refl
  sort-sort _ _ (swap {a} {b} {l} e f) (h, (h', hs)) ((d, d1), (d2, ds)) =
      insert-insert a b (sort_by lt l) h h' (sort-All lt P l hs) d ∙ rw (e, f) refl
  sort-sort _ _ (trans {l₁ = a} {l₂ = b} {l₃ = c} p q) h d =
      sort-sort a b p h d ∙ sort-sort b c q (All-Perm P a b p h) (AreDistinct-Perm key a b p d)

  insert-Ascending :
      (e : A) (es : List A) → P e → All P es → Ascending key es → Ascending key (insert_by lt e es)
  unfolding insert_by
  insert-Ascending e [] he hs a = (tt, tt)
  insert-Ascending e (f ∷ fs) he (hf, hs) (a, ascend) = elim (Bool-cases (ltb (key f) (key e))) [
    | inl less ↦
        let le : key f ≤ key e = let less' = ltb→lt (key f) (key e) less in omega arith in
        rw (agree f e hf he, less)
          (insert-All lt (λ g. key f ≤ key g) e fs le a, insert-Ascending e fs he hs ascend)
    | inr first ↦
        let le : key e ≤ key f = ltb_false→le (key f) (key e) first in
        rw (agree f e hf he, first) ((le, All-le key (key e) (key f) fs le a), (a, ascend))
  ]

  pub sort-Ascending : (es : List A) → All P es → Ascending key (sort_by lt es)
  unfolding sort_by
  sort-Ascending [] h = tt
  sort-Ascending (e ∷ es) (h, hs) =
      insert-Ascending e (sort_by lt es) h (sort-All lt P es hs) (sort-Ascending es hs)
