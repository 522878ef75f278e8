-- ===== src/Transfer/Pool/Results.antt =====
-- The results of a pool in the order of its instructions.
use mathlib.Core.Path.{subst}
use mathlib.Core.List.{Permᴰ, map-append}
use mathlib.Core.List.Permᴰ
use mathlib.Core.List.Permᴰ.{nil, cons, swap, trans}
use zipstash.Base.{
  ℕ, ◌≡◌, refl, sym, ◌∙◌, List, [], ◌∷◌, ◌++◌, append-nil, append_assoc, map, Result, ok, All-Perm,
}
use zipstash.Transfer.Pool.{
  Pool, start_pool, Step, launch, finish, fail, Steps, here, step, Returns, all_done,
}
use zipstash.Transfer.Pool.Complete.{AreResults, pool_complete}

module _ {A : Type 0} where
  -- An element that changes its place.
  moved :
      (i : A) (a b c d : List A) {xs ys : List A}
      → a ++ b ≡ c ++ d
      → xs ≡ a ++ i ∷ b
      → ys ≡ c ++ i ∷ d
      → Permᴰ xs ys
  moved i a b c d {xs} {ys} same before after =
      subst (λ t. Permᴰ t ys) (sym before)
        (subst (Permᴰ (a ++ i ∷ b)) (sym after) (
          trans (Permᴰ.middle i a b) (
            trans (subst (λ t. Permᴰ (i ∷ (a ++ b)) (i ∷ t)) same (Permᴰ.refl (i ∷ (a ++ b))))
              (Permᴰ.symm (Permᴰ.middle i c d)))))

module _ {I E : Type 0} where
  firsts : List (I × E) → List I
  firsts = map (λ d. d.0)

  -- A list of pairs is put in the order of its first components.
  ordered :
      (xs ys : List I)
      → Permᴰ xs ys
      → (ds : List (I × E)) → firsts ds ≡ xs
      → (es : List (I × E)) × (firsts es ≡ ys) × Permᴰ ds es
  unfolding firsts
  ordered _ _ nil [] h = ([], refl, nil)
  ordered _ _ nil (d ∷ ds) h = cc
  ordered _ _ (cons {l₁ = xs} {l₂ = ys} e p) [] h = cc
  ordered _ _ (cons {a} {b} {l₁ = xs} {l₂ = ys} e p) (d ∷ ds) h =
      let first : d.0 ≡ a = cc in
      let rest : firsts ds ≡ xs = cc in
      let (es, same, q) = ordered xs ys p ds rest in
      (d ∷ es, λ i. (first ∙ e) i ∷ same i, cons refl q)
  ordered _ _ (swap e f) [] h = cc
  ordered _ _ (swap e f) (d ∷ []) h = cc
  ordered _ _ (swap {a} {b} {l} e f) (d ∷ d' ∷ ds) h =
      let first : d.0 ≡ a = cc in
      let second : d'.0 ≡ b = cc in
      let rest : firsts ds ≡ l = cc in
      (d' ∷ d ∷ ds, λ i. (second ∙ f) i ∷ (first ∙ e) i ∷ rest i, swap refl refl)
  ordered _ _ (trans {l₁ = a} {l₂ = b} {l₃ = c} p q) ds h =
      let (es, same, r) = ordered a b p ds h in
      let (fs, same', r') = ordered b c q es same in (fs, same', trans r r')

module _ {I E : Type 0} (limit : ℕ) (run : I → Result E) where
  -- Every instruction in the pool.
  held : Pool I E → List I
  held s = s.waiting ++ (s.running ++ (map (λ b. b.0) s.blocked ++ map (λ d. d.0) s.done))

  Step-held : (s t : Pool I E) → Step limit run s t → Permᴰ (held s) (held t)
  unfolding held
  Step-held _ _ (launch i is rs bs ds h) =
      let tail = map (λ b. b.0) bs ++ map (λ d. d.0) ds in
      moved i [] (is ++ (rs ++ tail)) (is ++ rs) tail (simp append_assoc) refl (simp append_assoc)
  Step-held _ _ (finish i e is rs rs' bs ds h) =
      let tail = map (λ b. b.0) bs ++ map (λ d. d.0) ds in
      moved i (is ++ rs) (rs' ++ tail) (is ++ (rs ++ (rs' ++ tail))) []
        (simp (append_assoc, append-nil)) (simp append_assoc) (simp (append_assoc, map-append))
  Step-held _ _ (fail i x is rs rs' bs ds h) =
      let left = map (λ b. b.0) bs in
      let right = map (λ d. d.0) ds in
      moved i (is ++ rs) (rs' ++ (left ++ right)) (is ++ (rs ++ (rs' ++ left))) right
        (simp append_assoc) (simp append_assoc) (simp (append_assoc, map-append))

  Steps-held : (s t : Pool I E) → Steps limit run s t → Permᴰ (held s) (held t)
  Steps-held _ _ (here s) = Permᴰ.refl (held s)
  Steps-held s _ (step _ t u r h) = trans (Steps-held s t r) (Step-held t u h)

  -- However the parts interleave, if the pool returns results, they can be put in the order of the
  -- instructions: one for each, and the one that the instruction gave.
  pub pool_ordered :
      (is : List I) (t : Pool I E) (ds : List (I × E))
      → Steps limit run (start_pool is) t
      → Returns limit run t (ok ds)
      → (es : List (I × E)) × (map (λ d. d.0) es ≡ is) × Permᴰ ds es × AreResults limit run es
  unfolding held firsts
  pool_ordered is t _ r (all_done ds) =
      let p : Permᴰ is (map (λ d. d.0) ds) =
        subst (λ l. Permᴰ l (map (λ d. d.0) ds)) (append-nil is) (Steps-held (start_pool is) t r) in
      let results : AreResults limit run ds =
        let (a, _) = pool_complete limit run is t ds r (all_done ds) in a in
      let (es, same, q) = ordered (map (λ d. d.0) ds) is (Permᴰ.symm p) ds refl in
      (es, same, q, All-Perm (λ d. run d.0 ≡ ok d.1) ds es q results)
