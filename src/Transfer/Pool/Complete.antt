-- ===== src/Transfer/Pool/Complete.antt =====
-- What the pool returns, and how many parts are in transfer at a time.
use zipstash.Base.{
  ℕ, ◌+◌, ◌≤◌, ◌≡◌, refl, ◌∙◌, Bool, List, [], ◌∷◌, ◌++◌, length-append, Result, ok, err, Err,
  arith, if◌then◌else◌, All, All-append,
}
use zipstash.Transfer.Pool.{
  Pool, start_pool, in_use, Step, launch, finish, fail, Steps, here, step, Returns, all_done,
  first_error,
}

module _ {I : Type 0} where
  -- How many elements satisfy a test.
  abbrev pub count : (I → Bool) → List I → ℕ
  count p [] = 0
  count p (i ∷ is) = (if p i then 1 else 0) + count p is

  count-append : (p : I → Bool) (is js : List I) → count p (is ++ js) ≡ count p is + count p js
  count-append p [] js = omega arith
  count-append p (i ∷ is) js = omega (arith, count-append p is js)

module _ {I E : Type 0} (limit : ℕ) (run : I → Result E) where
  -- How often an instruction that satisfies the test stands anywhere in the pool.
  abbrev tally : (I → Bool) → Pool I E → ℕ
  tally p s =
      count p s.waiting
      + count p s.running
      + count (λ b. p b.0) s.blocked
      + count (λ d. p d.0) s.done

  Step-tally : (p : I → Bool) (s t : Pool I E) → Step limit run s t → tally p s ≡ tally p t
  Step-tally p _ _ (launch i is rs bs ds h) = omega (arith, count-append p rs (i ∷ []))
  Step-tally p _ _ (finish i e is rs rs' bs ds h) = omega (
    arith,
    count-append p rs (i ∷ rs'),
    count-append p rs rs',
    count-append (λ d. p d.0) ds ((i, e) ∷ []),
  )
  Step-tally p _ _ (fail i x is rs rs' bs ds h) = omega (
    arith,
    count-append p rs (i ∷ rs'),
    count-append p rs rs',
    count-append (λ b. p b.0) bs ((i, x) ∷ []),
  )

  Steps-tally : (p : I → Bool) (s t : Pool I E) → Steps limit run s t → tally p s ≡ tally p t
  Steps-tally p _ _ (here s) = refl
  Steps-tally p _ _ (step s t u r h) = Steps-tally p s t r ∙ Step-tally p t u h

  -- The results are those of their instructions.
  abbrev pub AreResults : List (I × E) → Type 0
  AreResults = All (λ d. run d.0 ≡ ok d.1)

  abbrev AreErrors : List (I × Err) → Type 0
  AreErrors = All (λ b. run b.0 ≡ err b.1)

  Step-AreResults :
      (s t : Pool I E)
      → Step limit run s t
      → AreResults s.done × AreErrors s.blocked
      → AreResults t.done × AreErrors t.blocked
  Step-AreResults _ _ (launch i is rs bs ds h) a = a
  Step-AreResults _ _ (finish i e is rs rs' bs ds h) (a, b) =
      (All-append _ ds ((i, e) ∷ []) a (h, tt), b)
  Step-AreResults _ _ (fail i x is rs rs' bs ds h) (a, b) =
      (a, All-append _ bs ((i, x) ∷ []) b (h, tt))

  Steps-AreResults :
      (s t : Pool I E)
      → Steps limit run s t
      → AreResults s.done × AreErrors s.blocked
      → AreResults t.done × AreErrors t.blocked
  Steps-AreResults _ _ (here s) a = a
  Steps-AreResults s _ (step _ t u r h) a = Step-AreResults t u h (Steps-AreResults s t r a)

  Step-in_use : (s t : Pool I E) → Step limit run s t → in_use s ≤ limit → in_use t ≤ limit
  Step-in_use _ _ (launch i is rs bs ds h) k = omega (arith, length-append rs (i ∷ []))
  Step-in_use _ _ (finish i e is rs rs' bs ds h) k =
      omega (arith, length-append rs (i ∷ rs'), length-append rs rs')
  Step-in_use _ _ (fail i x is rs rs' bs ds h) k =
      omega
        (arith, length-append rs (i ∷ rs'), length-append rs rs', length-append bs ((i, x) ∷ []))

  Steps-in_use : (s t : Pool I E) → Steps limit run s t → in_use s ≤ limit → in_use t ≤ limit
  Steps-in_use _ _ (here s) k = k
  Steps-in_use s _ (step _ t u r h) k = Step-in_use t u h (Steps-in_use s t r k)

  -- However the parts interleave, at most `limit` of them are in transfer or wait to report an error.
  pub pool_bounded :
      (is : List I) (t : Pool I E) → Steps limit run (start_pool is) t → in_use t ≤ limit
  pool_bounded is t r = Steps-in_use (start_pool is) t r (omega arith)

  -- However the parts interleave, if the pool returns results, they are one for each instruction, in
  -- some order, each the one that its instruction gave: every test holds of as many instructions of
  -- the results as of the list.
  pub pool_complete :
      (is : List I) (t : Pool I E) (ds : List (I × E))
      → Steps limit run (start_pool is) t
      → Returns limit run t (ok ds)
      → AreResults ds × ((p : I → Bool) → count (λ d. p d.0) ds ≡ count p is)
  pool_complete is _ _ r (all_done ds) = (
    (Steps-AreResults (start_pool is) _ r (tt, tt)).0,
    λ p. omega (arith, Steps-tally p (start_pool is) _ r),
  )

  -- What holds of all instructions holds of those in the pool.
  abbrev Holds : (I → Type 0) → Pool I E → Type 0
  Holds P s = All P s.waiting × All P s.running × All (λ b. P b.0) s.blocked

  All-split :
      (P : I → Type 0) (i : I) (rs rs' : List I) → All P (rs ++ i ∷ rs') → P i × All P (rs ++ rs')
  All-split P i [] rs' (h, hs) = (h, hs)
  All-split P i (r ∷ rs) rs' (h, hs) = let (hi, rest) = All-split P i rs rs' hs in (hi, (h, rest))

  Step-Holds : (P : I → Type 0) (s t : Pool I E) → Step limit run s t → Holds P s → Holds P t
  Step-Holds P _ _ (launch i is rs bs ds h) ((a, b), c, d) =
      (b, All-append P rs (i ∷ []) c (a, tt), d)
  Step-Holds P _ _ (finish i e is rs rs' bs ds h) (a, b, c) = (a, (All-split P i rs rs' b).1, c)
  Step-Holds P _ _ (fail i x is rs rs' bs ds h) (a, b, c) =
      let (hi, rest) = All-split P i rs rs' b in
      (a, rest, All-append (λ b. P b.0) bs ((i, x) ∷ []) c (hi, tt))

  Steps-Holds : (P : I → Type 0) (s t : Pool I E) → Steps limit run s t → Holds P s → Holds P t
  Steps-Holds P _ _ (here s) a = a
  Steps-Holds P s _ (step _ t u r h) a = Step-Holds P t u h (Steps-Holds P s t r a)

  All-middle : {A : Type 0} (P : A → Type 0) (b : A) (bs bs' : List A) → All P (bs ++ b ∷ bs') → P b
  All-middle P b [] bs' (h, _) = h
  All-middle P b (c ∷ bs) bs' (_, h) = All-middle P b bs bs' h

  -- An error that the pool returns is that of one of the instructions: what holds of them all holds
  -- of an instruction that gave it.
  pub pool_failed :
      (P : I → Type 0) (is : List I) (t : Pool I E) (x : Err)
      → All P is
      → Steps limit run (start_pool is) t
      → Returns limit run t (err x)
      → (i : I) × (run i ≡ err x) × P i
  pool_failed P is _ _ all r (first_error i x rs bs bs' ds) = (
    i,
    All-middle (λ b. run b.0 ≡ err b.1) (i, x) bs bs'
        (Steps-AreResults (start_pool is) _ r (tt, tt)).1,
    All-middle (λ b. P b.0) (i, x) bs bs' (Steps-Holds P (start_pool is) _ r (all, tt, tt)).2,
  )
