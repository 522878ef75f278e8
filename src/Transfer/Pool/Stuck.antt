-- ===== src/Transfer/Pool/Stuck.antt =====
-- When the pool goes on, and when it does not.
use mathlib.Core.Path.{subst}
use zipstash.Base.{
  ℕ, ◌+◌, ◌<◌, ◌≤◌, ◌≡◌, ◌⊎◌, inl, inr, refl, sym, List, [], ◌∷◌, ◌++◌, length, length-append, take,
  drop, take-append-drop, length-drop, length-take_le, Result, ok, err, Err, arith,
}
use zipstash.Transfer.Pool.{
  Pool, start_pool, Step, launch, finish, fail, Steps, here, step, Returns, all_done, first_error,
}

module _ {I E : Type 0} (limit : ℕ) (run : I → Result E) where
  -- It can return, or something can happen.
  abbrev pub Goes : Pool I E → Type 0
  Goes s =
      ((r : Result (List (I × E))) × Returns limit run s r) ⊎ ((t : Pool I E) × Step limit run s t)

  -- A part that is in transfer ends.
  ends :
      (i : I) (is rs : List I) (bs : List (I × Err)) (ds : List (I × E))
      → ((e : E) × (run i ≡ ok e)) ⊎ ((x : Err) × (run i ≡ err x))
      → Goes (record { waiting = is; running = i ∷ rs; blocked = bs; done = ds })
  ends i is rs bs ds (inl (e, h)) = inr (_, finish i e is [] rs bs ds h)
  ends i is rs bs ds (inr (x, h)) = inr (_, fail i x is [] rs bs ds h)

  -- While fewer goroutines than `limit` wait to report an error, the pool returns or goes on, if each
  -- part ends with a result or an error.
  pub pool-Goes :
      (s : Pool I E)
      → ((i : I) → ((e : E) × (run i ≡ ok e)) ⊎ ((x : Err) × (run i ≡ err x)))
      → length s.blocked < limit
      → Goes s
  pool-Goes s total h = go s.waiting s.running s.blocked s.done total h
    where
      go :
          (is rs : List I) (bs : List (I × Err)) (ds : List (I × E))
          → ((i : I) → ((e : E) × (run i ≡ ok e)) ⊎ ((x : Err) × (run i ≡ err x)))
          → length bs < limit
          → Goes (record { waiting = is; running = rs; blocked = bs; done = ds })
      go is (i ∷ rs) bs ds total h = ends i is rs bs ds (total i)
      go [] [] [] ds total h = inl (_, all_done ds)
      go [] [] ((i, x) ∷ bs) ds total h = inl (_, first_error i x [] [] bs ds)
      go (i ∷ is) [] bs ds total h = inr (_, launch i is [] bs ds (omega arith))

  -- Nothing can happen, and the caller is not at the select.
  pub record IsStuck (s : Pool I E) : Type 0 where
    pub no_step : (t : Pool I E) → ¬ Step limit run s t
    pub no_return : (r : Result (List (I × E))) → ¬ Returns limit run s r

  no-Step_from :
      (s t : Pool I E) → length s.blocked ≡ limit → length s.running ≡ 0 → ¬ Step limit run s t
  no-Step_from _ _ e r (launch i is rs bs ds h) = absurd (omega arith)
  no-Step_from _ _ e r (finish i x is rs rs' bs ds h) =
      absurd (omega (arith, length-append rs (i ∷ rs')))
  no-Step_from _ _ e r (fail i x is rs rs' bs ds h) =
      absurd (omega (arith, length-append rs (i ∷ rs')))

  no_return_from :
      (s : Pool I E) (r : Result (List (I × E))) → 0 < length s.waiting → ¬ Returns limit run s r
  no_return_from _ _ h (all_done ds) = absurd (omega arith)
  no_return_from _ _ h (first_error i x rs bs bs' ds) = absurd (omega arith)

  -- One after the other, parts are launched and fail.
  all_fail :
      (s : Pool I E) (is js : List I) (bs : List (I × Err)) (x : Err)
      → ((i : I) → run i ≡ err x)
      → length bs + length is ≤ limit
      → Steps limit run s (record { waiting = is ++ js; running = []; blocked = bs; done = [] })
      → (bs' : List (I × Err)) × (length bs' ≡ length bs + length is)
        × Steps limit run s (record { waiting = js; running = []; blocked = bs'; done = [] })
  all_fail s [] js bs x h k r = (bs, omega arith, r)
  all_fail s (i ∷ is) js bs x h k r =
      let n : length (bs ++ (i, x) ∷ []) ≡ length bs + 1 =
        omega (arith, length-append bs ((i, x) ∷ [])) in
      let (bs', e, r') = all_fail s is js (bs ++ (i, x) ∷ []) x h (omega (arith, n)) (
        step s _ _ (step s _ _ r (launch i (is ++ js) [] bs [] (omega arith)))
          (fail i x (is ++ js) [] [] bs [] (h i))) in
      (bs', omega (arith, e, n), r')

  -- If every part fails and there are more parts than `limit`, the pool can get stuck: each place of
  -- the semaphore is held by a goroutine that waits for its error to be read, and the caller waits
  -- for a place.
  pub pool-IsStuck :
      (is : List I) (x : Err)
      → limit < length is
      → ((i : I) → run i ≡ err x)
      → (s : Pool I E) × Steps limit run (start_pool is) s × IsStuck s
  pool-IsStuck is x h fails =
      let few = length-take_le limit is (omega arith) in
      let left = length-drop limit is in
      let (bs, e, r) =
        all_fail (start_pool is) (take limit is) (drop limit is) [] x fails (omega (arith, few)) (
          subst
            (λ js.
              Steps limit run (start_pool is)
                (record { waiting = js; running = []; blocked = []; done = [] }))
            (sym (take-append-drop limit is)) (here (start_pool is))) in
      (
        _,
        r,
        record {
          no_step = λ t. no-Step_from _ t (omega (arith, e, few)) refl;
          no_return = λ q. no_return_from _ q (omega (arith, left));
        },
      )
