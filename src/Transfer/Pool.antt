-- ===== src/Transfer/Pool.antt =====
-- `Upload` of pkg/uploader/uploader.go and `Download` of pkg/downloader/downloader.go: one goroutine
-- for each instruction, at most `limit` at a time, and a channel without a buffer for the errors,
-- which the caller reads only after the last instruction was launched.
pub mod Complete
pub mod Results
pub mod Stuck
use zipstash.Base.{ℕ, ◌+◌, ◌<◌, ◌≡◌, List, [], ◌∷◌, ◌++◌, length, Result, ok, err, Err}

-- `waiting` is what the loop has not launched; `blocked` are the goroutines that wait for a reader of
-- their error; `done` are the results in the order of completion.
pub record Pool (I E : Type 0) : Type 0 where
  pub waiting : List I
  pub running : List I
  pub blocked : List (I × Err)
  pub done : List (I × E)

module _ {I E : Type 0} where
  abbrev pub start_pool : List I → Pool I E
  start_pool is = record { waiting = is; running = []; blocked = []; done = [] }

  -- A goroutine holds its place in the semaphore until its error is read.
  abbrev pub in_use : Pool I E → ℕ
  in_use s = length s.running + length s.blocked

module _ {I E : Type 0} (limit : ℕ) (run : I → Result E) where
  pub data Step : Pool I E → Pool I E → Type 0 where
    launch :
        (i : I) (is rs : List I) (bs : List (I × Err)) (ds : List (I × E))
        → length rs + length bs < limit
        → Step
            (record { waiting = i ∷ is; running = rs; blocked = bs; done = ds })
            (record { waiting = is; running = rs ++ i ∷ []; blocked = bs; done = ds })
    finish :
        (i : I) (e : E) (is rs rs' : List I) (bs : List (I × Err)) (ds : List (I × E))
        → run i ≡ ok e
        → Step
            (record { waiting = is; running = rs ++ i ∷ rs'; blocked = bs; done = ds })
            (record { waiting = is; running = rs ++ rs'; blocked = bs; done = ds ++ (i, e) ∷ [] })
    fail :
        (i : I) (x : Err) (is rs rs' : List I) (bs : List (I × Err)) (ds : List (I × E))
        → run i ≡ err x
        → Step
            (record { waiting = is; running = rs ++ i ∷ rs'; blocked = bs; done = ds })
            (record { waiting = is; running = rs ++ rs'; blocked = bs ++ (i, x) ∷ []; done = ds })

  pub data Steps : Pool I E → Pool I E → Type 0 where
    here : (s : Pool I E) → Steps s s
    step : (s t u : Pool I E) → Steps s t → Step t u → Steps s u

  -- The select: all goroutines are done, or an error is read.
  pub data Returns : Pool I E → Result (List (I × E)) → Type 0 where
    all_done :
        (ds : List (I × E))
        → Returns (record { waiting = []; running = []; blocked = []; done = ds }) (ok ds)
    first_error :
        (i : I) (x : Err) (rs : List I) (bs bs' : List (I × Err)) (ds : List (I × E))
        → Returns
            (record { waiting = []; running = rs; blocked = bs ++ (i, x) ∷ bs'; done = ds })
            (err x)
