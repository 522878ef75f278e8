-- ===== src/Witnesses/Pool.antt =====
-- Pools of two parts, and the chunks of a large file.
use zipstash.Base.{
  slt64, add64, sub64, add32, ℕ, zero, suc, ◌≡◌, ◌≤◌, ap, ◌⊎◌, inl, inr, refl, [], ◌∷◌, some, Text,
  length, Result, ok, err, Err, message, arith,
}
use zipstash.Transfer.Download.{DownloadedFile}
use zipstash.Transfer.Whole.{slice}
use zipstash.Offsets
use zipstash.Offsets.{calculate_offsets, min_part_size}
use zipstash.Presigner.Plan.{IsFileSize}
use zipstash.Transfer.Pool.{Pool, start_pool, launch, finish, fail, Steps, here, step}
use zipstash.Transfer.Pool.Stuck.{Goes, IsStuck, pool-Goes, pool-IsStuck}

pub bytes : ℕ → Text
bytes zero = []
bytes (suc n) = 97 ∷ bytes n

pub length-bytes : (n : ℕ) → length (bytes n) ≡ n
unfolding bytes
length-bytes zero = refl
length-bytes (suc n) = ap suc (length-bytes n)

pub is_size : IsFileSize (length (bytes 25000000))
is_size = omega (arith, length-bytes 25000000)

pub is_large : min_part_size ≤ length (bytes 25000000)
is_large = omega (arith, length-bytes 25000000)

-- Part 0 gives 10 and every other part fails.
abbrev run : ℕ → Result ℕ
run zero = ok 10
run (suc n) = err (message "failed")

abbrev both_done : Pool ℕ ℕ
both_done = record { waiting = []; running = []; blocked = []; done = (0, 10) ∷ (0, 10) ∷ [] }

-- Both parts are in transfer at once; the second ends first.
done_runs : Steps 2 run (start_pool (0 ∷ 0 ∷ [])) both_done
done_runs =
    step _ _ _
      (step _ _ _
        (step _ _ _
          (step _ _ _ (here (start_pool (0 ∷ 0 ∷ []))) (launch 0 (0 ∷ []) [] [] [] (omega arith)))
          (launch 0 [] (0 ∷ []) [] [] (omega arith)))
        (finish 0 10 [] (0 ∷ []) [] [] [] refl))
      (finish 0 10 [] [] [] [] ((0, 10) ∷ []) refl)

abbrev one_failed : Pool ℕ ℕ
one_failed = record { waiting = []; running = []; blocked = (3, message "failed") ∷ []; done = [] }

failed_runs : Steps 2 run (start_pool (3 ∷ [])) one_failed
failed_runs =
    step _ _ _ (step _ _ _ (here (start_pool (3 ∷ []))) (launch 3 [] [] [] [] (omega arith)))
      (fail 3 (message "failed") [] [] [] [] [] refl)

ends_always : (i : ℕ) → ((e : ℕ) × (run i ≡ ok e)) ⊎ ((x : Err) × (run i ≡ err x))
ends_always zero = inl (10, refl)
ends_always (suc n) = inr (message "failed", refl)

pool-Goes_example : Goes 2 run one_failed
pool-Goes_example = pool-Goes 2 run one_failed ends_always (omega arith)

abbrev down : ℕ → Result ℕ
down i = err (message "down")

always_fails : (i : ℕ) → down i ≡ err (message "down")
always_fails i = refl

pool-IsStuck_example :
    (s : Pool ℕ ℕ) × Steps 2 down (start_pool (1 ∷ 2 ∷ 3 ∷ [])) s × IsStuck 2 down s
pool-IsStuck_example =
    pool-IsStuck 2 down (1 ∷ 2 ∷ 3 ∷ []) (message "down") (omega arith) always_fails

abbrev pub first_range : Offsets.Offset
first_range = record { part = 1; start = 0; end = 10485760 }

abbrev pub second_range : Offsets.Offset
second_range = record { part = 2; start = 10485761; end = 20971520 }

abbrev pub last_range : Offsets.Offset
last_range = record { part = 3; start = 20971521; end = 24999999 }

pub ranges_computed :
    calculate_offsets (length (bytes 25000000)) min_part_size
    ≡ some (first_range ∷ second_range ∷ last_range ∷ [])
unfolding calculate_offsets slt64 add64 sub64 add32
ranges_computed = rw (length-bytes 25000000) refl

abbrev pub part_file : Offsets.Offset → DownloadedFile
part_file o = record {
  url = [];
  content = slice (bytes 25000000) o;
  etag = [];
  part = o.part;
  size = 0;
}
