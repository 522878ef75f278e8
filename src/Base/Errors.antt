-- ===== src/Base/Errors.antt =====
-- Go's errors as values, results, and code that runs in a world outside the program.
use Prim.Native.Nat.{ℕ}
use Prim.Native.String.{String}
use mathlib.Core.Path.{◌≡◌, refl, ap}
use mathlib.Core.Bool.{Bool, true, false}
use mathlib.Core.Option.{Option, none, some}
use zipstash.Base.Tests.{◌==◌}

-- connect.Code, the codes that the program uses
pub data Code : Type 0 where
  internal already_exists not_found permission_denied : Code

-- The errors that the program compares with. The first two are `index.ErrNotFound` and
-- `index.ErrAlreadyExists`, the others belong to dynastorev2, DynamoDB and S3.
pub data Sentinel : Type 0 where
  err_not_found err_already_exists : Sentinel
  key_not_exists conditional_check_failed s3_not_found : Sentinel

-- `wrap` is `fmt.Errorf("…: %w", e)`; `annotate` is `fmt.Errorf("…: %v", e)`, which drops the
-- chain. A `connect_error` goes to the client as it is.
pub data Err : Type 0 where
  message : String → Err
  sentinel : Sentinel → Err
  wrap : String → Err → Err
  annotate : String → Err → Err
  connect_error : Code → String → Err
  external : ℕ → Err

abbrev sentinel_number : Sentinel → ℕ
sentinel_number err_not_found = 0
sentinel_number err_already_exists = 1
sentinel_number key_not_exists = 2
sentinel_number conditional_check_failed = 3
sentinel_number s3_not_found = 4

-- errors.Is(err, target) and errors.As for a type that has one value: down the chain of wraps.
unfoldable pub errors_is : Err → Sentinel → Bool
errors_is (sentinel s) t = sentinel_number s == sentinel_number t
errors_is (wrap _ e) t = errors_is e t
errors_is (message _) t = false
errors_is (annotate _ _) t = false
errors_is (connect_error _ _) t = false
errors_is (external _) t = false

-- `panic` is a nil dereference; `diverges` is a loop that does not end.
pub data Crash : Type 0 where
  panic diverges : Crash

-- A crash is no error value: no `if err != nil` sees it.
pub data Result {ℓ} (A : Type ℓ) : Type ℓ where
  ok : A → Result A
  err : Err → Result A
  crash : Crash → Result A

-- `if err != nil { return f(err) }`
abbrev pub map_err {ℓ} : {A : Type ℓ} → (Err → Err) → Result A → Result A
map_err f (ok a) = ok a
map_err f (err e) = err (f e)
map_err f (crash c) = crash c

abbrev pub and_then {ℓ κ} : {A : Type ℓ} {B : Type κ} → Result A → (A → Result B) → Result B
and_then (ok a) f = f a
and_then (err e) f = err e
and_then (crash c) f = crash c

pub and_then-eq-ok {ℓ κ} :
    {A : Type ℓ} {B : Type κ} (r : Result A) (f : A → Result B) {b : B}
    → and_then r f ≡ ok b
    → (a : A) × (r ≡ ok a) × (f a ≡ ok b)
and_then-eq-ok (ok a) f h = (a, refl, h)
and_then-eq-ok (err e) f h = cc
and_then-eq-ok (crash c) f h = cc

-- Code that may fail. What it changed in the world before it failed stays changed.
abbrev pub Io : Type 0 → Type 0 → Type 0
Io W A = W → Result A × W

pub map_err-eq-ok {ℓ} :
    {A : Type ℓ} (f : Err → Err) (r : Result A) {a : A} → map_err f r ≡ ok a → r ≡ ok a
map_err-eq-ok f (ok b) h = h
map_err-eq-ok f (err e) h = cc
map_err-eq-ok f (crash c) h = cc

module _ {W : Type 0} where
  -- `if !b { return e }`
  unfoldable pub guard : Bool → Err → Io W (Unit {0})
  guard true e w = (ok tt, w)
  guard false e w = (err e, w)

module _ {W A : Type 0} where
  unfoldable pub pure : A → Io W A
  pure a w = (ok a, w)

  -- a field of a message that is read without a test for nil
  unfoldable pub deref : Option A → Io W A
  deref none w = (crash panic, w)
  deref (some a) w = (ok a, w)

  -- a read of the world
  unfoldable pub reads : (W → Result A) → Io W A
  reads f w = (f w, w)

  unfoldable pub on_error : (Err → Err) → Io W A → Io W A
  on_error f m w = (map_err f (m w).0, (m w).1)

  pub pure-eq-ok : {a b : A} {w w' : W} → pure a w ≡ (ok b, w') → (a ≡ b) × (w ≡ w')
  unfolding pure
  pure-eq-ok h = (cc, cc)

  pub on_error-eq-ok :
      (f : Err → Err) (m : Io W A) {a : A} {w w' : W}
      → on_error f m w ≡ (ok a, w')
      → m w ≡ (ok a, w')
  unfolding on_error
  on_error-eq-ok f m {w} h =
      let r : (m w).0 ≡ ok _ = map_err-eq-ok f (m w).0 (ap (λ p. p.0) h) in cc

module _ {W A B : Type 0} where
  -- what a block does with the outcome of its first statement
  abbrev pub proceed : (A → Io W B) → Result A × W → Result B × W
  proceed f (ok a, w) = f a w
  proceed f (err e, w) = (err e, w)
  proceed f (crash c, w) = (crash c, w)

  infixl 5 ◌>>=◌ ◌>>◌
  unfoldable pub ◌>>=◌ : Io W A → (A → Io W B) → Io W B
  ◌>>=◌ m f w = proceed f (m w)

  abbrev pub ◌>>◌ : Io W A → Io W B → Io W B
  m >> n = m >>= λ _. n
