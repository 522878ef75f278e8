-- ===== src/Base/Runs.antt =====
-- How a block ran that returned a value: a rule for each kind of first statement, which hands on
-- what that statement gave and that the rest returned.
use mathlib.Core.Path.{◌≡◌, refl, ap}
use mathlib.Core.Bool.{Bool, true, false}
use mathlib.Core.Option.{Option, none, some}
use zipstash.Base.Errors.{
  Err, panic, Result, ok, err, crash, Io, pure, deref, guard, reads, on_error, on_error-eq-ok,
  proceed, ◌>>=◌, ◌>>◌,
}

module _ {W A B C : Type 0} where
  bind_cases :
      (f : A → Io W B) (r : Result A × W) {b : B} {w' : W}
      → proceed f r ≡ (ok b, w')
      → ((a : A) (v : W) → r ≡ (ok a, v) → f a v ≡ (ok b, w') → C)
      → C
  bind_cases f (ok a, v) h k = k a v refl h
  bind_cases f (err e, v) h k = cc
  bind_cases f (crash c, v) h k = cc

  pub run_bind :
      (m : Io W A) (f : A → Io W B) {b : B} {w w' : W}
      → (m >>= f) w ≡ (ok b, w')
      → ((a : A) (v : W) → m w ≡ (ok a, v) → f a v ≡ (ok b, w') → C)
      → C
  unfolding ◌>>=◌
  run_bind m f {w} h k = bind_cases f (m w) h k

  -- a call whose error is replaced
  pub run_call :
      (g : Err → Err) (m : Io W A) (f : A → Io W B) {b : B} {w w' : W}
      → (on_error g m >>= f) w ≡ (ok b, w')
      → ((a : A) (v : W) → m w ≡ (ok a, v) → f a v ≡ (ok b, w') → C)
      → C
  run_call g m f h k = run_bind (on_error g m) f h λ a v e. k a v (on_error-eq-ok g m e)

  pub run_deref :
      (o : Option A) (f : A → Io W B) {b : B} {w w' : W}
      → (deref o >>= f) w ≡ (ok b, w')
      → ((a : A) → o ≡ some a → f a w ≡ (ok b, w') → C)
      → C
  unfolding deref ◌>>=◌
  run_deref none f h k = cc
  run_deref (some a) f h k = k a refl h

  pub run_reads :
      (r : W → Result A) (f : A → Io W B) {b : B} {w w' : W}
      → (reads r >>= f) w ≡ (ok b, w')
      → ((a : A) → r w ≡ ok a → f a w ≡ (ok b, w') → C)
      → C
  unfolding reads
  run_reads r f {w} h k =
      run_bind (reads r) f h
        λ a v e rest. let same : w ≡ v = ap (λ p. p.1) e in k a (ap (λ p. p.0) e) (rw same rest)

  -- a read whose error is replaced
  pub run_lookup :
      (g : Err → Err) (r : W → Result A) (f : A → Io W B) {b : B} {w w' : W}
      → (on_error g (reads r) >>= f) w ≡ (ok b, w')
      → ((a : A) → r w ≡ ok a → f a w ≡ (ok b, w') → C)
      → C
  unfolding reads
  run_lookup g r f {w} h k =
      run_call g (reads r) f h
        λ a v e rest. let same : w ≡ v = ap (λ p. p.1) e in k a (ap (λ p. p.0) e) (rw same rest)

module _ {W A B : Type 0} where
  -- The first statement fails, and the block with it.
  pub bind_err :
      (m : Io W A) (f : A → Io W B) {e : Err} {w w' : W}
      → m w ≡ (err e, w')
      → (m >>= f) w ≡ (err e, w')
  unfolding ◌>>=◌
  bind_err m f h = ap (proceed f) h

  pub bind_ok :
      (m : Io W A) (f : A → Io W B) {a : A} {w w' : W} → m w ≡ (ok a, w') → (m >>= f) w ≡ f a w'
  unfolding ◌>>=◌
  bind_ok m f h = ap (proceed f) h

  pub deref-some :
      (o : Option A) (f : A → Io W B) {a : A} (w : W) → o ≡ some a → (deref o >>= f) w ≡ f a w
  unfolding deref ◌>>=◌
  deref-some o f w h = rw h

  pub deref-none :
      (o : Option A) (f : A → Io W B) (w : W) → o ≡ none → (deref o >>= f) w ≡ (crash panic, w)
  unfolding deref ◌>>=◌
  deref-none o f w h = rw h

module _ {W B C : Type 0} where
  pub run_guard :
      (c : Bool) (e : Err) (n : Io W B) {b : B} {w w' : W}
      → (guard c e >> n) w ≡ (ok b, w')
      → (c ≡ true → n w ≡ (ok b, w') → C)
      → C
  unfolding guard ◌>>=◌
  run_guard true e n h k = k refl h
  run_guard false e n h k = cc

module _ {W A : Type 0} where
  -- the last statement
  pub run_pure : (a : A) {b : A} {w w' : W} → pure a w ≡ (ok b, w') → (a ≡ b) × (w ≡ w')
  unfolding pure
  run_pure a h = (cc, cc)

  -- a last statement that reads
  pub reads-eq-ok :
      (r : W → Result A) {a : A} {w w' : W} → reads r w ≡ (ok a, w') → (r w ≡ ok a) × (w ≡ w')
  unfolding reads
  reads-eq-ok r h = (ap (λ p. p.0) h, ap (λ p. p.1) h)
