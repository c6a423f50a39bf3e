-- ===== src/Exec/Fails.antt =====
-- Which errors an action can return.
use otc_rds_operator.Prelude.{String, ◌<>◌, ◌≡◌, refl, arith, subst}
use otc_rds_operator.Cloud.{Call, Env, Reply, ok, failed}
use otc_rds_operator.Exec.{
  State, Exec, Outcome, done, fail, panic, exit, waiting, rewrap, dropped, try_as, wrap_error,
  ignore_error, perform, continue, ◌>>=◌,
}

-- Every error of `m` satisfies `P`.
pub data FailsIn {E : Env} {A : Type 0} (P : String → Type 0) (m : Exec E A) : Type 0 where
  fails : ((s : State E) (e : String) → (m s).0 ≡ fail e → P e) → FailsIn P m

abbrev pub error_of :
    {E : Env} {A : Type 0} {P : String → Type 0} {m : Exec E A}
    → FailsIn P m
    → (s : State E) (e : String) → (m s).0 ≡ fail e
    → P e
error_of (fails h) = h

fail_injective : {A : Type 0} (x e : String) → ◌≡◌ {A = Outcome A} (fail x) (fail e) → x ≡ e
fail_injective x e eq = ground arith

module _ {A : Type 0} (P : String → Type 0) where
  rewrap-error :
      (prefix : String) (r : Outcome A) (e : String)
      → ((x : String) → P (prefix <> x))
      → rewrap prefix r ≡ fail e
      → P e
  rewrap-error prefix (done a) e h eq = ground arith
  rewrap-error prefix (fail x) e h eq = subst P (fail_injective (prefix <> x) e eq) (h x)
  rewrap-error prefix (panic x) e h eq = ground arith
  rewrap-error prefix (exit x) e h eq = ground arith
  rewrap-error prefix waiting e h eq = ground arith

module _ (P : String → Type 0) where
  dropped-error : (r : Outcome Unit) (e : String) → dropped r ≡ fail e → P e
  dropped-error (done a) e eq = ground arith
  dropped-error (fail x) e eq = ground arith
  dropped-error (panic x) e eq = ground arith
  dropped-error (exit x) e eq = ground arith
  dropped-error waiting e eq = ground arith

module _ {E : Env} {A : Type 0} {P : String → Type 0} where
  pub FailsIn-wrap_error :
      (prefix : String) (m : Exec E A)
      → ((x : String) → P (prefix <> x))
      → FailsIn P (wrap_error prefix m)
  unfolding wrap_error
  FailsIn-wrap_error prefix m h = fails (λ s e eq. rewrap-error P prefix (m s).0 e h eq)

  pub FailsIn-try_as :
      (prefix : String) (r : Reply A)
      → ((x : String) → P (prefix <> x))
      → FailsIn P (try_as {E = E} prefix r)
  unfolding try_as
  FailsIn-try_as prefix (ok a) h = fails (λ s e eq. ground arith)
  FailsIn-try_as prefix (failed x) h =
      fails (λ s e eq. subst P (fail_injective (prefix <> x) e eq) (h x))

module _ {E : Env} {P : String → Type 0} where
  pub FailsIn-ignore_error : (m : Exec E Unit) → FailsIn P (ignore_error m)
  unfolding ignore_error
  FailsIn-ignore_error m = fails (λ s e eq. dropped-error P (m s).0 e eq)

module _ {E : Env} {A B : Type 0} {P : String → Type 0} where
  continue-error :
      (r : Outcome A) (f : A → Exec E B) (t : State E) (e : String)
      → ((x : String) → r ≡ fail x → P x)
      → ((a : A) → FailsIn P (f a))
      → (continue r f t).0 ≡ fail e
      → P e
  continue-error (done a) f t e first rest eq = error_of (rest a) t e eq
  continue-error (fail x) f t e first rest eq = subst P (fail_injective x e eq) (first x refl)
  continue-error (panic x) f t e first rest eq = ground arith
  continue-error (exit x) f t e first rest eq = ground arith
  continue-error waiting f t e first rest eq = ground arith

  pub FailsIn-bind :
      (m : Exec E A) (f : A → Exec E B)
      → FailsIn P m
      → ((a : A) → FailsIn P (f a))
      → FailsIn P (m >>= f)
  unfolding ◌>>=◌
  FailsIn-bind m f first rest =
      fails (λ s e eq. continue-error (m s).0 f (m s).1 e (error_of first s) rest eq)

module _ (E : Env) {P : String → Type 0} where
  pub FailsIn-perform : (c : Call) → FailsIn P (perform E c)
  unfolding perform
  FailsIn-perform c = fails (λ s e eq. ground arith)
