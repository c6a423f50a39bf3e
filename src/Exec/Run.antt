-- ===== src/Exec/Run.antt =====
-- How the actions of a block follow each other, as equations.
use otc_rds_operator.Prelude.{String, ◌≡◌, refl, ap, Bool, true, false, if◌then◌else◌, arith}
use otc_rds_operator.Cloud.{Env}
use otc_rds_operator.Exec.{State, Exec, done, exit, rewrap, wrap_error, continue, ◌>>=◌}

module _ {E : Env} {A : Type 0} where
  pub wrap_error-done :
      (e : String) (m : Exec E A) (s t : State E) (a : A)
      → m s ≡ (done a, t)
      → wrap_error e m s ≡ (done a, t)
  unfolding wrap_error
  wrap_error-done e m s t a h = ap (λ x. (rewrap e x.0, x.1)) h

module _ {E : Env} {A B : Type 0} where
  pub bind-done :
      (m : Exec E A) (f : A → Exec E B) (s t : State E) (a : A)
      → m s ≡ (done a, t)
      → (m >>= f) s ≡ f a t
  unfolding ◌>>=◌
  bind-done m f s t a h = ap (λ x. continue x.0 f x.1) h

  pub bind-exit :
      (m : Exec E A) (f : A → Exec E B) (s t : State E) (e : String)
      → m s ≡ (exit e, t)
      → (m >>= f) s ≡ (exit e, t)
  unfolding ◌>>=◌
  bind-exit m f s t e h = ap (λ x. continue x.0 f x.1) h

pub otherwise :
    {E : Env} {A : Type 0} (b : Bool) (m n : Exec E A) (s : State E)
    → b ≡ false
    → (if b then m else n) s ≡ n s
otherwise true m n s h = ground arith
otherwise false m n s h = refl
