-- ===== src/Exec/Keeps.antt =====
-- Invariants of the state, one rule for each way to build an action.
use otc_rds_operator.Prelude.{
  ◌≡◌, refl, String, Bool, true, false, Option, none, some, if◌then◌else◌,
}
use otc_rds_operator.Cloud.{Env, Reply, ok, failed}
use otc_rds_operator.Exec.{
  Outcome, done, fail, panic, exit, waiting, State, Exec, pure, raise, crash, exit_with,
  still_waiting, finally, gets, try, try_as, check_error, deref, wrap_error, ignore_error, continue,
  cleaned, ◌>>=◌,
}

-- `m` keeps `P`, whatever its outcome.
pub data Keeps {E : Env} {A : Type 0} (P : State E → Type 0) (m : Exec E A) : Type 0 where
  keeps : ((s : State E) → P s → P (m s).1) → Keeps P m

abbrev pub kept :
    {E : Env} {A : Type 0} {P : State E → Type 0} {m : Exec E A}
    → Keeps P m
    → (s : State E) → P s
    → P (m s).1
kept (keeps h) = h

module _ {E : Env} {A : Type 0} {P : State E → Type 0} where
  pub Keeps-pure : (a : A) → Keeps P (pure a)
  unfolding pure
  Keeps-pure a = keeps (λ s h. h)

  pub Keeps-raise : (e : String) → Keeps P (raise {A = A} e)
  unfolding raise
  Keeps-raise e = keeps (λ s h. h)

  pub Keeps-crash : (e : String) → Keeps P (crash {A = A} e)
  unfolding crash
  Keeps-crash e = keeps (λ s h. h)

  pub Keeps-exit_with : (e : String) → Keeps P (exit_with {A = A} e)
  unfolding exit_with
  Keeps-exit_with e = keeps (λ s h. h)

  pub Keeps-still_waiting : Keeps P (still_waiting {A = A})
  unfolding still_waiting
  Keeps-still_waiting = keeps (λ s h. h)

  pub Keeps-gets : (f : State E → A) → Keeps P (gets f)
  unfolding gets
  Keeps-gets f = keeps (λ s h. h)

  pub Keeps-try : (r : Reply A) → Keeps P (try r)
  unfolding try
  Keeps-try (ok a) = keeps (λ s h. h)
  Keeps-try (failed e) = keeps (λ s h. h)

  pub Keeps-try_as : (e : String) (r : Reply A) → Keeps P (try_as e r)
  unfolding try_as
  Keeps-try_as e (ok a) = keeps (λ s h. h)
  Keeps-try_as e (failed x) = keeps (λ s h. h)

  pub Keeps-deref : (o : Option A) → Keeps P (deref o)
  unfolding deref
  Keeps-deref none = keeps (λ s h. h)
  Keeps-deref (some a) = keeps (λ s h. h)

  pub Keeps-wrap_error : (e : String) (m : Exec E A) → Keeps P m → Keeps P (wrap_error e m)
  unfolding wrap_error
  Keeps-wrap_error e m k = keeps (kept k)

  pub Keeps-if : (b : Bool) (m n : Exec E A) → Keeps P m → Keeps P n → Keeps P (if b then m else n)
  Keeps-if true m n km kn = km
  Keeps-if false m n km kn = kn

  -- The branch may use that the test has succeeded.
  pub Keeps-when :
      (b : Bool) (m n : Exec E A)
      → (b ≡ true → Keeps P m)
      → Keeps P n
      → Keeps P (if b then m else n)
  Keeps-when true m n km kn = km refl
  Keeps-when false m n km kn = kn

module _ {E : Env} {P : State E → Type 0} where
  pub Keeps-check_error : (p : String) (e : Option String) → Keeps P (check_error p e)
  unfolding check_error
  Keeps-check_error p none = keeps (λ s h. h)
  Keeps-check_error p (some e) = keeps (λ s h. h)

  pub Keeps-ignore_error : (m : Exec E Unit) → Keeps P m → Keeps P (ignore_error m)
  unfolding ignore_error
  Keeps-ignore_error m k = keeps (kept k)

module _ {E : Env} {A B : Type 0} {P : State E → Type 0} where
  continue-kept :
      (r : Outcome A) (f : A → Exec E B) (t : State E)
      → P t
      → ((a : A) → Keeps P (f a))
      → P (continue r f t).1
  continue-kept (done a) f t h kf = kept (kf a) t h
  continue-kept (fail e) f t h kf = h
  continue-kept (panic e) f t h kf = h
  continue-kept (exit e) f t h kf = h
  continue-kept waiting f t h kf = h

  -- A block whose first action has left a good state.
  pub bind-kept :
      (m : Exec E A) (f : A → Exec E B) (s : State E)
      → P (m s).1
      → ((a : A) → Keeps P (f a))
      → P ((m >>= f) s).1
  unfolding ◌>>=◌
  bind-kept m f s h kf = continue-kept (m s).0 f (m s).1 h kf

  pub Keeps-bind :
      (m : Exec E A) (f : A → Exec E B) → Keeps P m → ((a : A) → Keeps P (f a)) → Keeps P (m >>= f)
  Keeps-bind m f km kf = keeps (λ s h. bind-kept m f s (kept km s h) kf)

  -- The rest of the block may use what `m` establishes where it ends without an error.
  pub Keeps-bind_after :
      (Q : A → State E → Type 0) (m : Exec E A) (f : A → Exec E B)
      → Keeps P m
      → ((s : State E) (a : A) → (m s).0 ≡ done a → Q a (m s).1)
      → ((a : A) (s : State E) → Q a s → P s → P (f a s).1)
      → Keeps P (m >>= f)
  unfolding ◌>>=◌
  Keeps-bind_after Q m f km after kf = keeps (λ s h. go (m s).0 (m s).1 (kept km s h) (after s))
    where
      go :
          (r : Outcome A) (t : State E)
          → P t
          → ((a : A) → r ≡ done a → Q a t)
          → P (continue r f t).1
      go (done a) t h q = kf a t (q a refl) h
      go (fail e) t h q = h
      go (panic e) t h q = h
      go (exit e) t h q = h
      go waiting t h q = h

  -- A dereference, where the pointer is known.
  pub Keeps-deref-some : (a : A) (f : A → Exec E B) → Keeps P (f a) → Keeps P (deref (some a) >>= f)
  unfolding ◌>>=◌
  Keeps-deref-some a f k = keeps (kept k)

  pub Keeps-deref-none : (f : A → Exec E B) → Keeps P (deref none >>= f)
  unfolding ◌>>=◌
  Keeps-deref-none f = keeps (λ s h. h)

  pub Keeps-finally :
      (m : Exec E A) (cleanup : Exec E B)
      → Keeps P m
      → Keeps P cleanup
      → Keeps P (finally m cleanup)
  unfolding finally
  Keeps-finally m cleanup km kc = keeps (λ s h. go (m s).0 (m s).1 (kept km s h))
    where
      go : (r : Outcome A) (t : State E) → P t → P (cleaned r cleanup t)
      go (done a) t h = kept kc t h
      go (fail e) t h = kept kc t h
      go (panic e) t h = kept kc t h
      go (exit e) t h = h
      go waiting t h = kept kc t h

module _ {E : Env} {A B : Type 0} (P : State E → Type 0) where
  pub deref-kept :
      (o : Option A) (f : A → Exec E B) (s : State E)
      → P s
      → ((a : A) → o ≡ some a → P (f a s).1)
      → P ((deref o >>= f) s).1
  unfolding ◌>>=◌
  deref-kept none f s h kf = h
  deref-kept (some a) f s h kf = kf a refl

  -- A block that starts by reading the state.
  pub gets-kept :
      (g : State E → A) (f : A → Exec E B) (s : State E) → P (f (g s) s).1 → P ((gets g >>= f) s).1
  unfolding ◌>>=◌
  gets-kept g f s h = h

-- A block from a strong condition `P` to a weaker one `Q`: its first action keeps `P`.
module _ {E : Env} {A B : Type 0} (P Q : State E → Type 0)
    (weaken : (s : State E) → P s → Q s) where
  continue-weaken :
      (r : Outcome A) (f : A → Exec E B) (t : State E)
      → P t
      → ((a : A) (u : State E) → P u → Q (f a u).1)
      → Q (continue r f t).1
  continue-weaken (done a) f t h rest = rest a t h
  continue-weaken (fail e) f t h rest = weaken t h
  continue-weaken (panic e) f t h rest = weaken t h
  continue-weaken (exit e) f t h rest = weaken t h
  continue-weaken waiting f t h rest = weaken t h

  pub bind-weaken :
      (m : Exec E A) (f : A → Exec E B) (s : State E)
      → Keeps P m
      → ((a : A) (u : State E) → P u → Q (f a u).1)
      → P s
      → Q ((m >>= f) s).1
  unfolding ◌>>=◌
  bind-weaken m f s km rest h = continue-weaken (m s).0 f (m s).1 (kept km s h) rest

  -- The same, where the rest of the block may use how the first action has ended.
  pub bind_after-weaken :
      (m : Exec E A) (f : A → Exec E B) (s : State E)
      → P (m s).1
      → ((a : A) → (m s).0 ≡ done a → P (m s).1 → Q (f a (m s).1).1)
      → Q ((m >>= f) s).1
  unfolding ◌>>=◌
  bind_after-weaken m f s h rest = go (m s).0 (λ a e. rest a e h)
    where
      go : (r : Outcome A) → ((a : A) → r ≡ done a → Q (f a (m s).1).1) → Q (continue r f (m s).1).1
      go (done a) k = k a refl
      go (fail e) k = weaken (m s).1 h
      go (panic e) k = weaken (m s).1 h
      go (exit e) k = weaken (m s).1 h
      go waiting k = weaken (m s).1 h

module _ {E : Env} {A : Type 0} {P Q : State E → Type 0} {m : Exec E A} where
  pub Keeps-both : Keeps P m → Keeps Q m → Keeps (λ s. P s × Q s) m
  Keeps-both kp kq = keeps (λ s (p, q). (kept kp s p, kept kq s q))

pub ruleset keeps_rules = (
  Keeps-pure, Keeps-raise, Keeps-crash, Keeps-exit_with, Keeps-still_waiting, Keeps-gets, Keeps-try,
  Keeps-try_as, Keeps-deref, Keeps-wrap_error, Keeps-if, Keeps-check_error, Keeps-ignore_error,
  Keeps-bind, Keeps-finally,
)
