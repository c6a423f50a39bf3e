-- ===== src/Exec.antt =====
-- Go code that calls the world and changes the resource that it works on. What was written
-- before an error or a panic stays written, so the state comes back with every outcome.
pub mod Keeps
pub mod Stable
pub mod Run
pub mod Fails
use otc_rds_operator.Prelude.{ℕ, String, ◌<>◌, Bool, true, false, Option, none, some, List, ◌∷◌}
use otc_rds_operator.Rds.{Rds, RdsSpec, RdsStatus}
use otc_rds_operator.Cloud.{Call, Answer, Env, Entry, Trace, Reply, ok, failed}

-- `fail` is a non-nil `error`; `panic` is a run-time panic, which ends the process (in a handler of net/http, the connection); `exit`
-- is the end of the process by the logger (Fatal, klog.Exitf), which runs no deferred call; `waiting` says
-- that a loop over a channel has not ended within the turns that it was given.
pub data Outcome (A : Type 0) : Type 0 where
  done : A → Outcome A
  fail : String → Outcome A
  panic : String → Outcome A
  exit : String → Outcome A
  waiting : Outcome A

-- The world, the calls made so far, the process environment, the package's variable `projectID`,
-- the resource that the code at hand has a pointer to (`newRds`), and the resources that the
-- events in the queue point to, by their addresses, of which those from `next` on are free.
pub record State (E : Env) : Type 0 where
  pub world : E.World
  pub trace : Trace
  pub getenv : String → String
  pub project_id : String
  pub rds : Rds
  pub heap : ℕ → Rds
  pub next : ℕ

module _ (E : Env) where
  abbrev pub Exec : Type 0 → Type 0
  Exec A = State E → Outcome A × State E

abbrev rewrap : {A : Type 0} → String → Outcome A → Outcome A
rewrap prefix (done a) = done a
rewrap prefix (fail e) = fail (prefix <> e)
rewrap prefix (panic e) = panic e
rewrap prefix (exit e) = exit e
rewrap prefix waiting = waiting

abbrev dropped : Outcome Unit → Outcome Unit
dropped (done a) = done tt
dropped (fail e) = done tt
dropped (panic e) = panic e
dropped (exit e) = exit e
dropped waiting = waiting

module _ {E : Env} {A : Type 0} where
  unfoldable pub pure : A → Exec E A
  pure a s = (done a, s)

  unfoldable pub raise : String → Exec E A
  raise e s = (fail e, s)

  unfoldable pub crash : String → Exec E A
  crash e s = (panic e, s)

  unfoldable pub exit_with : String → Exec E A
  exit_with e s = (exit e, s)

  unfoldable pub gets : (State E → A) → Exec E A
  gets f s = (done (f s), s)

  -- `if err != nil { return err }`.
  unfoldable pub try : Reply A → Exec E A
  try (ok a) s = (done a, s)
  try (failed e) s = (fail e, s)

  -- `if err != nil { return fmt.Errorf(prefix + "%v", err) }`.
  unfoldable pub try_as : String → Reply A → Exec E A
  try_as prefix (ok a) s = (done a, s)
  try_as prefix (failed e) s = (fail (prefix <> e), s)

  -- A dereference, which panics on a nil pointer or an index out of range.
  unfoldable pub deref : Option A → Exec E A
  deref none s = (panic "invalid memory address or nil pointer dereference", s)
  deref (some a) s = (done a, s)

  unfoldable pub still_waiting : Exec E A
  still_waiting s = (waiting, s)

  -- The same wrapping, where the error is that of a call inside the program.
  unfoldable pub wrap_error : String → Exec E A → Exec E A
  wrap_error prefix m s = let (r, t) = m s in (rewrap prefix r, t)

module _ {E : Env} where
  -- The same, where the error comes beside a value that is read anyway.
  unfoldable pub check_error : String → Option String → Exec E Unit
  check_error prefix none s = (done tt, s)
  check_error prefix (some e) s = (fail (prefix <> e), s)

  -- An assignment to a field of the resource.
  unfoldable pub modify : (Rds → Rds) → Exec E Unit
  modify f s = (done tt, record s { rds = f s.rds })

  -- A call whose error is assigned to nothing. A panic is not an error.
  unfoldable pub ignore_error : Exec E Unit → Exec E Unit
  ignore_error m s = let (r, t) = m s in (dropped r, t)

module _ (E : Env) where
  -- One call of the world.
  unfoldable pub perform : (c : Call) → Exec E (Answer c)
  perform c s =
      let (a, w) = E.answer c s.world in
      (done a, record s { world = w; trace = record { call = c; reply = a } ∷ s.trace })

module _ {E : Env} {A B : Type 0} where
  abbrev pub continue : Outcome A → (A → Exec E B) → Exec E B
  continue (done a) f s = f a s
  continue (fail e) f s = (fail e, s)
  continue (panic e) f s = (panic e, s)
  continue (exit e) f s = (exit e, s)
  continue waiting f s = (waiting, s)

  -- Opening this opens the actions above too.
  infixl 10 ◌>>=◌ ◌>>◌
  unfoldable pub ◌>>=◌ : Exec E A → (A → Exec E B) → Exec E B
  unfolding pure raise crash exit_with still_waiting gets try try_as check_error deref wrap_error
      modify ignore_error perform
  ◌>>=◌ m f s = let (r, t) = m s in continue r f t

  abbrev pub ◌>>◌ : Exec E A → Exec E B → Exec E B
  m >> n = m >>= λ _. n

  abbrev pub cleaned : Outcome A → Exec E B → State E → State E
  cleaned (exit e) cleanup t = t
  cleaned _ cleanup t = (cleanup t).1

  -- `defer`: the cleanup runs whatever the outcome, but at the end of the process, and its own result
  -- is dropped.
  unfoldable pub finally : Exec E A → Exec E B → Exec E A
  finally m cleanup s = let (r, t) = m s in (r, cleaned r cleanup t)
