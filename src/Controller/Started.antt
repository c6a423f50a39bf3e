-- ===== src/Controller/Started.antt =====
-- pkg/controller/controller.go: the workers that Run starts.
use otc_rds_operator.Prelude.{
  ℕ, zero, suc, ◌+◌, ◌≡◌, ◌≢◌, refl, Bool, true, false, inl, inr, ◌⊎◌, none, some, arith, String,
  [], ◌∷◌,
}
use otc_rds_operator.Prelude.Int.{ℤ, pos_part}
use otc_rds_operator.Cloud.{Env, Call, Trace, start_worker, wait_done, shut_down_queue}
use otc_rds_operator.Exec.{
  State, Exec, Outcome, done, fail, panic, exit, waiting, pure, raise, finally, cleaned, perform,
  ◌>>=◌,
}
use otc_rds_operator.Exec.Run.{bind-done, bind-exit}
use otc_rds_operator.Exec.Keeps.{kept}
use otc_rds_operator.Exec.Stable.{kind, starting, Stable}
use otc_rds_operator.Flavor.{Uniq}
use otc_rds_operator.Smn.Receiver.{Subscriber, on_post}
use otc_rds_operator.Smn.Footprint.{on_post-Keeps}
use otc_rds_operator.Smn.Server.{Exit, returns, no_subscriber, listen, smn_receiver}
use otc_rds_operator.Smn.Listener.{listen-kept}
use otc_rds_operator.Controller.Start.{start_workers, receive, after_sync, run_informed, run}

abbrev is_start : Call → ℕ
is_start start_worker = 1
is_start _ = 0

-- How many workers have been started.
abbrev pub workers : Trace → ℕ
workers [] = 0
workers (e ∷ t) = is_start e.call + workers t

is_start-other : (c : Call) → kind c ≢ starting → is_start c ≡ 0
is_start-other start_worker h = absurd (h refl)
is_start-other c h = λ i. 0

module _ (uniq : Uniq) (E : Env) where
  abbrev Has : ℕ → State E → Type 0
  Has n s = workers s.trace ≡ n

  Has-Stable : (n : ℕ) → Stable {E = E} starting (Has n)
  Has-Stable n = record {
    calls = λ c other a w s h. omega (arith, is_start-other c other, h);
    env = λ g p s h. h;
    writes = λ f same s h. h;
  }

  on_post-Has : (n : ℕ) (sub : Subscriber) (s : State E) → Has n s → Has n (on_post uniq E sub s).1
  on_post-Has n sub s h =
      kept (on_post-Keeps uniq (Has-Stable n) (λ r t g. g) (λ e. cc) (λ e. cc) sub) s h

  smn_receiver-Has : (n : ℕ) (s : State E) → Has n s → Has n (smn_receiver uniq E s).1
  unfolding smn_receiver perform
  smn_receiver-Has n s h =
      listen-kept uniq E (Has n) (on_post-Has n) (λ t g. omega (arith, g)) 3 (no_subscriber, s) h

  start_workers-Has :
      (k n : ℕ) (s : State E)
      → Has n s
      → (start_workers uniq E k s).0 ≡ done tt × Has (n + k) (start_workers uniq E k s).1
  unfolding start_workers perform ◌>>=◌
  start_workers-Has zero n s h = (refl, omega (arith, h))
  start_workers-Has (suc k) n s h =
      let begun = (perform E start_worker s).1 in
      let (ends, counted) = start_workers-Has k (n + 1) begun (omega (arith, h)) in
      (ends, omega (arith, counted))

  -- A run that has failed has started no worker; one that has ended without an error, or with the
  -- end of the process, all of them.
  abbrev pub Starts : ℕ → ℕ → Outcome Unit × State E → Type 0
  Starts n k (fail e, t) = Has n t
  Starts n k (done a, t) = Has (n + k) t
  Starts n k (exit e, t) = Has (n + k) t
  Starts n k (panic e, t) = ⊥
  Starts n k (waiting, t) = ⊥

  returns-cases :
      (x : Exit) → (returns uniq E x ≡ done tt) ⊎ ((e : String) × (returns uniq E x ≡ exit e))
  returns-cases none = inl refl
  returns-cases (some e) = inr (e, refl)

  smn_receiver-cases :
      (s : State E)
      → ((smn_receiver uniq E s).0 ≡ done tt)
        ⊎ ((e : String) × ((smn_receiver uniq E s).0 ≡ exit e))
  unfolding smn_receiver
  smn_receiver-cases s = returns-cases (listen uniq E 3 (no_subscriber, s)).0

  wait : Exec E Unit
  wait = do _ ← perform E wait_done; pure tt

  wait-Starts : (n k : ℕ) (s : State E) → Has (n + k) s → Starts n k (wait s)
  unfolding wait perform ◌>>=◌
  wait-Starts n k s h = omega (arith, h)

  receive-Starts : (n k : ℕ) (s : State E) → Has (n + k) s → Starts n k (receive uniq E s)
  unfolding receive wait
  receive-Starts n k s h =
      let t = (smn_receiver uniq E s).1 in
      let kept_ = smn_receiver-Has (n + k) s h in
      elim (smn_receiver-cases s) [
        | inl d ↦
            rw (bind-done (smn_receiver uniq E) (λ _. wait) s t tt (λ i. (d i, t)))
              (wait-Starts n k t kept_)
        | inr (e, d) ↦ rw (bind-exit (smn_receiver uniq E) (λ _. wait) s t e (λ i. (d i, t))) kept_
      ]

  after_sync-Starts :
      (n : ℕ) (num_workers : ℤ) (synced : Bool) (s : State E)
      → Has n s
      → Starts n (pos_part num_workers) (after_sync uniq E num_workers synced s)
  unfolding after_sync raise
  after_sync-Starts n num_workers false s h = h
  after_sync-Starts n num_workers true s h =
      let k = pos_part num_workers in
      let t = (start_workers uniq E k s).1 in
      let (ends, counted) = start_workers-Has k n s h in
      rw (bind-done (start_workers uniq E k) (λ _. receive uniq E) s t tt (λ i. (ends i, t)))
        (receive-Starts n k t counted)

  run_informed-Starts :
      (n : ℕ) (num_workers : ℤ) (s : State E)
      → Has n s
      → Starts n (pos_part num_workers) (run_informed uniq E num_workers s)
  unfolding run_informed perform ◌>>=◌
  run_informed-Starts n num_workers s h = after_sync-Starts n num_workers _ _ (omega (arith, h))

  closed :
      (n k : ℕ) (p : Outcome Unit × State E)
      → Starts n k p
      → Starts n k (p.0, cleaned p.0 (perform E shut_down_queue) p.1)
  unfolding perform
  closed n k (fail e, t) h = omega (arith, h)
  closed n k (done a, t) h = omega (arith, h)
  closed n k (exit e, t) h = h
  closed n k (panic e, t) h = h
  closed n k (waiting, t) h = h

  -- Whatever the world answers and whatever requests the receiver serves: where Run returns an error,
  -- it has started no worker; where it returns nil, or a request has ended the process, it has started
  -- exactly as many as it was told, none for a negative number; and it comes to nothing else.
  pub run-Starts :
      (num_workers : ℤ) (s : State E)
      → Starts (workers s.trace) (pos_part num_workers) (run uniq E num_workers s)
  unfolding run finally
  run-Starts num_workers s =
      closed (workers s.trace) (pos_part num_workers) (run_informed uniq E num_workers s)
        (run_informed-Starts (workers s.trace) num_workers s refl)
