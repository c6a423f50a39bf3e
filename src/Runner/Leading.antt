-- ===== src/Runner/Leading.antt =====
-- internal/runner/runner.go: the workers that are started.
use otc_rds_operator.Prelude.{
  ℕ, ◌+◌, ◌≤◌, ◌≡◌, refl, subst, Bool, true, false, not, ◌||◌, String, List, [], ◌∷◌, arith,
  if◌then◌else◌,
}
use otc_rds_operator.Prelude.Int.{pos_part}
use otc_rds_operator.Cloud.{
  Env, Reply, ok, failed, Election, started_leading, stopped_leading, new_leader, run_or_die,
}
use otc_rds_operator.Exec.{
  State, Exec, Outcome, done, fail, panic, exit, waiting, continue, pure, exit_with, perform, ◌>>=◌,
}
use otc_rds_operator.Exec.Run.{otherwise}
use otc_rds_operator.Config.{Config, Ha}
use otc_rds_operator.Flavor.{Uniq}
use otc_rds_operator.Smn.Receiver.{attempt, caught}
use otc_rds_operator.Controller.Start.{run}
use otc_rds_operator.Controller.Started.{workers, Starts, run-Starts}
use otc_rds_operator.Runner.{
  lease_of, or_fatal, or_panic, run_single_node, lead, ha_is_zero, run_ha, start,
}

-- How many workers are started with `k` at each time that the leadership is obtained.
abbrev pub all_workers : ℕ → List Election → ℕ
all_workers k [] = 0
all_workers k (started_leading ∷ rest) = k + all_workers k rest
all_workers k (stopped_leading ∷ rest) = all_workers k rest
all_workers k (new_leader identity ∷ rest) = all_workers k rest

has_ha : (h : Ha) → h.enabled ≡ true → (ha_is_zero h || not h.enabled) ≡ false
unfolding ha_is_zero
has_ha h e = rw e refl

abbrev pub called_back : Reply (List Election) → List Election
called_back (ok es) = es
called_back (failed e) = []

-- High availability is on, and RunOrDie panics on the configuration.
abbrev pub IsRefused : Env → Config → String → Type 0
IsRefused E c e =
    c.ha.enabled ≡ true × ((w : E.World) × ((E.answer (run_or_die (lease_of c)) w).0 ≡ failed e))

-- `P` tells which panics there may be.
module _ (uniq : Uniq) (E : Env) (P : String → Type 0) where
  -- All of `k` workers, or at most so many at the end of the process and at a panic.
  abbrev pub AtMost : ℕ → ℕ → Outcome Unit × State E → Type 0
  AtMost n k (done a, t) = workers t.trace ≡ n + k
  AtMost n k (exit e, t) = workers t.trace ≤ n + k
  AtMost n k (fail e, t) = ⊥
  AtMost n k (panic e, t) = P e × (workers t.trace ≤ n + k)
  AtMost n k (waiting, t) = ⊥

  or_fatal-AtMost :
      (n k : ℕ) (text : String) (p : Outcome Unit × State E)
      → Starts uniq E n k p
      → AtMost n k (continue (caught p.0) (or_fatal text) p.1)
  unfolding or_fatal exit_with pure
  or_fatal-AtMost n k text (done a, t) h = h
  or_fatal-AtMost n k text (fail e, t) h = omega (arith, h)
  or_fatal-AtMost n k text (exit e, t) h = omega (arith, h)
  or_fatal-AtMost n k text (panic e, t) h = absurd h
  or_fatal-AtMost n k text (waiting, t) h = h

  run_single_node-AtMost :
      (c : Config) (s : State E)
      → AtMost (workers s.trace) (pos_part c.num_workers) (run_single_node uniq E c s)
  unfolding run_single_node attempt ◌>>=◌
  run_single_node-AtMost c s =
      or_fatal-AtMost (workers s.trace) (pos_part c.num_workers) "error running controller "
        (run uniq E c.num_workers s) (run-Starts uniq E c.num_workers s)

  shift-AtMost :
      (n k l w : ℕ) (p : Outcome Unit × State E) → w ≡ n + k → AtMost w l p → AtMost n (k + l) p
  shift-AtMost n k l w (done a, t) e h = omega (arith, e, h)
  shift-AtMost n k l w (exit x, t) e h = omega (arith, e, h)
  shift-AtMost n k l w (fail x, t) e h = h
  shift-AtMost n k l w (panic x, t) e h = (h.0, omega (arith, e, h.1))
  shift-AtMost n k l w (waiting, t) e h = h

  -- One block after another.
  then-AtMost :
      (n k l : ℕ) (p : Outcome Unit × State E) (m : Exec E Unit)
      → AtMost n k p
      → ((t : State E) → AtMost (workers t.trace) l (m t))
      → AtMost n (k + l) (continue p.0 (λ _. m) p.1)
  then-AtMost n k l (done a, t) m h later = shift-AtMost n k l (workers t.trace) (m t) h (later t)
  then-AtMost n k l (exit e, t) m h later = omega (arith, h)
  then-AtMost n k l (fail e, t) m h later = h
  then-AtMost n k l (panic e, t) m h later = (h.0, omega (arith, h.1))
  then-AtMost n k l (waiting, t) m h later = h

  lead-AtMost :
      (c : Config) (es : List Election) (s : State E)
      → AtMost (workers s.trace) (all_workers (pos_part c.num_workers) es) (lead uniq E c es s)
  unfolding lead ◌>>=◌
  lead-AtMost c [] s = omega arith
  lead-AtMost c (started_leading ∷ rest) s =
      then-AtMost (workers s.trace) (pos_part c.num_workers)
        (all_workers (pos_part c.num_workers) rest) (run_single_node uniq E c s)
        (lead uniq E c rest) (run_single_node-AtMost c s) (lead-AtMost c rest)
  lead-AtMost c (stopped_leading ∷ rest) s = lead-AtMost c rest s
  lead-AtMost c (new_leader identity ∷ rest) s = lead-AtMost c rest s

  -- What the election calls.
  abbrev pub elections : Config → State E → List Election
  elections c s = called_back (E.answer (run_or_die (lease_of c)) s.world).0

  answered-AtMost :
      (c : Config) (n : ℕ) (answer : Reply (List Election)) (t : State E)
      → workers t.trace ≡ n
      → ((e : String) → answer ≡ failed e → P e)
      → AtMost n
          (all_workers (pos_part c.num_workers) (called_back answer))
          ((or_panic answer >>= lead uniq E c) t)
  unfolding or_panic ◌>>=◌
  answered-AtMost c n (ok es) t same refused =
      subst (λ m. AtMost m (all_workers (pos_part c.num_workers) es) (lead uniq E c es t)) same
        (lead-AtMost c es t)
  answered-AtMost c n (failed e) t same refused = (refused e refl, omega (arith, same))

  run_ha-AtMost :
      (c : Config) (s : State E)
      → c.ha.enabled ≡ true
      → ((e : String) → IsRefused E c e → P e)
      → AtMost
          (workers s.trace)
          (all_workers (pos_part c.num_workers) (elections c s))
          (run_ha uniq E c s)
  unfolding run_ha ha_is_zero perform ◌>>=◌
  run_ha-AtMost c s enabled refused =
      rw
        (otherwise (ha_is_zero c.ha || not c.ha.enabled) (exit_with unset) from_election s
          (has_ha c.ha enabled))
        (answered-AtMost c (workers s.trace) (E.answer (run_or_die (lease_of c)) s.world).0 elected
          counted (λ e is. refused e (enabled, (s.world, is))))
    where
      elected : State E
      elected = (perform E (run_or_die (lease_of c)) s).1

      counted : workers elected.trace ≡ workers s.trace
      counted = omega arith

      unset : String
      unset = "HA config not set or not enabled"

      from_election : Exec E Unit
      from_election = do
        answer ← perform E (run_or_die (lease_of c))
        es ← or_panic answer
        lead uniq E c es

  if-AtMost :
      (b : Bool) (n k l : ℕ) (p q : Exec E Unit) (s : State E)
      → (b ≡ true → AtMost n k (p s))
      → (b ≡ false → AtMost n l (q s))
      → AtMost n (if b then k else l) ((if b then p else q) s)
  if-AtMost true n k l p q s h g = h refl
  if-AtMost false n k l p q s h g = g refl

  -- The workers that the configuration asks for.
  abbrev pub wanted : Config → State E → ℕ
  wanted c s =
      if c.ha.enabled
      then all_workers (pos_part c.num_workers) (elections c s)
      else pos_part c.num_workers

  start-AtMost_with :
      (c : Config) (s : State E)
      → ((e : String) → IsRefused E c e → P e)
      → AtMost (workers s.trace) (wanted c s) (start uniq E c s)
  unfolding start
  start-AtMost_with c s refused =
      if-AtMost c.ha.enabled (workers s.trace)
        (all_workers (pos_part c.num_workers) (elections c s)) (pos_part c.num_workers)
        (run_ha uniq E c) (run_single_node uniq E c) s (λ on. run_ha-AtMost c s on refused)
        (λ _. run_single_node-AtMost c s)

module _ (uniq : Uniq) (E : Env) where
  pub start-AtMost :
      (c : Config) (s : State E)
      → AtMost uniq E
          (IsRefused E c)
          (workers s.trace)
          (wanted uniq E (IsRefused E c) c s)
          (start uniq E c s)
  start-AtMost c s = start-AtMost_with uniq E (IsRefused E c) c s (λ e is. is)
