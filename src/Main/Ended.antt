-- ===== src/Main/Ended.antt =====
-- cmd/main.go: how main ends.
use otc_rds_operator.Prelude.{
  ℕ, ◌<>◌, ◌≡◌, refl, sym, subst, ◌⊎◌, inl, inr, Bool, true, false, ◌==◌, String, if◌then◌else◌,
}
use otc_rds_operator.Cloud.{Env, Call, Reply, ok, failed, build_config, in_cluster_config}
use otc_rds_operator.Exec.{
  State, Exec, Outcome, done, fail, panic, exit, waiting, continue, finally, pure, exit_with, crash,
  perform, ◌>>=◌,
}
use otc_rds_operator.Config.{EnvReader, Config, get_config}
use otc_rds_operator.Config.Node.{HasNoNode, get_config-fails}
use otc_rds_operator.Flavor.{Uniq}
use otc_rds_operator.Runner.{or_fatal, start}
use otc_rds_operator.Runner.Leading.{AtMost, IsRefused, wanted, start-AtMost}
use otc_rds_operator.Controller.Started.{workers}
use otc_rds_operator.Main.{
  client_config, connect, serve_and_start, record_and_serve, main_with, main,
}

-- A return, the end of the process by the logger, or a panic that `P` allows.
abbrev pub Ends : {A : Type 0} → (String → Type 0) → Outcome A → Type 0
Ends P (done a) = Unit
Ends P (exit e) = Unit
Ends P (fail e) = ⊥
Ends P (panic e) = P e
Ends P waiting = ⊥

module _ {E : Env} {A B : Type 0} (P : String → Type 0) where
  continue-Ends :
      (r : Outcome A) (f : A → Exec E B) (t : State E)
      → Ends P r
      → ((a : A) (u : State E) → Ends P (f a u).0)
      → Ends P (continue r f t).0
  continue-Ends (done a) f t h k = k a t
  continue-Ends (exit e) f t h k = tt
  continue-Ends (fail e) f t h k = h
  continue-Ends (panic e) f t h k = h
  continue-Ends waiting f t h k = h

-- An action that ends so from every state.
data Ending {E : Env} {A : Type 0} (P : String → Type 0) (m : Exec E A) : Type 0 where
  ending : ((s : State E) → Ends P (m s).0) → Ending P m

ended :
    {E : Env} {A : Type 0} {P : String → Type 0} {m : Exec E A}
    → Ending P m
    → (s : State E) → Ends P (m s).0
ended (ending h) = h

module _ {E : Env} {A B : Type 0} {P : String → Type 0} where
  Ending-bind :
      (m : Exec E A) (f : A → Exec E B)
      → Ending P m
      → ((a : A) → Ending P (f a))
      → Ending P (m >>= f)
  unfolding ◌>>=◌
  Ending-bind m f h k =
      ending (λ s. continue-Ends P (m s).0 f (m s).1 (ended h s) (λ a u. ended (k a) u))

  Ending-finally : (m : Exec E A) (cleanup : Exec E B) → Ending P m → Ending P (finally m cleanup)
  unfolding finally
  Ending-finally m cleanup h = ending (ended h)

module _ {E : Env} {P : String → Type 0} where
  Ending-perform : (c : Call) → Ending P (perform E c)
  unfolding perform
  Ending-perform c = ending (λ s. tt)

  Ending-if :
      {A : Type 0} (b : Bool) (m n : Exec E A)
      → Ending P m
      → Ending P n
      → Ending P (if b then m else n)
  Ending-if true m n h k = h
  Ending-if false m n h k = k

  Ending-or_fatal : (text : String) (r : Reply Unit) → Ending P (or_fatal {E = E} text r)
  unfolding or_fatal pure exit_with
  Ending-or_fatal text (ok a) = ending (λ s. tt)
  Ending-or_fatal text (failed e) = ending (λ s. tt)

ruleset ending_rules = (Ending-bind, Ending-finally, Ending-perform, Ending-if, Ending-or_fatal)

module _ (uniq : Uniq) (E : Env) where
  AtMost-Ends :
      (P : String → Type 0) (n k : ℕ) (p : Outcome Unit × State E)
      → AtMost uniq E P n k p
      → Ends P p.0
  AtMost-Ends P n k (done a, t) h = tt
  AtMost-Ends P n k (exit e, t) h = tt
  AtMost-Ends P n k (fail e, t) h = h
  AtMost-Ends P n k (panic e, t) h = h.0
  AtMost-Ends P n k (waiting, t) h = h

  start-Ending : (c : Config) → Ending (IsRefused E c) (start uniq E c)
  start-Ending c = ending λ s.
      AtMost-Ends (IsRefused E c) (workers s.trace) (wanted uniq E (IsRefused E c) c s)
        (start uniq E c s) (start-AtMost uniq E c s)

  client_config-Ending : (c : Config) → Ending (IsRefused E c) (client_config uniq E c)
  unfolding client_config
  client_config-Ending c =
      Ending-if (c.kube_config == "") (perform E in_cluster_config)
        (perform E (build_config c.kube_config)) (Ending-perform in_cluster_config)
        (Ending-perform (build_config c.kube_config))

  connect-Ending : (c : Config) → Ending (IsRefused E c) (connect uniq E c)
  unfolding connect
  connect-Ending c = search (ending_rules, client_config-Ending) depth 16

  serve_and_start-Ending : (c : Config) → Ending (IsRefused E c) (serve_and_start uniq E c)
  unfolding serve_and_start
  serve_and_start-Ending c = search (ending_rules, start-Ending) depth 16

  record_and_serve-Ending : (c : Config) → Ending (IsRefused E c) (record_and_serve uniq E c)
  unfolding record_and_serve
  record_and_serve-Ending c = search (ending_rules, serve_and_start-Ending) depth 16

  main_with-Ending : (c : Config) → Ending (IsRefused E c) (main_with uniq E (ok c))
  unfolding main_with
  main_with-Ending c = search (ending_rules, connect-Ending, record_and_serve-Ending)

  main_with-panic :
      (e : String) (s : State E)
      → main_with uniq E (failed e) s ≡ (panic ("error getting config " <> e), s)
  unfolding main_with crash
  main_with-panic e s = refl

  -- main ends by a return or by the logger's end of the process, never with an error that nobody looks
  -- at, and by a panic in two cases only: where high availability is on, no id of the node is set and the
  -- host has no name, before it calls anything, and where high availability is on and RunOrDie panics on
  -- the configuration of the lease, with that panic.
  pub main-Ends :
      (R : EnvReader) (hostname : Reply String) (s : State E)
      → ((c : Config) × (get_config R hostname ≡ ok c)
          × Ends (IsRefused E c) (main uniq E R hostname s).0)
        ⊎ ((e : String) × HasNoNode R hostname e
            × (main uniq E R hostname s ≡ (panic ("error getting config " <> e), s)))
  unfolding main
  main-Ends R hostname s = go (get_config R hostname) refl
    where
      go :
          (r : Reply Config)
          → get_config R hostname ≡ r
          → ((c : Config) × (get_config R hostname ≡ ok c)
              × Ends (IsRefused E c) (main_with uniq E (get_config R hostname) s).0)
            ⊎ ((e : String) × HasNoNode R hostname e
                × (main_with uniq E (get_config R hostname) s
                    ≡ (panic ("error getting config " <> e), s)))
      go (ok c) h = inl (
        c,
        h,
        subst (λ x. Ends (IsRefused E c) (main_with uniq E x s).0) (sym h)
            (ended (main_with-Ending c) s),
      )
      go (failed e) h = inr (e, (get_config-fails R hostname e).0 h, rw h (main_with-panic e s))
