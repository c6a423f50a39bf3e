-- ===== src/Runner.antt =====
-- internal/runner/runner.go: one controller, or the election of the one that works.
pub mod Leading
use otc_rds_operator.Prelude.{
  true, String, ◌<>◌, Bool, not, ◌&&◌, ◌||◌, ◌==◌, List, [], ◌∷◌, nat_eq, if◌then◌else◌,
}
use otc_rds_operator.Prelude.Int.{ℤ, pos_part, neg_part}
use otc_rds_operator.Cloud.{
  Env, Reply, ok, failed, Lease, Election, started_leading, stopped_leading, new_leader, run_or_die,
}
use otc_rds_operator.Exec.{Exec, pure, exit_with, crash, perform, ◌>>=◌, ◌>>◌}
use otc_rds_operator.Config.{Config, Ha}
use otc_rds_operator.Flavor.{Uniq}
use otc_rds_operator.Smn.Receiver.{attempt}
use otc_rds_operator.Controller.Start.{run}

-- `r.config.HA == (config.HA{})`
abbrev is_zero : ℤ → Bool
is_zero d = nat_eq (pos_part d) 0 && nat_eq (neg_part d) 0

unfoldable pub ha_is_zero : Ha → Bool
ha_is_zero c =
    not c.enabled
    && c.node_id == ""
    && c.lease_lock_name == ""
    && is_zero c.lease_duration
    && is_zero c.renew_deadline
    && is_zero c.retry_period

abbrev pub lease_of : Config → Lease
lease_of c = record {
  name = c.ha.lease_lock_name;
  namespace = c.namespace;
  identity = c.ha.node_id;
  release_on_cancel = true;
  lease_duration = c.ha.lease_duration;
  renew_deadline = c.ha.renew_deadline;
  retry_period = c.ha.retry_period;
}

module _ {E : Env} where
  -- `if err != nil { logger.Fatal(text, err) }`.
  unfoldable pub or_fatal : String → Reply Unit → Exec E Unit
  or_fatal text (ok a) = pure tt
  or_fatal text (failed e) = exit_with (text <> e)

  -- A panic of the library.
  unfoldable pub or_panic : {A : Type 0} → Reply A → Exec E A
  or_panic (ok a) = pure a
  or_panic (failed e) = crash e

module _ (uniq : Uniq) (E : Env) where
  unfoldable pub run_single_node : Config → Exec E Unit
  unfolding or_fatal run
  run_single_node c = do
    err ← attempt (run uniq E c.num_workers)
    or_fatal "error running controller " err

  -- The callbacks, in the order in which the election calls them.
  unfoldable pub lead : Config → List Election → Exec E Unit
  unfolding run_single_node
  lead c [] = pure tt
  lead c (started_leading ∷ rest) = do run_single_node c; lead c rest
  lead c (stopped_leading ∷ rest) = lead c rest
  lead c (new_leader identity ∷ rest) = lead c rest

  unfoldable pub run_ha : Config → Exec E Unit
  unfolding lead or_panic ha_is_zero
  run_ha c =
      if ha_is_zero c.ha || not c.ha.enabled
      then exit_with "HA config not set or not enabled"
      else do
        answer ← perform E (run_or_die (lease_of c))
        elections ← or_panic answer
        lead c elections

  -- Start
  unfoldable pub start : Config → Exec E Unit
  unfolding run_ha run_single_node
  start c = if c.ha.enabled then run_ha c else run_single_node c
