-- ===== src/Main.antt =====
-- cmd/main.go. What is written to the logger is left out.
pub mod Ended
use otc_rds_operator.Prelude.{String, ◌<>◌, Bool, ◌==◌, List, [], ◌∷◌, if◌then◌else◌}
use otc_rds_operator.Cloud.{
  Env, Reply, ok, failed, build_config, in_cluster_config, new_kube_client, new_rds_client,
  start_recorder, watch_signals, stop_signals, start_metrics, stop_metrics,
}
use otc_rds_operator.Exec.{Exec, pure, crash, finally, perform, ◌>>=◌, ◌>>◌}
use otc_rds_operator.Config.{EnvReader, Config, get_config}
use otc_rds_operator.Flavor.{Uniq}
use otc_rds_operator.Controller.Start.{Controller, new_controller}
use otc_rds_operator.Runner.{or_fatal, start}

-- The controller that is made from the configuration.
abbrev pub controller_of : Config → Controller
controller_of c = new_controller c.namespace c.watch_namespaces c.refresh_time

-- The logger, with the fields that it adds to each line.
pub record Logger : Type 0 where
  pub fields : List (String × String)
  pub env : String
  pub log_level : String

-- getLogger
unfoldable pub get_logger : Config → Logger
get_logger c =
    let logger : Logger = record {
      fields = ("service", "otc-rds-operator") ∷ [];
      env = c.env;
      log_level = c.log_level;
    } in
    if c.ha.enabled
    then record logger { fields = ("node", c.ha.node_id) ∷ logger.fields }
    else logger

-- The signals that end the program.
abbrev pub signals : List String
signals = "SIGINT" ∷ "SIGINT" ∷ "SIGTERM" ∷ "SIGKILL" ∷ "SIGHUP" ∷ "SIGQUIT" ∷ []

module _ (uniq : Uniq) (E : Env) where
  unfoldable pub client_config : Config → Exec E (Reply Unit)
  client_config c =
      if c.kube_config == ""
      then perform E in_cluster_config
      else perform E (build_config c.kube_config)

  unfoldable pub connect : Config → Exec E Unit
  unfolding client_config or_fatal
  connect c = do
    rest_config ← client_config c
    or_fatal "error getting kubernetes config " rest_config
    kube_client_set ← perform E new_kube_client
    or_fatal "error getting kubernetes client " kube_client_set
    rds_client_set ← perform E new_rds_client
    or_fatal "error creating rds client " rds_client_set

  -- From the metrics on.
  unfoldable pub serve_and_start : Config → Exec E Unit
  unfolding start finally
  serve_and_start c =
      if c.metrics.enabled
      then (do
        _ ← perform E (start_metrics c.metrics.path c.metrics.port)
        finally (start uniq E c) (perform E stop_metrics))
      else start uniq E c

  -- From the recorder of events on; `cancel` is deferred.
  unfoldable pub record_and_serve : Config → Exec E Unit
  unfolding serve_and_start finally
  record_and_serve c = do
    _ ← perform E (start_recorder "otc-rds-operator")
    _ ← perform E (watch_signals signals)
    finally (serve_and_start c) (perform E stop_signals)

  unfoldable pub main_with : Reply Config → Exec E Unit
  unfolding connect record_and_serve
  main_with (failed e) = crash ("error getting config " <> e)
  main_with (ok c) = do connect c; record_and_serve c

  -- main
  unfoldable pub main : EnvReader → Reply String → Exec E Unit
  unfolding main_with get_config
  main R hostname = main_with (get_config R hostname)
