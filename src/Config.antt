-- ===== src/Config.antt =====
-- internal/config/config.go: the configuration from the environment, and how it is printed.
pub mod Duration
pub mod Node
use otc_rds_operator.Prelude.{
  ℕ, ◌*◌, String, ◌<>◌, Bool, true, false, ◌==◌, int_text, if◌then◌else◌,
}
use otc_rds_operator.Prelude.Int.{ℤ, pos, mul_int}
use otc_rds_operator.Cloud.{Reply, ok, failed}
use otc_rds_operator.Config.Duration.{second, duration_text}

-- The library github.com/gotway/gotway/pkg/env, over the environment of the process.
pub record EnvReader : Type 0 where
  pub get : String → String → String
  pub get_bool : String → Bool → Bool
  pub get_int : String → ℤ → ℤ
  pub get_duration : String → ℤ → ℤ

-- Durations are in nanoseconds.
pub record Ha : Type 0 where
  pub enabled : Bool
  pub node_id : String
  pub lease_lock_name : String
  pub lease_duration : ℤ
  pub renew_deadline : ℤ
  pub retry_period : ℤ

pub record Metrics : Type 0 where
  pub enabled : Bool
  pub path : String
  pub port : String

pub record Config : Type 0 where
  pub kube_config : String
  pub namespace : String
  pub watch_namespaces : String
  pub num_workers : ℤ
  pub ha : Ha
  pub metrics : Metrics
  pub env : String
  pub log_level : String
  pub refresh_time : ℤ

abbrev bool_text : Bool → String
bool_text true = "true"
bool_text false = "false"

-- One part of a format, a text in front and the value behind it.
infixr 66 ◌<'◌'>◌
abbrev ◌<'◌'>◌ : String → String → String → String
name <' value '> rest = name <> ("='" <> (value <> ("'" <> rest)))

-- HA.String
unfoldable pub ha_text : Ha → String
unfolding duration_text
ha_text c =
    "HA{"
    <> ("Enabled"
        <' bool_text c.enabled '>
          ("NodeId"
            <' c.node_id '>
              ("LeaseLockName"
                <' c.lease_lock_name '>
                  ("LeaseDuration"
                    <' duration_text c.lease_duration '>
                      ("RenewDeadline"
                        <' duration_text c.renew_deadline '>
                          ("RetryPeriod" <' duration_text c.retry_period '> "}"))))))

-- Metrics.String
unfoldable pub metrics_text : Metrics → String
metrics_text m =
    "Metrics{"
    <> ("Enabled" <' bool_text m.enabled '> ("Path" <' m.path '> ("Port" <' m.port '> "}")))

-- Config.String
unfoldable pub config_text : Config → String
unfolding ha_text metrics_text int_text
config_text c =
    "Config{"
    <> ("KubeConfig"
        <' c.kube_config '>
          ("Namespace"
            <' c.namespace '>
              ("WatchNamespaces"
                <' c.watch_namespaces '>
                  ("NumWorkers"
                    <' int_text c.num_workers '>
                      ("HA"
                        <' ha_text c.ha '>
                          ("Metrics"
                            <' metrics_text c.metrics '>
                              ("Env"
                                <' c.env '>
                                  ("LogLevel='"
                                    <> (c.log_level
                                        <> ("RefreshTime'"
                                            <> (int_text c.refresh_time <> "'}")))))))))))

module _ (R : EnvReader) (hostname : Reply String) where
  -- The node's name is read only with `HA_ENABLED`; `os.Hostname` is called only without an id.
  abbrev pub host_id : Reply String → Reply String
  host_id (ok name) = ok name
  host_id (failed e) = failed ("error getting node id " <> e)

  abbrev pub node_id : Bool → Reply String
  node_id ha =
      if ha
      then (let id = R.get "HA_NODE_ID" "" in if id == "" then host_id hostname else ok id)
      else ok ""

  abbrev pub config_of : Bool → String → Config
  config_of ha id = record {
    kube_config = R.get "KUBECONFIG" "";
    namespace = R.get "NAMESPACE" "default";
    watch_namespaces = R.get "WATCHNAMESPACES" "default";
    num_workers = R.get_int "NUM_WORKERS" (pos 4);
    ha = record {
      enabled = ha;
      node_id = id;
      lease_lock_name = R.get "HA_LEASE_LOCK_NAME" "otc-rds-operator";
      lease_duration = mul_int (R.get_duration "HA_LEASE_DURATION_SECONDS" (pos 15)) second;
      renew_deadline = mul_int (R.get_duration "HA_RENEW_DEADLINE_SECONDS" (pos 10)) second;
      retry_period = mul_int (R.get_duration "HA_RETRY_PERIOD_SECONDS" (pos 2)) second;
    };
    metrics = record {
      enabled = R.get_bool "METRICS_ENABLED" true;
      path = R.get "METRICS_PATH" "/metrics";
      port = R.get "METRICS_PORT" "2112";
    };
    env = R.get "ENV" "local";
    log_level = R.get "LOG_LEVEL" "debug";
    refresh_time = R.get_int "REFRESH_TIME" (pos 10);
  }

  abbrev pub config_with : Bool → Reply String → Reply Config
  config_with ha (ok id) = ok (config_of ha id)
  config_with ha (failed e) = failed e

  -- GetConfig
  unfoldable pub get_config : Reply Config
  unfolding mul_int
  get_config = let ha = R.get_bool "HA_ENABLED" false in config_with ha (node_id ha)
