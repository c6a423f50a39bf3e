-- ===== src/Cloud.antt =====
-- What the operator asks of the world outside it, and the answers: the Open Telekom Cloud API
-- (gophertelekomcloud), the Kubernetes API (client-go), the MySQL server, HTTP and the clock. All
-- of these are a parameter of the model: an `Env` answers each call from a state of its own,
-- which no definition looks into.
mod Types
pub use Types.*
use otc_rds_operator.Prelude.{ℕ, String, Bool, Option, List}
use otc_rds_operator.Prelude.Int.{ℤ}
use otc_rds_operator.Rds.{Rds}

pub data Call : Type 0 where
  -- identity and clients
  auth_options : (String → String) → Call
  authenticate : AuthOptions → Call
  new_client : Service → Call
  create_token : AuthOptions → String → Call
  revoke_token : String → Call
  in_cluster_config new_rds_client new_kube_client : Call
  -- rds v3
  list_instances : InstanceQuery → Call
  create_instance : CreateOpts → Call
  delete_instance : String → Call
  enlarge_volume : ℤ → String → Call
  resize_flavor : String → String → Call
  restart_instance : String → Call
  restore_backup : String → ℤ → Call
  create_backup : String → String → String → Call
  wait_backup : String → String → Call
  wait_job : String → Call
  list_flavors : String → String → Call
  -- network
  list_secgroups list_subnets list_vpcs : String → Call
  -- kubernetes
  update_rds : Rds → Call
  update_rds_in : String → Rds → Call
  get_rds : String → String → Call
  get_service : String → String → Call
  delete_service : String → String → Call
  create_service : KubeService → Call
  create_endpoints update_endpoints : KubeEndpoints → Call
  create_job : KubeJob → Call
  get_job : String → String → Call
  watch_jobs : String → String → Call
  next_event : Call
  record_event : String → String → Call
  -- monitoring and notification
  list_topics list_subscriptions list_alarms : Call
  create_topic : String → Call
  create_subscription : String → String → Call
  create_alarm : AlarmOpts → Call
  delete_alarm delete_topic : String → Call
  -- sql
  sql_open : String → Call
  sql_ping sql_close : Call
  sql_prepare : String → Call
  sql_select : String → String → Call
  sql_query : String → Call
  -- the process: its client configuration, the informer, the workers, the metrics, the election
  build_config : String → Call
  start_informer wait_cache_sync start_worker wait_done shut_down_queue : Call
  start_recorder : String → Call
  watch_signals : List String → Call
  stop_signals : Call
  start_metrics : String → String → Call
  stop_metrics : Call
  run_or_die : Lease → Call
  -- http, clock
  http_get : String → Call
  listen_and_serve : String → Call
  now : Call
  sleep : ℕ → Call

-- The type of the answer: what the calling Go code receives. An error of `run_or_die` is the panic that
-- leaderelection.RunOrDie documents for an invalid configuration.
abbrev pub Answer : Call → Type 0
Answer (auth_options _) = Reply AuthOptions
Answer (authenticate _) = Reply Unit
Answer (new_client _) = Reply Unit
Answer (create_token _ _) = Reply String
Answer (revoke_token _) = Unit
Answer in_cluster_config = Reply Unit
Answer new_rds_client = Reply Unit
Answer new_kube_client = Reply Unit
Answer (list_instances _) = Reply (Reply (List Instance))
Answer (create_instance _) = ApiResult
Answer (delete_instance _) = ApiResult
Answer (enlarge_volume _ _) = ApiResult
Answer (resize_flavor _ _) = ApiResult
Answer (restart_instance _) = Reply String
Answer (restore_backup _ _) = ApiResult
Answer (create_backup _ _ _) = Reply String
Answer (wait_backup _ _) = Reply Unit
Answer (wait_job _) = Reply Unit
Answer (list_flavors _ _) = Reply (Reply (List Flavor))
Answer (list_secgroups _) = Reply (List String)
Answer (list_subnets _) = Reply (List String)
Answer (list_vpcs _) = Reply (List String)
Answer (update_rds _) = Rds × Option String
Answer (update_rds_in _ _) = Rds × Option String
Answer (get_rds _ _) = Rds × Option String
Answer (get_service _ _) = KubeReply ServiceMeta
Answer (delete_service _ _) = Reply Unit
Answer (create_service _) = Reply Unit
Answer (create_endpoints _) = Reply Unit
Answer (update_endpoints _) = Reply Unit
Answer (create_job _) = KubeReply Unit
Answer (get_job _ _) = Bool × Option String
Answer (watch_jobs _ _) = Reply Unit
Answer next_event = WatchEvent
Answer (record_event _ _) = Unit
Answer list_topics = Reply (List Topic)
Answer list_subscriptions = Reply (List String)
Answer list_alarms = Option (List Alarm) × Option String
Answer (create_topic _) = Option String × Option String
Answer (create_subscription _ _) = Reply Unit
Answer (create_alarm _) = Reply String
Answer (delete_alarm _) = Unit
Answer (delete_topic _) = Unit
Answer (sql_open _) = Reply Unit
Answer sql_ping = Reply Unit
Answer sql_close = Unit
Answer (sql_prepare _) = Reply Unit
Answer (sql_select _ _) = Reply Bool
Answer (sql_query _) = Reply Unit
Answer (http_get _) = Reply Unit
Answer (listen_and_serve _) = List Request × Option String
Answer (build_config _) = Reply Unit
Answer start_informer = Unit
Answer wait_cache_sync = Bool
Answer start_worker = Unit
Answer wait_done = Unit
Answer shut_down_queue = Unit
Answer (start_recorder _) = Unit
Answer (watch_signals _) = Unit
Answer stop_signals = Unit
Answer (start_metrics _ _) = Unit
Answer stop_metrics = Unit
Answer (run_or_die _) = Reply (List Election)
Answer now = ℕ
Answer (sleep _) = Unit

pub record Env : Type 1 where
  pub World : Type 0
  pub answer : (c : Call) → World → Answer c × World

-- A call with the answer that it got, and a run's calls, the latest first.
pub record Entry : Type 0 where
  pub call : Call
  pub reply : Answer call

abbrev pub Trace : Type 0
Trace = List Entry
