-- ===== src/Tests/World.antt =====
-- A world in which every request succeeds: no instance of a name exists before it is created, and
-- the one that is found by its id is small.
use otc_rds_operator.Prelude.{true, false, none, some, List, [], ◌∷◌}
use otc_rds_operator.Prelude.Int.{pos}
use otc_rds_operator.Rds.{RdsSpec, RdsStatus, Rds}
use otc_rds_operator.Cloud.{
  Call, Answer, Env, ok, failed, found, Instance, ApiResult, auth_options, authenticate, new_client,
  create_token, revoke_token, in_cluster_config, new_rds_client, new_kube_client, list_instances,
  by_id, by_name, create_instance, delete_instance, enlarge_volume, resize_flavor, restart_instance,
  restore_backup, create_backup, wait_backup, wait_job, list_flavors, list_secgroups, list_subnets,
  list_vpcs, update_rds, update_rds_in, get_rds, get_service, delete_service, create_service,
  create_endpoints, update_endpoints, create_job, get_job, watch_jobs, next_event, cancelled,
  record_event, list_topics, list_subscriptions, list_alarms, create_topic, create_subscription,
  create_alarm, delete_alarm, delete_topic, sql_open, sql_ping, sql_close, sql_prepare, sql_select,
  sql_query, http_get, listen_and_serve, build_config, start_informer, wait_cache_sync,
  start_worker, wait_done, shut_down_queue, start_recorder, watch_signals, stop_signals,
  start_metrics, stop_metrics, run_or_die, started_leading, stopped_leading, now, sleep,
}
use otc_rds_operator.Exec.{State}

abbrev pub spec : RdsSpec
spec = record {
  availabilityzone = "eu-de-01";
  backuprestoretime = "";
  backupstarttime = "01:00-02:00";
  backupkeepdays = pos 10;
  databases = some ("project1" ∷ []);
  datastoretype = "MySQL";
  datastoreversion = "8.0";
  endpoint = "";
  flavorref = "rds.mysql.s1.medium";
  hamode = "";
  hareplicationmode = "";
  port = "3306";
  password = "secret";
  region = "eu-de";
  subnet = "net";
  securitygroup = "group";
  users = some (record {
    address = 1;
    users = some (
        record {
          name = "app1";
          host = "10.9.3.%";
          password = "app1";
          privileges = some ("GRANT ALL ON project1.* TO 'app1'" ∷ []);
        }
        ∷ []);
  });
  volumetype = "COMMON";
  volumesize = pos 100;
  vpc = "vpc";
}

abbrev pub status : RdsStatus
status = record {
  autopilot = false;
  id = "1";
  ip = "10.0.0.1";
  logs = false;
  reboot = false;
  status = "ACTIVE";
}

abbrev pub rds : Rds
rds = record { name = "db"; namespace = "default"; spec = spec; status = status }

abbrev pub instance_ : Instance
instance_ = record {
  id = "1";
  status = "ACTIVE";
  private_ips = "10.0.0.1" ∷ [];
  flavor_ref = "rds.mysql.s1.medium";
  volume_size = pos 40;
  nodes = "node" ∷ [];
}

abbrev pub made : ApiResult
made = record {
  err = none;
  extract = ok (record { id = "1"; status = "BUILD" });
  job_response = ok "job";
}

-- The instances that a look-up by name finds are the parameter.
unfoldable pub reply : List Instance → (c : Call) → Answer c
reply here (auth_options getenv) = ok (record {
  identity_endpoint = getenv "OS_AUTH_URL";
  username = "operator";
  password = "secret";
  domain_name = "domain";
})
reply here (authenticate _) = ok tt
reply here (new_client _) = ok tt
reply here (create_token _ _) = ok "token"
reply here (revoke_token _) = tt
reply here in_cluster_config = ok tt
reply here new_rds_client = ok tt
reply here new_kube_client = ok tt
reply here (list_instances (by_id _)) = ok (ok (instance_ ∷ []))
reply here (list_instances (by_name _)) = ok (ok here)
reply here (create_instance _) = made
reply here (delete_instance _) = made
reply here (enlarge_volume _ _) = made
reply here (resize_flavor _ _) = made
reply here (restart_instance _) = ok "job"
reply here (restore_backup _ _) = made
reply here (create_backup _ _ _) = ok "backup"
reply here (wait_backup _ _) = ok tt
reply here (wait_job _) = ok tt
reply here (list_flavors _ _) = ok (ok [])
reply here (list_secgroups _) = ok ("group-id" ∷ [])
reply here (list_subnets _) = ok ("net-id" ∷ [])
reply here (list_vpcs _) = ok ("vpc-id" ∷ [])
reply here (update_rds r) = (r, none)
reply here (update_rds_in _ r) = (r, none)
reply here (get_rds _ _) = (rds, none)
reply here (get_service n s) = found (record { name = s; namespace = n })
reply here (delete_service _ _) = ok tt
reply here (create_service _) = ok tt
reply here (create_endpoints _) = ok tt
reply here (update_endpoints _) = ok tt
reply here (create_job _) = found tt
reply here (get_job _ _) = (true, none)
reply here (watch_jobs _ _) = ok tt
reply here next_event = cancelled
reply here (record_event _ _) = tt
reply here list_topics = ok []
reply here list_subscriptions = ok []
reply here list_alarms = (some [], none)
reply here (create_topic _) = (some "urn", none)
reply here (create_subscription _ _) = ok tt
reply here (create_alarm _) = ok "alarm"
reply here (delete_alarm _) = tt
reply here (delete_topic _) = tt
reply here (sql_open _) = ok tt
reply here sql_ping = ok tt
reply here sql_close = tt
reply here (sql_prepare _) = ok tt
reply here (sql_select _ _) = ok false
reply here (sql_query _) = ok tt
reply here (http_get _) = ok tt
reply here (listen_and_serve _) = ([], some "address already in use")
reply here (build_config _) = ok tt
reply here start_informer = tt
reply here wait_cache_sync = true
reply here start_worker = tt
reply here wait_done = tt
reply here shut_down_queue = tt
reply here (start_recorder _) = tt
reply here (watch_signals _) = tt
reply here stop_signals = tt
reply here (start_metrics _ _) = tt
reply here stop_metrics = tt
reply here (run_or_die _) = ok (started_leading ∷ stopped_leading ∷ [])
reply here now = 1
reply here (sleep _) = tt

-- The cloud refuses the operator's credentials.
unfoldable pub refuse : (c : Call) → Answer c
unfolding reply
refuse (authenticate _) = failed "401"
refuse c = reply [] c

abbrev pub locked_world : Env
locked_world = record { World = Unit; answer = λ c w. (refuse c, w) }

abbrev pub world : List Instance → Env
world here = record { World = Unit; answer = λ c w. (reply here c, w) }

-- Nothing exists yet, or the instance is there.
abbrev pub empty_world : Env
empty_world = world []

abbrev pub full_world : Env
full_world = world (instance_ ∷ [])

abbrev pub start : (E : Env) → E.World → State E
start E w = record {
  world = w;
  trace = [];
  getenv = λ k. "";
  project_id = "project";
  rds = rds;
  heap = λ p. rds;
  next = 0;
}
