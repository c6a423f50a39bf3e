-- ===== src/Cloud/Types.antt =====
-- The parts that the operator writes or reads of the requests and responses of the libraries it
-- calls. These types belong to those libraries; the fields that the operator never touches are
-- left out.
use otc_rds_operator.Prelude.{ℕ, String, Bool, Option, List}
use otc_rds_operator.Prelude.Int.{ℤ}

-- A pair (value, error) of Go where the value is read only if the error is nil.
pub data Reply (A : Type 0) : Type 0 where
  ok : A → Reply A
  failed : String → Reply A

pub data Service : Type 0 where
  rds_v3 network_v1 network_v2 ces smn_v2 identity_v3 : Service

pub record AuthOptions : Type 0 where
  pub identity_endpoint : String
  pub username : String
  pub password : String
  pub domain_name : String

-- instances.RdsInstanceResponse
pub record Instance : Type 0 where
  pub id : String
  pub status : String
  pub private_ips : List String
  pub flavor_ref : String
  pub volume_size : ℤ
  pub nodes : List String

pub data InstanceQuery : Type 0 where
  by_id by_name : String → InstanceQuery

pub record Ha : Type 0 where
  pub mode : String
  pub replication_mode : String

-- instances.CreateRdsOpts
pub record CreateOpts : Type 0 where
  pub name : String
  pub datastore_type : String
  pub datastore_version : String
  pub ha : Option Ha
  pub port : String
  pub password : String
  pub backup_start_time : String
  pub backup_keep_days : ℤ
  pub flavor_ref : String
  pub volume_type : String
  pub volume_size : ℤ
  pub region : String
  pub availability_zone : String
  pub vpc_id : String
  pub subnet_id : String
  pub security_group_id : String

pub record Created : Type 0 where
  pub id : String
  pub status : String

-- What an operation of rds v3 returns: its `Err` field, and its two readings.
pub record ApiResult : Type 0 where
  pub err : Option String
  pub extract : Reply Created
  pub job_response : Reply String

-- flavors.Response; the availability zones with their states, in the order of the map's range.
pub record Flavor : Type 0 where
  pub vcpus : String
  pub ram : ℤ
  pub spec_code : String
  pub az_status : List (String × String)

pub data KubeReply (A : Type 0) : Type 0 where
  found : A → KubeReply A
  not_found already_exists other_error : String → KubeReply A

pub record ServiceMeta : Type 0 where
  pub name : String
  pub namespace : String

pub record KubeEndpoints : Type 0 where
  pub name : String
  pub namespace : String
  pub labels : List (String × String)
  pub ip : String
  pub port : ℤ

pub record KubeService : Type 0 where
  pub name : String
  pub namespace : String
  pub labels : List (String × String)
  pub port : ℤ
  pub protocol : String
  pub target_port : ℤ
  pub cluster_ip : String
  pub service_type : String

pub record Container : Type 0 where
  pub name : String
  pub image : String
  pub command : List String
  pub image_pull_policy : String
  pub allow_privilege_escalation : Bool
  pub privileged : Bool
  pub read_only_root_filesystem : Bool
  pub run_as_group : ℕ
  pub run_as_user : ℕ
  pub env : List (String × String)

pub record JobSpec : Type 0 where
  pub generate_name : String
  pub namespace : String
  pub containers : List Container
  pub restart_policy : String

pub record KubeJob : Type 0 where
  pub name : String
  pub namespace : String
  pub owner_name : String
  pub owner_api_version : String
  pub owner_kind : String
  pub spec : JobSpec

pub data Condition : Type 0 where
  job_complete job_failed other_condition : Condition

-- What one turn of the watch loop's select receives.
pub data WatchEvent : Type 0 where
  no_object other_object cancelled : WatchEvent
  job_status : List Condition → WatchEvent

pub record Topic : Type 0 where
  pub name : String
  pub urn : String

pub record Alarm : Type 0 where
  pub name : String
  pub id : String

pub record AlarmOpts : Type 0 where
  pub name : String
  pub description : String
  pub level : ℕ
  pub metric_namespace : String
  pub metric_name : String
  pub dimension_name : String
  pub dimension_value : String
  pub period : ℕ
  pub filter : String
  pub comparison_operator : String
  pub threshold : ℕ
  pub unit : String
  pub count : ℕ
  pub action_type : String
  pub notification_list : List String
  pub alarm_enabled : Bool
  pub action_enabled : Bool

-- A member's value in the body of a request, and the body itself: a JSON value as far as the program
-- can tell them apart.
pub data JsonMember : Type 0 where
  null_member other_member : JsonMember
  text : String → JsonMember

pub data Json : Type 0 where
  null_value other_value : Json
  object : List (String × JsonMember) → Json

-- `body` is none where what has been read of the body is no JSON text.
pub record Request : Type 0 where
  pub method : String
  pub body : Option Json

-- leaderelection.LeaderElectionConfig with its lock; durations in nanoseconds.
pub record Lease : Type 0 where
  pub name : String
  pub namespace : String
  pub identity : String
  pub release_on_cancel : Bool
  pub lease_duration : ℤ
  pub renew_deadline : ℤ
  pub retry_period : ℤ

-- The callbacks that an election calls.
pub data Election : Type 0 where
  started_leading stopped_leading : Election
  new_leader : String → Election
