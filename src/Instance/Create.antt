-- ===== src/Instance/Create.antt =====
-- pkg/controller/resource.go: rdsCreate and Create.
pub mod Footprint
pub mod Unique
use otc_rds_operator.Prelude.{String, ◌<>◌, ◌==◌, Option, none, some, first?, if◌then◌else◌}
use otc_rds_operator.Rds.{Rds, instance_name}
use otc_rds_operator.Cloud.{
  Env, Instance, ApiResult, CreateOpts, rds_v3, network_v1, network_v2, create_instance,
  record_event, wait_job,
}
use otc_rds_operator.Exec.{
  Exec, pure, raise, gets, modify, deref, try_as, wrap_error, ignore_error, perform, ◌>>=◌, ◌>>◌,
}
use otc_rds_operator.Instance.Lookup.{
  secgroup_get, subnet_get, vpc_get, rds_get_by_id, rds_get_by_name,
}
use otc_rds_operator.Instance.Provider.{get_provider, open_client}
use otc_rds_operator.Instance.Status.{set_id, set_ip, set_status, update_status}

unfoldable pub create_opts : Rds → String → String → String → CreateOpts
create_opts r vpc_id subnet_id security_group_id =
    if r.spec.hamode == "Ha"
    then record {
      name = instance_name r;
      datastore_type = r.spec.datastoretype;
      datastore_version = r.spec.datastoreversion;
      ha = some (record { mode = r.spec.hamode; replication_mode = r.spec.hareplicationmode });
      port = r.spec.port;
      password = r.spec.password;
      backup_start_time = r.spec.backupstarttime;
      backup_keep_days = r.spec.backupkeepdays;
      flavor_ref = r.spec.flavorref;
      volume_type = r.spec.volumetype;
      volume_size = r.spec.volumesize;
      region = r.spec.region;
      availability_zone = r.spec.availabilityzone;
      vpc_id = vpc_id;
      subnet_id = subnet_id;
      security_group_id = security_group_id;
    }
    else record {
      name = instance_name r;
      datastore_type = r.spec.datastoretype;
      datastore_version = r.spec.datastoreversion;
      ha = none;
      port = r.spec.port;
      password = r.spec.password;
      backup_start_time = r.spec.backupstarttime;
      backup_keep_days = r.spec.backupkeepdays;
      flavor_ref = r.spec.flavorref;
      volume_type = r.spec.volumetype;
      volume_size = r.spec.volumesize;
      region = r.spec.region;
      availability_zone = r.spec.availabilityzone;
      vpc_id = vpc_id;
      subnet_id = subnet_id;
      security_group_id = security_group_id;
    }

abbrev set_created : String → String → Rds → Rds
set_created id status r = record r { status = record r.status { id = id; status = status } }

module _ (E : Env) where
  -- `rdsCheck != nil` is tested before `err != nil`; a look-up that fails returns nil.
  unfoldable pub refuse_existing : Rds → Option Instance → Exec E Unit
  refuse_existing r none = pure tt
  refuse_existing r (some i) = raise ("rds already exists " <> r.name)

  -- From the answer of the creation on.
  unfoldable pub after_create : ApiResult → Exec E Unit
  after_create create_result = do
    c ← try_as "error creating rds instance: " create_result.extract
    modify (set_created c.id c.status)
    wrap_error "error update rds create status: " (update_status E)
    job ← try_as "error creating rds job: " create_result.job_response
    waited ← perform E (wait_job job)
    try_as "error getting rds job: " waited
    rds_instance ← wrap_error "error getting rds by id: " (rds_get_by_id E c.id)
    i ← deref rds_instance
    modify (set_id i.id)
    ip ← deref (first? i.private_ips)
    modify (set_ip ip)
    modify (set_status i.status)
    wrap_error "error update rds status: " (update_status E)

  unfoldable pub request_create : Rds → String → String → String → Exec E ApiResult
  unfolding create_opts
  request_create r vpc_id subnet_id security_group_id = do
    _ ← perform E (record_event "Create" "This instance is creating.")
    perform E (create_instance (create_opts r vpc_id subnet_id security_group_id))

  -- The ids of the network, the security group's first.
  unfoldable pub look_up_network : Rds → Exec E (String × String × String)
  look_up_network r = do
    g ← wrap_error "error getting secgroup state: " (secgroup_get E r.spec.securitygroup)
    n ← wrap_error "error getting subnet state: " (subnet_get E r.spec.subnet)
    v ← wrap_error "error getting vpc state: " (vpc_get E r.spec.vpc)
    pure (g, n, v)

  -- From the look-up of the network on.
  unfoldable pub make_instance : Rds → Exec E Unit
  unfolding look_up_network request_create after_create
  make_instance r = do
    (g, n, v) ← look_up_network r
    create_result ← request_create r v n g
    after_create create_result

  unfoldable pub rds_create : Exec E Unit
  unfolding refuse_existing make_instance
  rds_create = do
    r ← gets (λ s. s.rds)
    rds_check ← wrap_error "error checking rds status " (rds_get_by_name E r.name r.namespace)
    refuse_existing r rds_check
    make_instance r

  -- The error of rdsCreate is dropped: `err` is still that of the last client.
  unfoldable pub create : Exec E Unit
  create = do
    wrap_error "unable to initialize provider: " (get_provider E)
    open_client E network_v1 "unable to initialize network v1 client: "
    open_client E network_v2 "unable to initialize network v2 client: "
    open_client E rds_v3 "unable to initialize rds client: "
    ignore_error rds_create
