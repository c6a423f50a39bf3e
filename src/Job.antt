-- ===== src/Job.antt =====
-- pkg/controller/job.go: the job that fetches the logs of an instance.
use otc_rds_operator.Prelude.{String, true, false, [], ◌∷◌, ◌<>◌}
use otc_rds_operator.Rds.{Rds}
use otc_rds_operator.Cloud.{Container, JobSpec, KubeJob}

-- One of the two containers, which differ in their name and their last argument.
unfoldable pub log_container :
    String → String → String → String → String → String → String → Container
log_container container_name flag name namespace endpoint token image = record {
  name = container_name;
  image = image;
  command = "/app/rdslogs" ∷ flag ∷ [];
  image_pull_policy = "IfNotPresent";
  allow_privilege_escalation = false;
  privileged = false;
  read_only_root_filesystem = true;
  run_as_group = 1000;
  run_as_user = 1000;
  env =
      ("RDS_NAME", namespace <> "_" <> name) ∷ ("OS_TOKEN", token) ∷ ("OS_AUTH_URL", endpoint) ∷ [];
}

unfoldable pub create_job_spec : String → String → String → String → String → JobSpec
unfolding log_container
create_job_spec name namespace endpoint token image = record {
  generate_name = name <> "-";
  namespace = namespace;
  containers =
      log_container "errorlog" "-errorlog" name namespace endpoint token image
      ∷ log_container "slowlog" "-slowlog" name namespace endpoint token image
      ∷ [];
  restart_policy = "Never";
}

-- The owner is the resource, under `otc.mcsps.de/v1alpha1`, kind `Rds`.
unfoldable pub log_job : Rds → String → String → String → KubeJob
unfolding create_job_spec
log_job r endpoint token image = record {
  name = r.name;
  namespace = r.namespace;
  owner_name = r.name;
  owner_api_version = "otc.mcsps.de/v1alpha1";
  owner_kind = "Rds";
  spec = create_job_spec r.name r.namespace endpoint token image;
}
