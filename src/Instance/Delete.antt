-- ===== src/Instance/Delete.antt =====
-- pkg/controller/resource.go: rdsDelete and Delete.
pub mod Footprint
pub mod Backup
use otc_rds_operator.Prelude.{◌<>◌, ◌==◌, decimal, if◌then◌else◌}
use otc_rds_operator.Rds.{Rds, instance_name}
use otc_rds_operator.Cloud.{
  Env, KubeReply, ServiceMeta, found, not_found, already_exists, other_error, rds_v3, now,
  create_backup, wait_backup, delete_instance, wait_job, record_event, in_cluster_config,
  new_kube_client, get_service, delete_service,
}
use otc_rds_operator.Exec.{Exec, pure, raise, gets, try_as, wrap_error, perform, ◌>>=◌, ◌>>◌}
use otc_rds_operator.Instance.Provider.{get_provider, open_client}
use otc_rds_operator.Alarm.{delete_alarms}

module _ (E : Env) where
  -- Any error of the look-up, not only a missing service, ends the deletion without an error.
  unfoldable pub unpublish : KubeReply ServiceMeta → Exec E Unit
  unpublish (found m) = do
    deleted ← perform E (delete_service m.namespace m.name)
    try_as "error deleting service: " deleted
  unpublish (not_found _) = pure tt
  unpublish (already_exists _) = pure tt
  unpublish (other_error _) = pure tt

  -- The backup before the deletion.
  unfoldable pub last_backup : Rds → Exec E Unit
  last_backup r = do
    time ← perform E now
    response ← perform E (
        create_backup r.status.id (instance_name r <> "_" <> decimal time)
          "RDS Operator Last Backup")
    backup_id ← try_as "error creating rds backup before instance deleting: " response
    waited ← perform E (wait_backup r.status.id backup_id)
    try_as "error wait for rds backup before instance deleting: " waited

  unfoldable pub delete_backed_up : Rds → Exec E Unit
  delete_backed_up r = do
    delete_result ← perform E (delete_instance r.status.id)
    job ← try_as "error rds delete job: " delete_result.job_response
    waited ← perform E (wait_job job)
    try_as "error getting rds delete job: " waited

  -- The service of the instance is deleted last.
  unfoldable pub remove_service : Rds → Exec E Unit
  unfolding unpublish
  remove_service r = do
    rest_config ← perform E in_cluster_config
    try_as "error init in-cluster config: " rest_config
    k8sclientset ← perform E new_kube_client
    try_as "error creating k8sclientset: " k8sclientset
    service ← perform E (get_service r.namespace r.name)
    unpublish service

  unfoldable pub rds_delete : Exec E Unit
  unfolding last_backup delete_backed_up remove_service
  rds_delete = do
    r ← gets (λ s. s.rds)
    if r.status.id == "" then raise "no rds id to delete" else do
      _ ← perform E (record_event "Delete" "This instance is deleting.")
      last_backup r
      delete_backed_up r
      remove_service r

  unfoldable pub delete : Exec E Unit
  delete = do
    wrap_error "unable to initialize provider: " (get_provider E)
    open_client E rds_v3 "unable to initialize rds client: "
    r ← gets (λ s. s.rds)
    if r.status.autopilot
        then wrap_error "error deleting alarm: " (delete_alarms E r.name r.namespace)
        else pure tt
    wrap_error "rds delete failed: " rds_delete
