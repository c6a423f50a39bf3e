-- ===== src/Instance/Update.antt =====
-- pkg/controller/resource.go: rdsUpdate, one action for each of its parts, and Update.
pub mod Parts
pub mod Logs
pub mod Footprint
pub mod Reported
pub mod Growth
pub mod Watching
pub mod Tokens
pub mod Restored
use otc_rds_operator.Prelude.{
  ℕ, String, Bool, Option, List, ◌<>◌, ◌==◌, ◌||◌, not, ◌&&◌, length, nat_eq, if◌then◌else◌,
}
use otc_rds_operator.Rds.{Rds, RdsSpec, RdsStatus, elements, users_differ}
use otc_rds_operator.Cloud.{Env, Instance, rds_v3, record_event}
use otc_rds_operator.Exec.{Exec, pure, raise, gets, modify, deref, wrap_error, perform, ◌>>=◌, ◌>>◌}
use otc_rds_operator.Instance.Lookup.{rds_get_by_id, rds_get_by_name}
use otc_rds_operator.Instance.Provider.{get_provider, open_client}
use otc_rds_operator.Instance.Status.{update_status}
use otc_rds_operator.Instance.Update.Parts.{
  first_node, enlarge, resize, reboot, restore, set_autopilot,
}
use otc_rds_operator.Instance.Update.Logs.{fetch_logs}
use otc_rds_operator.Alarm.{create_alarms}
use otc_rds_operator.Sql.{create_sql_user}

-- `len(old.Spec.Databases) != len(new.Spec.Databases) || old.Spec.Users != new.Spec.Users`: the
-- number of databases and the address of the users are compared, and not their contents.
unfoldable pub sql_changed : RdsSpec → RdsSpec → Bool
unfolding users_differ
sql_changed old new =
    not (nat_eq (length (elements old.databases)) (length (elements new.databases)))
    || users_differ old.users new.users

module _ (E : Env) where
  unfoldable pub sql_users : RdsSpec → Exec E Unit
  unfolding sql_changed
  sql_users old = do
    r ← gets (λ s. s.rds)
    if sql_changed old r.spec
        then wrap_error "error CreateSqlUser: " (create_sql_user E)
        else pure tt

  unfoldable pub autopilot : Exec E Unit
  autopilot = do
    r ← gets (λ s. s.rds)
    if not (r.spec.endpoint == "") && not r.status.autopilot
        then (do
          _ ← perform E (record_event "Update" "This instance set autopilot.")
          modify set_autopilot
          wrap_error "error update rds status for autopilot: " (update_status E)
          rds_instance ← wrap_error "error getting rds by id: " (rds_get_by_id E r.status.id)
          i ← deref rds_instance
          node ← deref (first_node i)
          wrap_error "error creating alarm: "
              (create_alarms E node r.spec.endpoint r.name r.namespace))
        else pure tt

  -- From the restart on. `fuel` bounds the turns of the watch loop of the log job.
  unfoldable pub finish : ℕ → RdsSpec → Exec E Unit
  unfolding sql_users autopilot
  finish fuel old = do
    reboot E
    restore E
    logs ← gets (λ s. s.rds.status.logs)
    if logs then fetch_logs E fuel else do sql_users old; autopilot

  -- `old` is the spec of the copy of the former resource, whose size and flavor are replaced by
  -- those that the cloud reports.
  unfoldable pub rds_update : ℕ → RdsSpec → Exec E Unit
  unfolding finish
  rds_update fuel old = do
    r ← gets (λ s. s.rds)
    if r.status.id == "" then raise "rdsUpdate failed, Rds.Status.Id is empty" else do
      rds_instance ←
          wrap_error "error getting rdsGetByName: " (rds_get_by_name E r.name r.namespace)
      i ← deref rds_instance
      enlarge E i.volume_size
      resize E i.flavor_ref
      finish fuel old

  unfoldable pub update : ℕ → RdsSpec → Exec E Unit
  update fuel old = do
    wrap_error "unable to initialize provider: " (get_provider E)
    open_client E rds_v3 "unable to initialize rds client: "
    wrap_error "rds update failed: " (rds_update fuel old)
