-- ===== src/Instance/Update/Footprint.antt =====
-- pkg/controller/resource.go: the calls of rdsUpdate and Update.
mod Parts
mod Logs
pub use Parts.{after_enlarge-Keeps, after_resize-Keeps, enlarge-Keeps, resize-Keeps}
use otc_rds_operator.Prelude.{
  ℕ, zero, suc, String, refl, ◌≢◌, Bool, true, false, Option, none, some,
}
use otc_rds_operator.Prelude.Int.{ℤ}
use otc_rds_operator.Rds.{Rds, RdsSpec}
use otc_rds_operator.Cloud.{
  Env, enlarge_volume, resize_flavor, ApiResult, KubeReply, found, WatchEvent, no_object,
  other_object, cancelled, job_status,
}
use otc_rds_operator.Exec.{State, Exec, perform}
use otc_rds_operator.Exec.Keeps.{Keeps, keeps, keeps_rules}
use otc_rds_operator.Exec.Stable.{
  Kind, plain, enlarging, resizing, querying, Stable, KeepsName, Keeps-perform, Keeps-modify,
}
use otc_rds_operator.Instance.Footprint.{
  set_status-KeepsName, rds_get_by_id-Keeps, rds_get_by_name-Keeps, get_provider-Keeps,
  open_client-Keeps, update_status-Keeps,
}
use otc_rds_operator.Alarm.Footprint.{KeepsRules}
use otc_rds_operator.Sql.Footprint.{create_sql_user-Keeps}
use otc_rds_operator.Instance.Update.Parts.{
  after_enlarge, after_resize, request_enlarge, request_resize, clear_reboot, clear_restore_time,
  clear_logs, set_autopilot, refresh, enlarge, resize, reboot, restore,
}
use otc_rds_operator.Instance.Update.Logs.{
  verdict, settle, after_lookup, set_project_id, revoke_and, watch_turn, watch_loop, look_again,
  watch_job, start_job, fetch_logs,
}
use otc_rds_operator.Instance.Update.{sql_users, autopilot, finish, rds_update, update}
use otc_rds_operator.Instance.Update.Footprint.Parts.{reboot-Keeps, restore-Keeps}
use otc_rds_operator.Instance.Update.Footprint.Logs.{fetch_logs-Keeps}

set_autopilot-KeepsName : KeepsName set_autopilot
set_autopilot-KeepsName = record { name = λ r. refl; namespace = λ r. refl }

module _ {E : Env} {k : Kind} {P : State E → Type 0} (S : Stable k P) (other : plain ≢ k) where
  pub autopilot-Keeps : KeepsRules P → Keeps P (autopilot E)
  unfolding autopilot
  autopilot-Keeps rules =
      search
        (
          keeps_rules,
          Keeps-perform S,
          Keeps-modify S,
          set_autopilot-KeepsName,
          update_status-Keeps S other,
          rds_get_by_id-Keeps S other,
          rules,
        )
        depth 24

  -- `update` keeps what rdsUpdate keeps.
  pub update-Keeps_of :
      (fuel : ℕ) (old : RdsSpec) → Keeps P (rds_update E fuel old) → Keeps P (update E fuel old)
  unfolding update
  update-Keeps_of fuel old ku =
      search (keeps_rules, get_provider-Keeps S other, open_client-Keeps S other) depth 12

  module _ (no_query : querying ≢ k) where
    pub sql_users-Keeps : (old : RdsSpec) → Keeps P (sql_users E old)
    unfolding sql_users
    sql_users-Keeps old = search (keeps_rules, create_sql_user-Keeps S other no_query) depth 8

    pub finish-Keeps : KeepsRules P → (fuel : ℕ) (old : RdsSpec) → Keeps P (finish E fuel old)
    unfolding finish
    finish-Keeps rules fuel old =
        search
          (
            keeps_rules,
            reboot-Keeps S other,
            restore-Keeps S other,
            fetch_logs-Keeps S other,
            sql_users-Keeps,
            autopilot-Keeps rules,
          )
          depth 16

  module _ (no_enlarge : enlarging ≢ k) (no_resize : resizing ≢ k) (no_query : querying ≢ k)
      (rules : KeepsRules P) where
    rds_update-Keeps : (fuel : ℕ) (old : RdsSpec) → Keeps P (rds_update E fuel old)
    unfolding rds_update
    rds_update-Keeps fuel old =
        search
          (
            keeps_rules,
            finish-Keeps no_query rules,
            rds_get_by_name-Keeps S other,
            enlarge-Keeps S other no_enlarge,
            resize-Keeps S other no_resize,
          )
          depth 24

    pub update-Keeps : (fuel : ℕ) (old : RdsSpec) → Keeps P (update E fuel old)
    update-Keeps fuel old = update-Keeps_of fuel old (rds_update-Keeps fuel old)
