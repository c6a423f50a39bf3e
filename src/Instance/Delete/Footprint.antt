-- ===== src/Instance/Delete/Footprint.antt =====
-- pkg/controller/resource.go: the calls of rdsDelete and Delete.
use otc_rds_operator.Prelude.{◌≢◌}
use otc_rds_operator.Rds.{Rds}
use otc_rds_operator.Cloud.{Env, KubeReply, ServiceMeta, found}
use otc_rds_operator.Exec.{State}
use otc_rds_operator.Exec.Keeps.{Keeps, keeps_rules}
use otc_rds_operator.Exec.Stable.{Kind, plain, deleting, alarming, Stable, Keeps-perform}
use otc_rds_operator.Instance.Footprint.{get_provider-Keeps, open_client-Keeps}
use otc_rds_operator.Alarm.Footprint.{delete_alarms-Keeps}
use otc_rds_operator.Instance.Delete.{
  unpublish, last_backup, delete_backed_up, remove_service, rds_delete, delete,
}

module _ {E : Env} {k : Kind} {P : State E → Type 0} (S : Stable k P) (other : plain ≢ k) where
  unpublish-Keeps : (reply : KubeReply ServiceMeta) → Keeps P (unpublish E reply)
  unfolding unpublish
  unpublish-Keeps (found m) = search (keeps_rules, Keeps-perform S)
  unpublish-Keeps _ = search keeps_rules

  pub last_backup-Keeps : (r : Rds) → Keeps P (last_backup E r)
  unfolding last_backup
  last_backup-Keeps r = search (keeps_rules, Keeps-perform S) depth 16

  pub remove_service-Keeps : (r : Rds) → Keeps P (remove_service E r)
  unfolding remove_service
  remove_service-Keeps r = search (keeps_rules, Keeps-perform S, unpublish-Keeps) depth 16

  -- `delete` keeps what the deletion of an instance keeps.
  pub delete-Keeps_of : alarming ≢ k → Keeps P (rds_delete E) → Keeps P (delete E)
  unfolding delete
  delete-Keeps_of no_alarm kd =
      search
        (
          keeps_rules,
          get_provider-Keeps S other,
          open_client-Keeps S other,
          delete_alarms-Keeps S other no_alarm,
        )
        depth 16

  module _ (no_delete : deleting ≢ k) where
    delete_backed_up-Keeps : (r : Rds) → Keeps P (delete_backed_up E r)
    unfolding delete_backed_up
    delete_backed_up-Keeps r = search (keeps_rules, Keeps-perform S) depth 16

    pub rds_delete-Keeps : Keeps P (rds_delete E)
    unfolding rds_delete
    rds_delete-Keeps =
        search
          (
            keeps_rules,
            Keeps-perform S,
            last_backup-Keeps,
            delete_backed_up-Keeps,
            remove_service-Keeps,
          )
          depth 16
