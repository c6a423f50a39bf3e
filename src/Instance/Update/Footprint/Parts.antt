-- ===== src/Instance/Update/Footprint/Parts.antt =====
-- pkg/controller/resource.go: the calls of the first four parts of rdsUpdate.
use otc_rds_operator.Prelude.{String, refl, ◌≢◌}
use otc_rds_operator.Prelude.Int.{ℤ}
use otc_rds_operator.Cloud.{Env, enlarge_volume, resize_flavor, ApiResult}
use otc_rds_operator.Exec.{State, perform}
use otc_rds_operator.Exec.Keeps.{Keeps, keeps_rules}
use otc_rds_operator.Exec.Stable.{
  Kind, plain, enlarging, resizing, Stable, KeepsName, Keeps-perform, Keeps-modify,
}
use otc_rds_operator.Instance.Footprint.{
  set_status-KeepsName, rds_get_by_id-Keeps, update_status-Keeps,
}
use otc_rds_operator.Instance.Update.Parts.{
  restore_to, after_restore, after_enlarge, after_resize, request_enlarge, request_resize,
  clear_reboot, clear_restore_time, refresh, enlarge, resize, reboot, restore,
}
use otc_rds_operator.Time.Civil.{Stamp}

clear_reboot-KeepsName : KeepsName clear_reboot
clear_reboot-KeepsName = record { name = λ r. refl; namespace = λ r. refl }

clear_restore_time-KeepsName : KeepsName clear_restore_time
clear_restore_time-KeepsName = record { name = λ r. refl; namespace = λ r. refl }

module _ {E : Env} {k : Kind} {P : State E → Type 0} (S : Stable k P) (other : plain ≢ k) where
  pub refresh-Keeps : Keeps P (refresh E)
  unfolding refresh
  refresh-Keeps =
      search
        (
          keeps_rules,
          Keeps-modify S,
          set_status-KeepsName,
          rds_get_by_id-Keeps S other,
          update_status-Keeps S other,
        )
        depth 12

  pub reboot-Keeps : Keeps P (reboot E)
  unfolding reboot
  reboot-Keeps =
      search
        (
          keeps_rules,
          Keeps-perform S,
          Keeps-modify S,
          clear_reboot-KeepsName,
          update_status-Keeps S other,
          refresh-Keeps,
        )
        depth 24

  restore_to-Keeps : (time : Stamp) → Keeps P (restore_to E time)
  unfolding restore_to after_restore
  restore_to-Keeps time =
      search
        (
          keeps_rules,
          Keeps-perform S,
          Keeps-modify S,
          clear_restore_time-KeepsName,
          update_status-Keeps S other,
          refresh-Keeps,
        )
        depth 30

  pub restore-Keeps : Keeps P (restore E)
  unfolding restore
  restore-Keeps = search (keeps_rules, Keeps-perform S, restore_to-Keeps) depth 16

  pub after_enlarge-Keeps : (result : ApiResult) → Keeps P (after_enlarge E result)
  unfolding after_enlarge
  after_enlarge-Keeps result = search (keeps_rules, Keeps-perform S, refresh-Keeps) depth 16

  pub after_resize-Keeps : (result : ApiResult) → Keeps P (after_resize E result)
  unfolding after_resize
  after_resize-Keeps result = search (keeps_rules, Keeps-perform S, refresh-Keeps) depth 16

  module _ (no_enlarge : enlarging ≢ k) where
    perform_enlarge-Keeps : (size : ℤ) (id : String) → Keeps P (perform E (enlarge_volume size id))
    perform_enlarge-Keeps size id = Keeps-perform S (enlarge_volume size id) no_enlarge

    pub enlarge-Keeps : (actual : ℤ) → Keeps P (enlarge E actual)
    unfolding enlarge request_enlarge
    enlarge-Keeps actual =
        search (keeps_rules, Keeps-perform S, perform_enlarge-Keeps, after_enlarge-Keeps) depth 12

  module _ (no_resize : resizing ≢ k) where
    perform_resize-Keeps : (flavor id : String) → Keeps P (perform E (resize_flavor flavor id))
    perform_resize-Keeps flavor id = Keeps-perform S (resize_flavor flavor id) no_resize

    pub resize-Keeps : (actual : String) → Keeps P (resize E actual)
    unfolding resize request_resize
    resize-Keeps actual =
        search (keeps_rules, Keeps-perform S, perform_resize-Keeps, after_resize-Keeps) depth 12
