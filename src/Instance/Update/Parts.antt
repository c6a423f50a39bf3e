-- ===== src/Instance/Update/Parts.antt =====
-- pkg/controller/resource.go: the first four parts of rdsUpdate.
use otc_rds_operator.Prelude.{
  String, true, false, Option, ◌<>◌, ◌==◌, first?, int_text, if◌then◌else◌,
}
use otc_rds_operator.Prelude.Int.{ℤ, ltb_ℤ}
use otc_rds_operator.Rds.{Rds}
use otc_rds_operator.Cloud.{
  ApiResult, Env, Instance, record_event, enlarge_volume, resize_flavor, restart_instance,
  restore_backup, wait_job,
}
use otc_rds_operator.Exec.{
  Exec, pure, gets, modify, deref, try_as, check_error, wrap_error, perform, ◌>>=◌, ◌>>◌,
}
use otc_rds_operator.Time.Civil.{Stamp, unix_milli}
use otc_rds_operator.Time.Rfc3339.{parse_rfc3339}
use otc_rds_operator.Instance.Lookup.{rds_get_by_id}
use otc_rds_operator.Instance.Status.{set_status, update_status}

abbrev pub first_node : Instance → Option String
first_node i = first? i.nodes

-- Assignments to fields.
abbrev pub clear_reboot : Rds → Rds
clear_reboot r = record r { status = record r.status { reboot = false } }

abbrev pub clear_restore_time : Rds → Rds
clear_restore_time r = record r { spec = record r.spec { backuprestoretime = "" } }

abbrev pub clear_logs : Rds → Rds
clear_logs r = record r { status = record r.status { logs = false } }

abbrev pub set_autopilot : Rds → Rds
set_autopilot r = record r { status = record r.status { autopilot = true } }

module _ (E : Env) where
  -- The state of the instance is read again and written to the resource.
  unfoldable pub refresh : Exec E Unit
  refresh = do
    r ← gets (λ s. s.rds)
    rds_instance ← wrap_error "error getting rds by id: " (rds_get_by_id E r.status.id)
    i ← deref rds_instance
    modify (set_status i.status)
    wrap_error "error update rds status: " (update_status E)

  -- The wait for the job of an enlargement, from the API's answer on.
  unfoldable pub after_enlarge : ApiResult → Exec E Unit
  unfolding refresh
  after_enlarge result = do
    check_error "error rds api for enlarge: " result.err
    _ ← try_as "error enlarge rds: " result.extract
    job ← try_as "error creating rds enlarge job: " result.job_response
    waited ← perform E (wait_job job)
    try_as "error getting rds enlarge job: " waited
    refresh

  unfoldable pub request_enlarge : Rds → Exec E ApiResult
  request_enlarge r = do
    _ ←
        perform E
          (record_event "Update" ("This instance is enlarging to " <> int_text r.spec.volumesize))
    perform E (enlarge_volume r.spec.volumesize r.status.id)

  -- Enlarge volume: `actual` is the size that the cloud reports.
  unfoldable pub enlarge : ℤ → Exec E Unit
  unfolding request_enlarge after_enlarge
  enlarge actual = do
    r ← gets (λ s. s.rds)
    if ltb_ℤ actual r.spec.volumesize
        then (do result ← request_enlarge r; after_enlarge result)
        else pure tt

  -- The wait for the job of a change of the flavor, from the API's answer on.
  unfoldable pub after_resize : ApiResult → Exec E Unit
  unfolding refresh
  after_resize result = do
    check_error "error rds api for resize: " result.err
    _ ← try_as "error resizing rds: " result.extract
    job ← try_as "error creating rds resize job: " result.job_response
    waited ← perform E (wait_job job)
    try_as "error getting rds resize job: " waited
    refresh

  unfoldable pub request_resize : Rds → Exec E ApiResult
  request_resize r = do
    _ ← perform E (record_event "Update" ("This instance is scaling to " <> r.spec.flavorref))
    perform E (resize_flavor r.spec.flavorref r.status.id)

  -- Change flavor: `actual` is the flavor that the cloud reports.
  unfoldable pub resize : String → Exec E Unit
  unfolding request_resize after_resize
  resize actual = do
    r ← gets (λ s. s.rds)
    if actual == r.spec.flavorref
        then pure tt
        else do result ← request_resize r; after_resize result

  -- Restart instance.
  unfoldable pub reboot : Exec E Unit
  unfolding refresh
  reboot = do
    r ← gets (λ s. s.rds)
    if r.status.reboot
        then (do
          modify clear_reboot
          wrap_error "error update rds status: " (update_status E)
          _ ← perform E (record_event "Update" "This instance is rebooting.")
          result ← perform E (restart_instance r.status.id)
          job ← try_as "error rebooting rds: " result
          waited ← perform E (wait_job job)
          try_as "error getting rds restart job: " waited
          refresh)
        else pure tt

  -- The wait for the job of a restore, from the API's answer on.
  unfoldable pub after_restore : ApiResult → Exec E Unit
  unfolding refresh
  after_restore result = do
    check_error "rds restore failed: " result.err
    refresh
    job ← try_as "can't get rds restore job: " result.job_response
    waited ← perform E (wait_job job)
    try_as "error rds restore job: " waited
    refresh

  -- The restore, to a time that has been parsed. The text is cleared before.
  unfoldable pub restore_to : Stamp → Exec E Unit
  unfolding after_restore unix_milli
  restore_to time = do
    modify clear_restore_time
    wrap_error "error update rds status: " (update_status E)
    r ← gets (λ s. s.rds)
    result ← perform E (restore_backup r.status.id (unix_milli time))
    after_restore result

  -- Restore backup PITR.
  unfoldable pub restore : Exec E Unit
  unfolding restore_to parse_rfc3339
  restore = do
    r ← gets (λ s. s.rds)
    if r.spec.backuprestoretime == "" then pure tt else do
      _ ←
          perform E
            (record_event "Update" ("This instance is restoring to " <> r.spec.backuprestoretime))
      time ← try_as "can't parse rds restore time: " (parse_rfc3339 r.spec.backuprestoretime)
      restore_to time
