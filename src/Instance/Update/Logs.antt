-- ===== src/Instance/Update/Logs.antt =====
-- pkg/controller/resource.go: the part of rdsUpdate that starts the log job and watches it.
use otc_rds_operator.Prelude.{
  ℕ, zero, suc, String, Bool, true, false, Option, none, some, List, [], ◌∷◌, ◌<>◌, ◌==◌,
  error_text, if◌then◌else◌,
}
use otc_rds_operator.Rds.{Rds, instance_name}
use otc_rds_operator.Cloud.{
  Env, Reply, ok, failed, KubeReply, found, not_found, already_exists, other_error, Condition,
  job_complete, job_failed, other_condition, WatchEvent, no_object, other_object, cancelled,
  job_status, record_event, auth_options, authenticate, new_client, identity_v3, create_token,
  revoke_token, create_job, watch_jobs, get_job, sleep, next_event,
}
use otc_rds_operator.Exec.{
  Exec, done, pure, raise, still_waiting, gets, modify, try_as, wrap_error, perform, ◌>>=◌, ◌>>◌,
}
use otc_rds_operator.Instance.Status.{update_status}
use otc_rds_operator.Instance.Update.Parts.{clear_logs}
use otc_rds_operator.Job.{log_job}

-- What the conditions of the job decide: the first that is final, if any.
unfoldable pub verdict : List Condition → Option Bool
verdict [] = none
verdict (job_complete ∷ rest) = some true
verdict (job_failed ∷ rest) = some false
verdict (other_condition ∷ rest) = verdict rest

-- `if v := os.Getenv(k); v != "" { default = v }`.
abbrev env_or : (String → String) → String → String → String
env_or getenv k d = if getenv k == "" then d else getenv k

module _ (E : Env) where
  unfoldable pub set_project_id : Exec E Unit
  set_project_id s =
      (done tt, record s { project_id = env_or s.getenv "OS_PROJECT_ID" s.project_id })

  -- The token is revoked, and then the outcome is returned.
  unfoldable pub revoke_and : String → Exec E Unit → Exec E Unit
  revoke_and token m = do _ ← perform E (revoke_token token); m

  -- What the loop does on the conditions' verdict: `again` is the rest of the loop.
  unfoldable pub settle : String → String → Exec E Unit → Option Bool → Exec E Unit
  unfolding revoke_and
  settle token name again (some true) = revoke_and token (pure tt)
  settle token name again (some false) =
      revoke_and token (raise ("logfetch job for " <> name <> " failed"))
  settle token name again none = again

  -- One turn of the loop.
  unfoldable pub watch_turn : String → String → Exec E Unit → WatchEvent → Exec E Unit
  unfolding revoke_and verdict settle
  watch_turn token name again no_object =
      revoke_and token (raise "error on result channel logfetch job: <nil>")
  watch_turn token name again other_object =
      revoke_and token (raise "error on object logfetch job: <nil>")
  watch_turn token name again cancelled =
      revoke_and token (raise ("logfetch job " <> name <> " cancelled"))
  watch_turn token name again (job_status conditions) = settle token name again (verdict conditions)

  -- The loop over the events of the watch; each turn takes one.
  unfoldable pub watch_loop : ℕ → String → String → Exec E Unit
  unfolding watch_turn
  watch_loop zero token name = still_waiting
  watch_loop (suc fuel) token name =
      let again = watch_loop fuel token name in
      do event ← perform E next_event; watch_turn token name again event

  -- The second look-up of the job, whose result is an error whatever it returns: the error that is
  -- tested is the one just made.
  unfoldable pub look_again : Rds → Exec E Unit
  look_again r = do
    _ ← perform E (sleep 5)
    (_, e) ← perform E (get_job r.namespace (instance_name r))
    raise ("error getting logfetch job for watch: " <> error_text e)

  -- The two tests on the first look-up: a nil job, and then an error.
  unfoldable pub after_lookup : ℕ → Rds → String → Bool → Option String → Exec E Unit
  unfolding look_again watch_loop
  after_lookup fuel r token false e =
      raise ("error finding logfetch job for watch: " <> error_text e)
  after_lookup fuel r token true (some e) = look_again r
  after_lookup fuel r token true none = watch_loop fuel token r.name

  -- From the watch on. The job is looked up under the name of the instance.
  unfoldable pub watch_job : ℕ → Rds → String → Exec E Unit
  unfolding after_lookup
  watch_job fuel r token = do
    watch ← perform E (watch_jobs r.namespace ("job-name=" <> r.name))
    try_as "error create watcher for logfetch job: " watch
    (there, e) ← perform E (get_job r.namespace (instance_name r))
    after_lookup fuel r token there e

  unfoldable pub start_job : ℕ → Rds → String → KubeReply Unit → Exec E Unit
  unfolding watch_job
  start_job fuel r token (found _) = watch_job fuel r token
  start_job fuel r token (already_exists _) = pure tt
  start_job fuel r token (not_found e) = raise ("error creating logfetch job: " <> e)
  start_job fuel r token (other_error e) = raise ("error creating logfetch job: " <> e)

  -- The two arguments of the format are the error and the project, in this order.
  unfoldable pub token_of : String → Reply String → Exec E String
  token_of project (ok token) = pure token
  token_of project (failed e) =
      raise ("error getting token in logfetch in scope " <> e <> ": " <> project)

  unfoldable pub fetch_logs : ℕ → Exec E Unit
  unfolding set_project_id token_of start_job
  fetch_logs fuel = do
    modify clear_logs
    wrap_error "error update rds status: " (update_status E)
    _ ← perform E (record_event "Update" "This instance fetch logs.")
    getenv ← gets (λ s. s.getenv)
    auth ← perform E (auth_options getenv)
    opts ← try_as "error getting auth from env in logfetch: " auth
    provider ← perform E (authenticate opts)
    try_as "error building auth client: " provider
    _ ← perform E (new_client identity_v3)
    set_project_id
    project ← gets (λ s. s.project_id)
    created ← perform E (create_token opts project)
    token ← token_of project created
    r ← gets (λ s. s.rds)
    reply ← perform E (
        create_job (
          log_job r opts.identity_endpoint token
            (env_or getenv "JOB_IMAGE" "ghcr.io/eumel8/otcrdslogs:latest")))
    start_job fuel r token reply
