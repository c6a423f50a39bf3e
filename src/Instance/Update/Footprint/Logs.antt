-- ===== src/Instance/Update/Footprint/Logs.antt =====
-- pkg/controller/resource.go: the calls of the log job in rdsUpdate.
use otc_rds_operator.Prelude.{
  ℕ, zero, suc, String, refl, ◌≢◌, Bool, true, false, Option, none, some,
}
use otc_rds_operator.Rds.{Rds}
use otc_rds_operator.Cloud.{
  Env, Reply, ok, failed, KubeReply, found, WatchEvent, no_object, other_object, cancelled,
  job_status,
}
use otc_rds_operator.Exec.{State, Exec}
use otc_rds_operator.Exec.Keeps.{Keeps, keeps, keeps_rules}
use otc_rds_operator.Exec.Stable.{Kind, plain, Stable, KeepsName, Keeps-perform, Keeps-modify}
use otc_rds_operator.Instance.Footprint.{update_status-Keeps}
use otc_rds_operator.Instance.Update.Parts.{clear_logs}
use otc_rds_operator.Instance.Update.Logs.{
  verdict, settle, after_lookup, set_project_id, revoke_and, watch_turn, watch_loop, look_again,
  watch_job, start_job, token_of, fetch_logs,
}

clear_logs-KeepsName : KeepsName clear_logs
clear_logs-KeepsName = record { name = λ r. refl; namespace = λ r. refl }

module _ {E : Env} {k : Kind} {P : State E → Type 0} (S : Stable k P) (other : plain ≢ k) where
  revoke_and-Keeps : (token : String) (m : Exec E Unit) → Keeps P m → Keeps P (revoke_and E token m)
  unfolding revoke_and
  revoke_and-Keeps token m km = search (keeps_rules, Keeps-perform S)

  settle-Keeps :
      (token name : String) (again : Exec E Unit) (o : Option Bool)
      → Keeps P again
      → Keeps P (settle E token name again o)
  unfolding settle
  settle-Keeps token name again (some true) k = search (keeps_rules, revoke_and-Keeps)
  settle-Keeps token name again (some false) k = search (keeps_rules, revoke_and-Keeps)
  settle-Keeps token name again none k = k

  watch_turn-Keeps :
      (token name : String) (again : Exec E Unit) (event : WatchEvent)
      → Keeps P again
      → Keeps P (watch_turn E token name again event)
  unfolding watch_turn
  watch_turn-Keeps token name again no_object k = search (keeps_rules, revoke_and-Keeps)
  watch_turn-Keeps token name again other_object k = search (keeps_rules, revoke_and-Keeps)
  watch_turn-Keeps token name again cancelled k = search (keeps_rules, revoke_and-Keeps)
  watch_turn-Keeps token name again (job_status conditions) k =
      settle-Keeps token name again (verdict conditions) k

  watch_loop-Keeps : (fuel : ℕ) (token name : String) → Keeps P (watch_loop E fuel token name)
  unfolding watch_loop
  watch_loop-Keeps zero token name = search keeps_rules
  watch_loop-Keeps (suc fuel) token name =
      search (keeps_rules, Keeps-perform S, watch_turn-Keeps, watch_loop-Keeps fuel token name)

  look_again-Keeps : (r : Rds) → Keeps P (look_again E r)
  unfolding look_again
  look_again-Keeps r = search (keeps_rules, Keeps-perform S) depth 8

  after_lookup-Keeps :
      (fuel : ℕ) (r : Rds) (token : String) (there : Bool) (e : Option String)
      → Keeps P (after_lookup E fuel r token there e)
  unfolding after_lookup
  after_lookup-Keeps fuel r token false e = search keeps_rules
  after_lookup-Keeps fuel r token true (some e) = search look_again-Keeps
  after_lookup-Keeps fuel r token true none = search watch_loop-Keeps

  watch_job-Keeps : (fuel : ℕ) (r : Rds) (token : String) → Keeps P (watch_job E fuel r token)
  unfolding watch_job
  watch_job-Keeps fuel r token = search (keeps_rules, Keeps-perform S, after_lookup-Keeps) depth 12

  start_job-Keeps :
      (fuel : ℕ) (r : Rds) (token : String) (reply : KubeReply Unit)
      → Keeps P (start_job E fuel r token reply)
  unfolding start_job
  start_job-Keeps fuel r token (found u) = search (keeps_rules, watch_job-Keeps)
  start_job-Keeps fuel r token _ = search keeps_rules

  set_project_id-Keeps : Keeps P (set_project_id E)
  unfolding set_project_id
  set_project_id-Keeps = keeps (λ s h. S.env s.getenv _ s h)

  token_of-Keeps :
      (project : String) (created : Reply String) → Keeps P (token_of E project created)
  unfolding token_of
  token_of-Keeps project (ok token) = search keeps_rules
  token_of-Keeps project (failed e) = search keeps_rules

  pub fetch_logs-Keeps : (fuel : ℕ) → Keeps P (fetch_logs E fuel)
  unfolding fetch_logs
  fetch_logs-Keeps fuel =
      search
        (
          keeps_rules,
          Keeps-perform S,
          Keeps-modify S,
          clear_logs-KeepsName,
          update_status-Keeps S other,
          set_project_id-Keeps,
          token_of-Keeps,
          start_job-Keeps,
        )
        depth 40
