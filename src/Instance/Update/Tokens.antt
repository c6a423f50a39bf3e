-- ===== src/Instance/Update/Tokens.antt =====
-- pkg/controller/resource.go: the token of the log job in rdsUpdate.
use otc_rds_operator.Prelude.{
  ℕ, String, ◌<>◌, ◌≡◌, ◌⊎◌, inl, inr, refl, Bool, true, false, Option, none, some, List, [], ◌∷◌,
}
use otc_rds_operator.Rds.{Rds, instance_name}
use otc_rds_operator.Cloud.{
  Env, Reply, ok, failed, KubeReply, found, not_found, already_exists, other_error, watch_jobs,
  get_job,
}
use otc_rds_operator.Exec.{State, Outcome, done, fail, waiting, try_as, perform, ◌>>=◌}
use otc_rds_operator.Instance.Dropped.{StartsWith}
use otc_rds_operator.Instance.Update.Logs.{look_again, after_lookup, watch_job, start_job}
use otc_rds_operator.Instance.Update.Watching.{Revoked, watch_loop-Revoked}

-- The errors before the loop.
abbrev pub early_errors : List String
early_errors =
    "error creating logfetch job: " ∷ "error create watcher for logfetch job: "
    ∷ "error finding logfetch job for watch: " ∷ "error getting logfetch job for watch: " ∷ []

-- The token has been revoked, or the loop is still waiting, or the error is one of those before it.
abbrev pub IsAccounted : {E : Env} → String → Outcome Unit × State E → Type 0
IsAccounted token (r, s) =
    Revoked token s.trace
    ⊎ (r ≡ waiting)
    ⊎ ((x : String) × (r ≡ fail x) × StartsWith early_errors x)

abbrev pub IsExisting : KubeReply Unit → Type 0
IsExisting (already_exists e) = Unit
IsExisting _ = ⊥

module _ (E : Env) (fuel : ℕ) (r : Rds) (token : String) where
  after_lookup-IsAccounted :
      (there : Bool) (e : Option String) (s : State E)
      → IsAccounted token (after_lookup E fuel r token there e s)
  unfolding after_lookup look_again ◌>>=◌
  after_lookup-IsAccounted false e s = inr (inr (_, refl, inr (inr (inl (_, refl)))))
  after_lookup-IsAccounted true (some e) s = inr (inr (_, refl, inr (inr (inr (inl (_, refl))))))
  after_lookup-IsAccounted true none s = elim (watch_loop-Revoked E token r.name fuel s) [
    | inl still ↦ inr (inl still)
    | inr revoked ↦ inl revoked
  ]

  watched-IsAccounted :
      (watch : Reply Unit) (s : State E)
      → IsAccounted token (
          (try_as "error create watcher for logfetch job: " watch >>= λ _.
          perform E (get_job r.namespace (instance_name r)) >>= λ (there, e).
          after_lookup E fuel r token there e)
            s)
  unfolding ◌>>=◌
  watched-IsAccounted (failed e) s = inr (inr (_, refl, inr (inl (_, refl))))
  watched-IsAccounted (ok u) s =
      let ((there, e), w) = E.answer (get_job r.namespace (instance_name r)) s.world in
      after_lookup-IsAccounted there e (perform E (get_job r.namespace (instance_name r)) s).1

  watch_job-IsAccounted : (s : State E) → IsAccounted token (watch_job E fuel r token s)
  unfolding watch_job ◌>>=◌
  watch_job-IsAccounted s =
      let call = watch_jobs r.namespace ("job-name=" <> r.name) in
      watched-IsAccounted (E.answer call s.world).0 (perform E call s).1

  -- From the answer to the creation of the log job on, whatever the world answers, the token has been
  -- revoked at the end, but for these cases: the job exists already, which is no error; the loop over
  -- the watch's events is still waiting after its turns; the job is not created, the watch is not
  -- opened, or the job is not found or not got by name, each with its error.
  pub start_job-IsAccounted :
      (reply : KubeReply Unit) (s : State E)
      → IsAccounted token (start_job E fuel r token reply s)
        ⊎ (IsExisting reply × ((start_job E fuel r token reply s).0 ≡ done tt))
  unfolding start_job ◌>>=◌
  start_job-IsAccounted (found u) s = inl (watch_job-IsAccounted s)
  start_job-IsAccounted (already_exists e) s = inr (tt, refl)
  start_job-IsAccounted (not_found e) s = inl (inr (inr (_, refl, inl (_, refl))))
  start_job-IsAccounted (other_error e) s = inl (inr (inr (_, refl, inl (_, refl))))
