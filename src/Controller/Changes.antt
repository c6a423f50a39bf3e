-- ===== src/Controller/Changes.antt =====
-- pkg/controller/worker.go, processUpdateRds, and HasChanged of pkg/rds/v1alpha1/types.go: which
-- updates the worker hands to the cloud.
use otc_rds_operator.Prelude.{ℕ, String, ◌≡◌, refl, false, eq_iff, ap, ◌∙◌}
use otc_rds_operator.Rds.{Rds, spec_eq, status_eq, has_changed}
use otc_rds_operator.Rds.Changed.{spec_eq_refl}
use otc_rds_operator.Cloud.{Env}
use otc_rds_operator.Exec.{State, done, pure, wrap_error, ◌>>=◌}
use otc_rds_operator.Exec.Run.{bind-done, wrap_error-done}
use otc_rds_operator.Instance.Status.{update_status}
use otc_rds_operator.Instance.Update.{update}
use otc_rds_operator.Controller.Worker.{work_on, update_changed, at_address, process_update_rds}

abbrev refresh_error : String
refresh_error = "error update rds status from worker: "

module _ (E : Env) (fuel : ℕ) where
  update_changed-skips :
      (o n : Rds)
      → spec_eq o.spec n.spec ≡ false
      → status_eq o.status n.status ≡ false
      → update_changed E fuel o n ≡ pure tt
  unfolding update_changed has_changed
  update_changed-skips o n spec status = rw (spec, status) refl

  update_changed-same :
      (o n : Rds) (t : State E)
      → n.spec ≡ o.spec
      → n.status.status ≡ "ACTIVE"
      → update_changed E fuel o n t ≡ update E fuel o.spec (record t { rds = n })
  unfolding update_changed work_on has_changed ◌>>=◌
  update_changed-same o n t spec active =
      rw
        (ap (spec_eq o.spec) spec ∙ spec_eq_refl o.spec, (eq_iff n.status.status "ACTIVE").1 active)
        refl

  -- A refresh without an error.
  refreshed_then :
      (old new : ℕ) (s t : State E)
      → at_address E new (update_status E) s ≡ (done tt, t)
      → process_update_rds E fuel old new s ≡ update_changed E fuel (t.heap old) (t.heap new) t
  unfolding process_update_rds ◌>>=◌
  refreshed_then old new s t refreshed =
      bind-done (wrap_error refresh_error (at_address E new (update_status E))) _ s t tt
        (wrap_error-done refresh_error (at_address E new (update_status E)) s t tt refreshed)

module _ (E : Env) (fuel old new : ℕ) (s t : State E) where
  -- An update that changes the specification and the status both is skipped: once the status of the
  -- new object has been refreshed without an error, and the two objects differ in both parts, the
  -- worker makes no further call and reports success.
  pub process_update_rds-skips :
      at_address E new (update_status E) s ≡ (done tt, t)
      → spec_eq (t.heap old).spec (t.heap new).spec ≡ false
      → status_eq (t.heap old).status (t.heap new).status ≡ false
      → process_update_rds E fuel old new s ≡ (done tt, t)
  unfolding pure
  process_update_rds-skips refreshed spec status =
      refreshed_then E fuel old new s t refreshed
      ∙ ap (λ m. m t) (update_changed-skips E fuel (t.heap old) (t.heap new) spec status)

  -- An update that leaves the specification as it was is carried out: once the status of the new
  -- object has been refreshed without an error, and it is ACTIVE, the worker goes on with Update on
  -- a copy of the new object.
  pub process_update_rds-same :
      at_address E new (update_status E) s ≡ (done tt, t)
      → (t.heap new).spec ≡ (t.heap old).spec
      → (t.heap new).status.status ≡ "ACTIVE"
      → process_update_rds E fuel old new s
        ≡ update E fuel (t.heap old).spec (record t { rds = t.heap new })
  process_update_rds-same refreshed spec active =
      refreshed_then E fuel old new s t refreshed
      ∙ update_changed-same E fuel (t.heap old) (t.heap new) t spec active
