-- ===== src/Controller/Safety.antt =====
-- pkg/controller/worker.go: conditions on the state that Create, Delete and Update keep, lifted
-- to processEvent.
use otc_rds_operator.Prelude.{ℕ, ◌≢◌, Option}
use otc_rds_operator.Rds.{Rds, RdsSpec}
use otc_rds_operator.Cloud.{Env, sleep}
use otc_rds_operator.Exec.{State, Exec, perform}
use otc_rds_operator.Exec.Keeps.{Keeps, keeps, kept, keeps_rules}
use otc_rds_operator.Exec.Stable.{Kind, plain, Stable, Keeps-perform}
use otc_rds_operator.Instance.Footprint.{update_status-Keeps}
use otc_rds_operator.Instance.Create.{create}
use otc_rds_operator.Instance.Delete.{delete}
use otc_rds_operator.Instance.Update.{update}
use otc_rds_operator.Controller.Queue.{Event, EventType}
use otc_rds_operator.Controller.Worker.{
  work_on, update_changed, at_address, process_add_rds, process_del_rds, process_update_rds,
  process_event,
}

-- A condition that does not look at the resources.
abbrev pub IgnoresResources : {E : Env} → (State E → Type 0) → Type 0
IgnoresResources {E} P =
    (r : Rds) (h : ℕ → Rds) (s : State E) → P s → P (record s { rds = r; heap = h })

module _ {E : Env} {P : State E → Type 0} (ignores : IgnoresResources P) where
  work_on-Keeps : (r : Rds) → Keeps P (work_on E r)
  unfolding work_on
  work_on-Keeps r = keeps (λ s h. ignores r s.heap s h)

  at_address-Keeps : (p : ℕ) (m : Exec E Unit) → Keeps P m → Keeps P (at_address E p m)
  unfolding at_address
  at_address-Keeps p m k =
      keeps (λ s h.
        ignores _ _ _ (kept k (record s { rds = s.heap p }) (ignores (s.heap p) s.heap s h)))

module _ {E : Env} {k : Kind} {P : State E → Type 0} (S : Stable k P) (other : plain ≢ k)
    (ignores : IgnoresResources P) (creates : Keeps P (create E)) (deletes : Keeps P (delete E))
    (updates : (fuel : ℕ) (old : RdsSpec) → Keeps P (update E fuel old)) where
  sleep-Keeps : Keeps P (perform E (sleep 30))
  sleep-Keeps = Keeps-perform S (sleep 30) other

  process_update_rds-Keeps : (fuel old new : ℕ) → Keeps P (process_update_rds E fuel old new)
  unfolding process_update_rds update_changed
  process_update_rds-Keeps fuel old new =
      search
        (
          keeps_rules,
          sleep-Keeps,
          at_address-Keeps ignores,
          work_on-Keeps ignores,
          update_status-Keeps S other,
          updates,
        )
        depth 20

  process_event-Keeps_of :
      (fuel : ℕ) (kind : EventType) (old new : Option ℕ)
      → Keeps P (process_event E fuel (record { event_type = kind; old_obj = old; new_obj = new }))
  unfolding process_event process_add_rds process_del_rds
  process_event-Keeps_of fuel EventType.add_rds old new =
      search (keeps_rules, at_address-Keeps ignores, creates) depth 8
  process_event-Keeps_of fuel EventType.del_rds old new =
      search (keeps_rules, at_address-Keeps ignores, deletes) depth 8
  process_event-Keeps_of fuel EventType.update_rds old new =
      search (keeps_rules, process_update_rds-Keeps) depth 8

  pub process_event-Keeps : (fuel : ℕ) (e : Event) → Keeps P (process_event E fuel e)
  process_event-Keeps fuel e = process_event-Keeps_of fuel e.event_type e.old_obj e.new_obj
