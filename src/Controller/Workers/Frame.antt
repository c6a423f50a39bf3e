-- ===== src/Controller/Workers/Frame.antt =====
-- pkg/controller/worker.go: the resources that the processing of an event leaves alone.
use otc_rds_operator.Prelude.{ℕ, ◌≡◌, ◌≢◌, refl, inr, Option, none, some, arith}
use otc_rds_operator.Rds.{Rds, RdsSpec}
use otc_rds_operator.Cloud.{Env, sleep}
use otc_rds_operator.Exec.{State, Exec, deref, perform, ◌>>=◌}
use otc_rds_operator.Exec.Keeps.{Keeps, keeps, kept, keeps_rules}
use otc_rds_operator.Exec.Stable.{unguarded, plain, Stable, Keeps-perform}
use otc_rds_operator.Instance.Footprint.{update_status-Keeps}
use otc_rds_operator.Instance.Status.{update_status}
use otc_rds_operator.Instance.Create.{create}
use otc_rds_operator.Instance.Create.Footprint.{create-Keeps}
use otc_rds_operator.Instance.Delete.{delete}
use otc_rds_operator.Instance.Delete.Footprint.{delete-Keeps_of, rds_delete-Keeps}
use otc_rds_operator.Instance.Update.{update}
use otc_rds_operator.Alarm.Footprint.{create_alarms-Keeps}
use otc_rds_operator.Instance.Update.Footprint.{update-Keeps}
use otc_rds_operator.Controller.Queue.{Event, EventType}
use otc_rds_operator.Controller.Worker.{
  load, save, work_on, update_changed, at_address, process_add_rds, process_del_rds,
  process_update_rds, process_event,
}
use otc_rds_operator.Controller.Workers.Apart.{PointsTo}

other : plain ≢ unguarded
other e = cc

module _ {E : Env} (a : ℕ) (r : Rds) where
  -- The resource at the address is still that one.
  abbrev Leaves : State E → Type 0
  Leaves s = s.heap a ≡ r

  Leaves-Stable : Stable unguarded Leaves
  Leaves-Stable = record { calls = λ c o a w s x. x; env = λ g i s x. x; writes = λ f same s x. x }

  work_on-Leaves : (q : Rds) → Keeps Leaves (work_on E q)
  unfolding work_on
  work_on-Leaves q = keeps (λ s x. x)

  at_address-Leaves :
      (p : ℕ) (m : Exec E Unit) → a ≢ p → Keeps Leaves m → Keeps Leaves (at_address E p m)
  unfolding at_address load save
  at_address-Leaves p m ne k = keeps λ s x.
      let t = (m (record s { rds = s.heap p })).1 in
      let y = kept k (record s { rds = s.heap p }) x in ground (arith, y, ne)

  deref-Leaves :
      (p : ℕ) (f : ℕ → Exec E Unit) → Keeps Leaves (f p) → Keeps Leaves (deref (some p) >>= f)
  unfolding ◌>>=◌
  deref-Leaves p f k = keeps (λ s x. kept k s x)

  no_deref-Leaves : (f : ℕ → Exec E Unit) → Keeps Leaves (deref none >>= f)
  unfolding ◌>>=◌
  no_deref-Leaves f = keeps (λ s x. x)

  create_at-Leaves : (p : ℕ) → a ≢ p → Keeps Leaves (at_address E p (create E))
  create_at-Leaves p ne =
      at_address-Leaves p (create E) ne (create-Keeps Leaves-Stable other (λ e. cc))

  delete_at-Leaves : (p : ℕ) → a ≢ p → Keeps Leaves (at_address E p (delete E))
  delete_at-Leaves p ne = at_address-Leaves p (delete E) ne (
      delete-Keeps_of Leaves-Stable other (λ e. cc)
        (rds_delete-Keeps Leaves-Stable other (λ e. cc)))

  update_status_at-Leaves : (p : ℕ) → a ≢ p → Keeps Leaves (at_address E p (update_status E))
  update_status_at-Leaves p ne =
      at_address-Leaves p (update_status E) ne (update_status-Keeps Leaves-Stable other)

  update-Leaves : (fuel : ℕ) (old : RdsSpec) → Keeps Leaves (update E fuel old)
  update-Leaves =
      update-Keeps Leaves-Stable other (λ e. cc) (λ e. cc) (λ e. cc)
        (create_alarms-Keeps Leaves-Stable other (λ e. cc))

  sleep-Leaves : Keeps Leaves (perform E (sleep 30))
  sleep-Leaves = Keeps-perform Leaves-Stable (sleep 30) other

  process_update_rds-Leaves :
      (fuel old new : ℕ) → a ≢ new → Keeps Leaves (process_update_rds E fuel old new)
  unfolding process_update_rds update_changed
  process_update_rds-Leaves fuel old new ne =
      search
        (keeps_rules, sleep-Leaves, work_on-Leaves, update_status_at-Leaves new ne, update-Leaves)
        depth 20

  process_event-Leaves_of :
      (fuel : ℕ) (kind : EventType) (old new : Option ℕ)
      → ¬ PointsTo (record { event_type = kind; old_obj = old; new_obj = new }) a
      → Keeps Leaves
          (process_event E fuel (record { event_type = kind; old_obj = old; new_obj = new }))
  unfolding process_event process_add_rds process_del_rds
  process_event-Leaves_of fuel EventType.add_rds old none ne =
      no_deref-Leaves (λ p. at_address E p (create E))
  process_event-Leaves_of fuel EventType.add_rds old (some p) ne =
      deref-Leaves p (λ q. at_address E q (create E))
        (create_at-Leaves p (λ e. ne (inr (ground (arith, e)))))
  process_event-Leaves_of fuel EventType.del_rds old none ne =
      no_deref-Leaves (λ p. at_address E p (delete E))
  process_event-Leaves_of fuel EventType.del_rds old (some p) ne =
      deref-Leaves p (λ q. at_address E q (delete E))
        (delete_at-Leaves p (λ e. ne (inr (ground (arith, e)))))
  process_event-Leaves_of fuel EventType.update_rds none new ne = no_deref-Leaves _
  process_event-Leaves_of fuel EventType.update_rds (some o) none ne =
      deref-Leaves o _ (no_deref-Leaves (process_update_rds E fuel o))
  process_event-Leaves_of fuel EventType.update_rds (some o) (some n) ne = deref-Leaves o _ (
      deref-Leaves n (process_update_rds E fuel o)
        (process_update_rds-Leaves fuel o n (λ e. ne (inr (ground (arith, e))))))

-- Processing an event leaves every resource alone that the event does not point to.
pub process_event-Leaves :
    (E : Env) (fuel : ℕ) (e : Event) (s : State E) (a : ℕ)
    → ¬ PointsTo e a
    → (process_event E fuel e s).1.heap a ≡ s.heap a
process_event-Leaves E fuel e s a ne =
    kept (process_event-Leaves_of a (s.heap a) fuel e.event_type e.old_obj e.new_obj ne) s refl
