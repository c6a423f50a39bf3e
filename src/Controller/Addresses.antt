-- ===== src/Controller/Addresses.antt =====
-- pkg/controller/worker.go: the resources that events point to, while an event is processed.
use otc_rds_operator.Prelude.{
  subst, sym, ℕ, ◌≡◌, refl, ◌∙◌, ◌≢◌, nat_eq, arith, if◌then◌else◌, Option,
}
use otc_rds_operator.Rds.{Rds, RdsSpec}
use otc_rds_operator.Cloud.{Env, sleep}
use otc_rds_operator.Exec.{State, Exec, perform}
use otc_rds_operator.Exec.Keeps.{Keeps, keeps, kept, keeps_rules}
use otc_rds_operator.Exec.Stable.{unguarded, plain, Stable, Keeps-perform}
use otc_rds_operator.Instance.Footprint.{update_status-Keeps}
use otc_rds_operator.Instance.Status.{update_status}
use otc_rds_operator.Instance.Create.{create}
use otc_rds_operator.Instance.Create.Footprint.{create-Keeps}
use otc_rds_operator.Instance.Delete.{delete}
use otc_rds_operator.Instance.Delete.Footprint.{delete-Keeps_of, rds_delete-Keeps}
use otc_rds_operator.Instance.Update.{update}
use otc_rds_operator.Alarm.Footprint.{create_alarms-Keeps}
use otc_rds_operator.Instance.Update.Footprint.{update-Keeps}
use otc_rds_operator.Controller.Queue.{Event, EventType}
use otc_rds_operator.Controller.Worker.{
  load, save, work_on, update_changed, at_address, process_add_rds, process_del_rds,
  process_update_rds, process_event,
}

-- Two resources of one name.
abbrev pub Same : Rds → Rds → Type 0
Same a b = (a.name ≡ b.name) × (a.namespace ≡ b.namespace)

other : plain ≢ unguarded
other e = cc

-- What the heap holds at `q` once `r` has been written at `p`.
written-Same :
    (p q : ℕ) (r a b : Rds) → (q ≡ p → Same r b) → Same a b → Same (if nat_eq q p then r else a) b
written-Same p q r a b new old = ground arith

module _ {E : Env} (h : ℕ → Rds) (next : ℕ) where
  -- The heap has the names of `h`, and its free addresses start at `next`.
  abbrev pub HasNames : State E → Type 0
  HasNames s = ((p : ℕ) → Same (s.heap p) (h p)) × (s.next ≡ next)

  -- The same, where the code at hand has a pointer to `p`.
  abbrev PointsTo : ℕ → State E → Type 0
  PointsTo p s = HasNames s × Same s.rds (h p)

  PointsTo-Stable : (p : ℕ) → Stable unguarded (PointsTo p)
  PointsTo-Stable p = record {
    calls = λ c o a w s x. x;
    env = λ g i s x. x;
    writes = λ f same s x. (x.0, (same.name s.rds ∙ x.1.0, same.namespace s.rds ∙ x.1.1));
  }

  HasNames-Stable : Stable unguarded HasNames
  HasNames-Stable = record {
    calls = λ c o a w s x. x;
    env = λ g i s x. x;
    writes = λ f same s x. x;
  }

  work_on-Keeps : (r : Rds) → Keeps HasNames (work_on E r)
  unfolding work_on
  work_on-Keeps r = keeps (λ s x. x)

  at_address-Keeps :
      (p : ℕ) (m : Exec E Unit) → Keeps (PointsTo p) m → Keeps HasNames (at_address E p m)
  unfolding at_address load save
  at_address-Keeps p m k = keeps λ s x.
      let t = (m (record s { rds = s.heap p })).1 in
      let y = kept k (record s { rds = s.heap p }) (x, x.0 p) in
      (
        λ q.
            written-Same p q t.rds (t.heap q) (h q) (λ e. subst (λ j. Same t.rds (h j)) (sym e) y.1)
              (y.0.0 q),
        y.0.1,
      )

  create_at-Keeps : (p : ℕ) → Keeps HasNames (at_address E p (create E))
  create_at-Keeps p =
      at_address-Keeps p (create E) (create-Keeps (PointsTo-Stable p) other (λ e. cc))

  delete_at-Keeps : (p : ℕ) → Keeps HasNames (at_address E p (delete E))
  delete_at-Keeps p = at_address-Keeps p (delete E) (
      delete-Keeps_of (PointsTo-Stable p) other (λ e. cc)
        (rds_delete-Keeps (PointsTo-Stable p) other (λ e. cc)))

  update_status_at-Keeps : (p : ℕ) → Keeps HasNames (at_address E p (update_status E))
  update_status_at-Keeps p =
      at_address-Keeps p (update_status E) (update_status-Keeps (PointsTo-Stable p) other)

  update-Keeps_names : (fuel : ℕ) (old : RdsSpec) → Keeps HasNames (update E fuel old)
  update-Keeps_names =
      update-Keeps HasNames-Stable other (λ e. cc) (λ e. cc) (λ e. cc)
        (create_alarms-Keeps HasNames-Stable other (λ e. cc))

  sleep-Keeps : Keeps HasNames (perform E (sleep 30))
  sleep-Keeps = Keeps-perform HasNames-Stable (sleep 30) other

  process_update_rds-Keeps : (fuel old new : ℕ) → Keeps HasNames (process_update_rds E fuel old new)
  unfolding process_update_rds update_changed
  process_update_rds-Keeps fuel old new =
      search (keeps_rules, sleep-Keeps, work_on-Keeps, update_status_at-Keeps, update-Keeps_names)
        depth 20

  process_event-Keeps_of :
      (fuel : ℕ) (kind : EventType) (old new : Option ℕ)
      → Keeps HasNames
          (process_event E fuel (record { event_type = kind; old_obj = old; new_obj = new }))
  unfolding process_event process_add_rds process_del_rds
  process_event-Keeps_of fuel EventType.add_rds old new =
      search (keeps_rules, create_at-Keeps) depth 8
  process_event-Keeps_of fuel EventType.del_rds old new =
      search (keeps_rules, delete_at-Keeps) depth 8
  process_event-Keeps_of fuel EventType.update_rds old new =
      search (keeps_rules, process_update_rds-Keeps) depth 8

-- Processing an event keeps the name and the namespace of the resource at every address, and
-- allocates none.
pub process_event-HasNames :
    (E : Env) (fuel : ℕ) (e : Event) (s : State E)
    → HasNames s.heap s.next (process_event E fuel e s).1
process_event-HasNames E fuel e s =
    kept (process_event-Keeps_of s.heap s.next fuel e.event_type e.old_obj e.new_obj) s
      (λ p. (refl, refl), refl)
