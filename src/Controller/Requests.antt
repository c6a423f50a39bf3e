-- ===== src/Controller/Requests.antt =====
-- The requests of pkg/controller/resource.go that pkg/controller/worker.go makes, in runs of the
-- controller.
use otc_rds_operator.Prelude.{ℕ, String, Option, none, some, Bool-cases, inl, inr}
use otc_rds_operator.Rds.{Rds}
use otc_rds_operator.Cloud.{Env, Trace}
use otc_rds_operator.Exec.{State}
use otc_rds_operator.Exec.Keeps.{Keeps, keeps, kept}
use otc_rds_operator.Instance.Create.Unique.{
  CreatesFree, create-CreatesFree, IsSafe-Stable as CreatesFree-Stable,
}
use otc_rds_operator.Instance.Create.Footprint.{create-Keeps}
use otc_rds_operator.Instance.Delete.Backup.{
  DeletesBackedUp, delete-DeletesBackedUp, IsSafe-Stable as DeletesBackedUp-Stable,
}
use otc_rds_operator.Instance.Delete.Footprint.{delete-Keeps_of, rds_delete-Keeps}
use otc_rds_operator.Alarm.Footprint.{create_alarms-Keeps}
use otc_rds_operator.Instance.Update.Footprint.{update-Keeps}
use otc_rds_operator.Controller.Queue.{WorkQueue, Event, EventType}
use otc_rds_operator.Controller.Handlers.{is_watched, enqueue, on_add, on_delete, on_update}
use otc_rds_operator.Controller.Worker.{process_event, process_item, process_next_item}
use otc_rds_operator.Controller.Steps.{Step, added, deleted, updated, worked, Reach, Reach-keeps}
use otc_rds_operator.Controller.Safety.{process_event-Keeps}

-- Both of the requests' conditions.
abbrev pub IsSafe : Trace → Type 0
IsSafe t = CreatesFree t × DeletesBackedUp t

module _ (E : Env) (fuel : ℕ) (e : Event) where
  process_event-CreatesFree : Keeps (λ s. CreatesFree s.trace) (process_event E fuel e)
  process_event-CreatesFree =
      process_event-Keeps (CreatesFree-Stable E) (λ e. cc) (λ r h s x. x)
        (keeps (create-CreatesFree E))
        (delete-Keeps_of (CreatesFree-Stable E) (λ e. cc) (λ e. cc)
          (rds_delete-Keeps (CreatesFree-Stable E) (λ e. cc) (λ e. cc)))
        (update-Keeps (CreatesFree-Stable E) (λ e. cc) (λ e. cc) (λ e. cc) (λ e. cc)
          (create_alarms-Keeps (CreatesFree-Stable E) (λ e. cc) (λ e. cc)))
        fuel e

  process_event-DeletesBackedUp : Keeps (λ s. DeletesBackedUp s.trace) (process_event E fuel e)
  process_event-DeletesBackedUp =
      process_event-Keeps (DeletesBackedUp-Stable E) (λ e. cc) (λ r h s x. x)
        (create-Keeps (DeletesBackedUp-Stable E) (λ e. cc) (λ e. cc))
        (keeps (delete-DeletesBackedUp E))
        (update-Keeps (DeletesBackedUp-Stable E) (λ e. cc) (λ e. cc) (λ e. cc) (λ e. cc)
          (create_alarms-Keeps (DeletesBackedUp-Stable E) (λ e. cc) (λ e. cc)))
        fuel e

  -- The same for one event.
  pub process_event-IsSafe :
      (s : State E) → IsSafe s.trace → IsSafe (process_event E fuel e s).1.trace
  process_event-IsSafe s (c, d) =
      (kept process_event-CreatesFree s c, kept process_event-DeletesBackedUp s d)

-- The handlers of the informer make no request.
module _ (Q : WorkQueue) (E : Env) (w : String) where
  enqueue-IsSafe :
      (k : EventType) (o : Option Rds) (s : State E) (q : Q.Queue)
      → IsSafe s.trace
      → IsSafe (enqueue Q k w o (s, q)).0.trace
  unfolding enqueue
  enqueue-IsSafe k none s q h = h
  enqueue-IsSafe k (some r) s q h = elim (Bool-cases (is_watched w r.namespace)) [
    | inl in_list ↦ rw in_list h
    | inr other ↦ rw other h
  ]

  on_update-IsSafe :
      (o n : Option Rds) (s : State E) (q : Q.Queue)
      → IsSafe s.trace
      → IsSafe (on_update Q w o n (s, q)).0.trace
  unfolding on_update
  on_update-IsSafe none n s q h = h
  on_update-IsSafe (some o) none s q h = h
  on_update-IsSafe (some o) (some n) s q h = elim (Bool-cases (is_watched w n.namespace)) [
    | inl in_list ↦ rw in_list h
    | inr other ↦ rw other h
  ]

  process_item-IsSafe :
      (fuel : ℕ) (s : State E) (q : Q.Queue) (o : Option (Event × Q.Queue))
      → IsSafe s.trace
      → IsSafe (process_item Q E fuel s q o).1.trace
  unfolding process_item
  process_item-IsSafe fuel s q none h = h
  process_item-IsSafe fuel s q (some (e, rest)) h = process_event-IsSafe E fuel e s h

  Step-IsSafe :
      (fuel : ℕ) (p p' : State E × Q.Queue)
      → Step Q E fuel w p p'
      → IsSafe p.0.trace
      → IsSafe p'.0.trace
  unfolding on_add on_delete process_next_item
  Step-IsSafe fuel _ _ (added o p) h = enqueue-IsSafe EventType.add_rds o p.0 p.1 h
  Step-IsSafe fuel _ _ (deleted o p) h = enqueue-IsSafe EventType.del_rds o p.0 p.1 h
  Step-IsSafe fuel _ _ (updated o n p) h = on_update-IsSafe o n p.0 p.1 h
  Step-IsSafe fuel _ _ (worked p) h = process_item-IsSafe fuel p.0 p.1 (Q.get p.1) h

  -- With one worker, however the informer's handlers and the worker's turns, each taken as a whole,
  -- follow each other, and whatever the world and the queue answer: in the calls of the whole run, each
  -- creation of an instance is of a name that the last look-up of an instance was for, which found none,
  -- with no creation since then, and each deletion comes after a completed backup of the instance, if
  -- that is so of the calls at the start.
  pub Reach-IsSafe :
      (fuel : ℕ) (p p' : State E × Q.Queue)
      → Reach Q E fuel w p p'
      → IsSafe p.0.trace
      → IsSafe p'.0.trace
  Reach-IsSafe fuel p p' r h = Reach-keeps Q E fuel w (λ x. IsSafe x.0.trace) (Step-IsSafe fuel) r h
