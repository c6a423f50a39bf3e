-- ===== src/Controller/Worker.antt =====
-- pkg/controller/worker.go: the worker that takes events off the queue.
use otc_rds_operator.Prelude.{
  ℕ, zero, suc, ◌<>◌, Bool, true, false, not, Option, none, some, ltb, ◌==◌, nat_eq, if◌then◌else◌,
}
use otc_rds_operator.Rds.{Rds, has_changed}
use otc_rds_operator.Cloud.{Env, sleep}
use otc_rds_operator.Exec.{
  State, Exec, Outcome, done, fail, panic, exit, waiting, pure, raise, gets, deref, wrap_error,
  perform, ◌>>=◌, ◌>>◌,
}
use otc_rds_operator.Instance.Status.{update_status}
use otc_rds_operator.Instance.Create.{create}
use otc_rds_operator.Instance.Delete.{delete}
use otc_rds_operator.Instance.Update.{update}
use otc_rds_operator.Controller.Queue.{WorkQueue, Event, EventType}

abbrev pub max_retries : ℕ
max_retries = 300

module _ (E : Env) where
  -- Loads the resource at an address, and writes it back.
  unfoldable pub load : ℕ → Exec E Unit
  load p s = (done tt, record s { rds = s.heap p })

  unfoldable pub save : ℕ → Exec E Unit
  save p s = (done tt, record s { heap = λ j. if nat_eq j p then s.rds else s.heap j })

  unfoldable pub work_on : Rds → Exec E Unit
  work_on r s = (done tt, record s { rds = r })

  -- Runs code that has a pointer to the resource at an address: what the code writes stays written,
  -- whatever its outcome.
  unfoldable pub at_address : ℕ → Exec E Unit → Exec E Unit
  unfolding load save
  at_address p m s = let (r, t) = m (load p s).1 in (r, (save p t).1)

  unfoldable pub process_add_rds : ℕ → Exec E Unit
  unfolding at_address
  process_add_rds new = at_address new (create E)

  unfoldable pub process_del_rds : ℕ → Exec E Unit
  unfolding at_address
  process_del_rds new = at_address new (delete E)

  -- What follows the refresh of the status. Update works on a copy of the new object, which is not
  -- written back.
  unfoldable pub update_changed : ℕ → Rds → Rds → Exec E Unit
  unfolding work_on has_changed
  update_changed fuel old_rds new_rds =
      if not (has_changed old_rds new_rds)
      then pure tt
      else if not (new_rds.status.status == "ACTIVE")
      then (do _ ← perform E (sleep 30); raise ("rds " <> new_rds.name <> " not in ACTIVE state"))
      else (do work_on new_rds; update E fuel old_rds.spec)

  unfoldable pub process_update_rds : ℕ → ℕ → ℕ → Exec E Unit
  unfolding at_address update_changed
  process_update_rds fuel old new = do
    wrap_error "error update rds status from worker: " (at_address new (update_status E))
    old_rds ← gets (λ s. s.heap old)
    new_rds ← gets (λ s. s.heap new)
    update_changed fuel old_rds new_rds

  unfoldable pub process_event : ℕ → Event → Exec E Unit
  unfolding process_add_rds process_del_rds process_update_rds
  process_event fuel e = elim e.event_type [
    | EventType.add_rds ↦ do new ← deref e.new_obj; process_add_rds new
    | EventType.del_rds ↦ do new ← deref e.new_obj; process_del_rds new
    | EventType.update_rds ↦ do
      old ← deref e.old_obj
      new ← deref e.new_obj
      process_update_rds fuel old new
  ]

module _ (Q : WorkQueue) (E : Env) where
  -- What is done with the event after it has been processed.
  unfoldable pub settle_event : Outcome Unit → Event → Q.Queue → Q.Queue
  settle_event (done _) e q = Q.forget e q
  settle_event (fail x) e q =
      if ltb (Q.num_requeues q e) max_retries then Q.add_rate_limited e q else Q.forget e q
  settle_event (panic x) e q = q
  settle_event (exit x) e q = q
  settle_event waiting e q = q

  -- Whether the worker goes on. A panic ends it, after the deferred Done.
  abbrev goes_on : Outcome Unit → Outcome Bool
  goes_on (done _) = done true
  goes_on (fail x) = done true
  goes_on (panic x) = panic x
  goes_on (exit x) = exit x
  goes_on waiting = waiting

  -- One item, as the queue gives it; `none` once the queue is shut down. The first action of a
  -- handled item is Get, the last the deferred Done.
  abbrev continues : Outcome Bool → Bool
  continues (done b) = b
  continues _ = false

  unfoldable pub process_item :
      ℕ → State E → Q.Queue → Option (Event × Q.Queue) → Outcome Bool × State E × Q.Queue
  unfolding settle_event
  process_item fuel s q none = (done false, s, q)
  process_item fuel s q (some (e, rest)) =
      let (r, t) = process_event E fuel e s in (goes_on r, t, Q.mark_done e (settle_event r e rest))

  unfoldable pub process_next_item : ℕ → State E × Q.Queue → Outcome Bool × State E × Q.Queue
  unfolding process_item
  process_next_item fuel (s, q) = process_item fuel s q (Q.get q)

  -- The loop of a worker, for at most so many turns.
  unfoldable pub run_worker : ℕ → ℕ → State E × Q.Queue → State E × Q.Queue
  run_worker fuel zero p = p
  run_worker fuel (suc turns) p =
      let (r, t, q) = process_next_item fuel p in
      let rest = run_worker fuel turns (t, q) in if continues r then rest else (t, q)
