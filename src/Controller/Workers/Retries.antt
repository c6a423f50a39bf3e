-- ===== src/Controller/Workers/Retries.antt =====
-- pkg/controller/worker.go, processNextItem: how often an event is put back, with several workers.
use otc_rds_operator.Prelude.{ℕ, ◌≤◌, String}
use otc_rds_operator.Cloud.{Env}
use otc_rds_operator.Controller.Queue.{WorkQueue, IsLawful, Event, EventType}
use otc_rds_operator.Controller.Handlers.{on_add, on_delete}
use otc_rds_operator.Controller.Worker.{max_retries, process_event, process_item, settle_event}
use otc_rds_operator.Controller.Retries.{
  IsBounded, get-IsBounded, mark_done-IsBounded, settle_event-IsBounded, enqueue-IsBounded,
  on_update-IsBounded,
}
use otc_rds_operator.Controller.Workers.{
  Pool, Move, added, deleted, updated, takes, settles, Runs, Runs-keeps,
}

module _ (Q : WorkQueue) (L : IsLawful Q) (E : Env) where
  Move-IsBounded :
      (fuel : ℕ) (w : String) (n : ℕ) (p p' : Pool Q E)
      → Move Q E fuel w n p p'
      → IsBounded Q p.shared.1
      → IsBounded Q p'.shared.1
  unfolding on_add on_delete process_item
  Move-IsBounded fuel w n _ _ (added o p) h =
      enqueue-IsBounded Q L E EventType.add_rds w o p.shared.0 p.shared.1 h
  Move-IsBounded fuel w n _ _ (deleted o p) h =
      enqueue-IsBounded Q L E EventType.del_rds w o p.shared.0 p.shared.1 h
  Move-IsBounded fuel w n _ _ (updated o m p) h =
      on_update-IsBounded Q L E w o m p.shared.0 p.shared.1 h
  Move-IsBounded fuel w n _ _ (takes i e rest p lt free got) h =
      get-IsBounded Q L p.shared.1 e rest got h
  Move-IsBounded fuel w n _ _ (settles i e p mine) h =
      let r = (process_event E fuel e p.shared.0).0 in
      mark_done-IsBounded Q L e (settle_event Q E r e p.shared.1)
        (settle_event-IsBounded Q L E r e p.shared.1 h)

  -- With a queue that behaves as documented and any number of workers, however the handlers and the
  -- workers follow each other, and whatever the world answers: if no event has been put back more than
  -- maxRetries times at the start, since it was last forgotten, then none ever is.
  pub Runs-IsBounded :
      (fuel : ℕ) (w : String) (n : ℕ) (p p' : Pool Q E)
      → Runs Q E fuel w n p p'
      → IsBounded Q p.shared.1
      → (x : Event) → Q.num_requeues p'.shared.1 x ≤ max_retries
  Runs-IsBounded fuel w n p p' r h =
      Runs-keeps Q E fuel w n (λ z. IsBounded Q z.shared.1) (Move-IsBounded fuel w n) r h
