-- ===== src/Controller/Workers/Unchanged.antt =====
-- pkg/controller/controller.go, Run: the resources of an event while a worker has it.
use otc_rds_operator.Prelude.{
  ℕ, ◌<◌, ◌≡◌, refl, inl, inr, String, Bool-cases, Option, none, some, arith,
}
use otc_rds_operator.Rds.{Rds}
use otc_rds_operator.Cloud.{Env}
use otc_rds_operator.Exec.{State}
use otc_rds_operator.Controller.Queue.{WorkQueue, IsLawful, IsExclusive, Event, EventType}
use otc_rds_operator.Controller.Handlers.{is_watched, enqueue, on_add, on_delete, on_update}
use otc_rds_operator.Controller.Worker.{process_item}
use otc_rds_operator.Controller.Workers.{
  Pool, put, put-cases, Move, added, deleted, updated, takes, settles, Runs,
}
use otc_rds_operator.Controller.Workers.Apart.{PointsTo}
use otc_rds_operator.Controller.Workers.Exclusive.{
  IsExclusivePool, IsIdle, Runs-ExclusivePool, IsExclusivePool-apart,
}
use otc_rds_operator.Controller.Workers.Frame.{process_event-Leaves}

module _ (Q : WorkQueue) {E : Env} (w : String) (a : ℕ) where
  enqueue-heap :
      (k : EventType) (o : Option Rds) (s : State E) (q : Q.Queue)
      → a < s.next
      → (enqueue Q k w o (s, q)).0.heap a ≡ s.heap a
  unfolding enqueue
  enqueue-heap k none s q lt = refl
  enqueue-heap k (some r) s q lt = elim (Bool-cases (is_watched w r.namespace)) [
    | inl in_list ↦ rw in_list (ground (arith, lt))
    | inr other ↦ rw other refl
  ]

  on_update-heap :
      (o n : Option Rds) (s : State E) (q : Q.Queue)
      → a < s.next
      → (on_update Q w o n (s, q)).0.heap a ≡ s.heap a
  unfolding on_update
  on_update-heap none n s q lt = refl
  on_update-heap (some o) none s q lt = refl
  on_update-heap (some o) (some n) s q lt = elim (Bool-cases (is_watched w n.namespace)) [
    | inl in_list ↦ rw in_list (ground (arith, lt))
    | inr other ↦ rw other refl
  ]

module _ (Q : WorkQueue) (L : IsLawful Q) (X : IsExclusive Q) (E : Env) where
  settles-heap :
      (fuel : ℕ) (i j : ℕ) (x y : Event) (a : ℕ) (p : Pool Q E)
      → IsExclusivePool Q L X E p
      → p.holding i ≡ some x
      → p.holding j ≡ some y
      → PointsTo x a
      → put j none p.holding i ≡ some x
      → (process_item Q E fuel p.shared.0 p.shared.1 (some (y, p.shared.1))).1.heap a
        ≡ p.shared.0.heap a
  unfolding process_item
  settles-heap fuel i j x y a p ex hi hj to still = elim (put-cases j none p.holding i x still) [
    | inl (_, none_held) ↦ absurd (ground (arith, none_held))
    | inr (ne, _) ↦
        process_event-Leaves E fuel y p.shared.0 a
          (IsExclusivePool-apart Q L X E p ex i j x y a hi hj ne to)
  ]

  Move-heap :
      (fuel : ℕ) (w : String) (n : ℕ) (p q : Pool Q E) (i : ℕ) (x : Event) (a : ℕ)
      → IsExclusivePool Q L X E p
      → Move Q E fuel w n p q
      → p.holding i ≡ some x
      → q.holding i ≡ some x
      → PointsTo x a
      → q.shared.0.heap a ≡ p.shared.0.heap a
  unfolding on_add on_delete
  Move-heap fuel w n _ _ i x a ex (added o p) hi still to =
      enqueue-heap Q w a EventType.add_rds o p.shared.0 p.shared.1
        (ex.live.below x (inr (i, hi)) a to)
  Move-heap fuel w n _ _ i x a ex (deleted o p) hi still to =
      enqueue-heap Q w a EventType.del_rds o p.shared.0 p.shared.1
        (ex.live.below x (inr (i, hi)) a to)
  Move-heap fuel w n _ _ i x a ex (updated o m p) hi still to =
      on_update-heap Q w a o m p.shared.0 p.shared.1 (ex.live.below x (inr (i, hi)) a to)
  Move-heap fuel w n _ _ i x a ex (takes j e rest p lt free got) hi still to = refl
  Move-heap fuel w n _ _ i x a ex (settles j y p hj) hi still to =
      settles-heap fuel i j x y a p ex hi hj to still

  -- With a queue that behaves as documented and any number of workers, from a start at which no event
  -- waits and none is taken, however the handlers and the workers follow each other, and whatever the
  -- world answers: while a worker has an event, no handler and no other worker changes a resource that
  -- the event points to.
  pub Runs-heap :
      (fuel : ℕ) (w : String) (n : ℕ) (start p q : Pool Q E)
      → IsIdle Q L X E start
      → Runs Q E fuel w n start p
      → Move Q E fuel w n p q
      → (i : ℕ) (x : Event) (a : ℕ) → p.holding i ≡ some x
      → q.holding i ≡ some x
      → PointsTo x a
      → q.shared.0.heap a ≡ p.shared.0.heap a
  Runs-heap fuel w n start p q idle r m i x a hi still to =
      Move-heap fuel w n p q i x a (Runs-ExclusivePool Q L X E fuel w n start p r idle) m hi still
        to
