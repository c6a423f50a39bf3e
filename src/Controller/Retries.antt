-- ===== src/Controller/Retries.antt =====
-- pkg/controller/worker.go, processNextItem: how often an event is put back.
use otc_rds_operator.Prelude.{
  ℕ, ◌≤◌, ◌<◌, String, ◌≡◌, inl, inr, Bool-cases, Option, none, some, ltb, arith, subst, sym, refl,
}
use otc_rds_operator.Rds.{Rds}
use otc_rds_operator.Cloud.{Env}
use otc_rds_operator.Exec.{State, Outcome, done, fail, panic, exit, waiting}
use otc_rds_operator.Controller.Queue.{WorkQueue, IsLawful, Event, EventType}
use otc_rds_operator.Controller.Handlers.{is_watched, enqueue, on_add, on_delete, on_update}
use otc_rds_operator.Controller.Worker.{
  max_retries, settle_event, process_event, process_item, process_next_item,
}
use otc_rds_operator.Controller.Steps.{Step, added, deleted, updated, worked, Reach, Reach-keeps}

-- No event has been put back more often than that since it was last forgotten.
abbrev pub IsBounded : (Q : WorkQueue) → Q.Queue → Type 0
IsBounded Q q = (x : Event) → Q.num_requeues q x ≤ max_retries

module _ (Q : WorkQueue) (L : IsLawful Q) where
  add-IsBounded : (e : Event) (q : Q.Queue) → IsBounded Q q → IsBounded Q (Q.add e q)
  add-IsBounded e q h x = grind (arith, L.add-num_requeues e q x, h x)

  pub get-IsBounded :
      (q : Q.Queue) (e : Event) (rest : Q.Queue)
      → Q.get q ≡ some (e, rest)
      → IsBounded Q q
      → IsBounded Q rest
  get-IsBounded q e rest g h x = grind (arith, L.get-num_requeues q e rest g x, h x)

  pub mark_done-IsBounded :
      (e : Event) (q : Q.Queue) → IsBounded Q q → IsBounded Q (Q.mark_done e q)
  mark_done-IsBounded e q h x = grind (arith, L.mark_done-num_requeues e q x, h x)

  forget-IsBounded : (e : Event) (q : Q.Queue) → IsBounded Q q → IsBounded Q (Q.forget e q)
  forget-IsBounded e q h x = grind (arith, L.forget-num_requeues e q x, h x)

  retry-IsBounded :
      (e : Event) (q : Q.Queue)
      → Q.num_requeues q e < max_retries
      → IsBounded Q q
      → IsBounded Q (Q.add_rate_limited e q)
  retry-IsBounded e q less h x = elim (L.add_rate_limited-num_requeues e q x) [
    | inl (same, one) ↦
        let below = subst (λ y. Q.num_requeues q y < max_retries) (sym same) less in
        grind (arith, one, below)
    | inr equal ↦ grind (arith, equal, h x)
  ]

  module _ (E : Env) where
    pub settle_event-IsBounded :
        (r : Outcome Unit) (e : Event) (q : Q.Queue)
        → IsBounded Q q
        → IsBounded Q (settle_event Q E r e q)
    unfolding settle_event
    settle_event-IsBounded (done a) e q h = forget-IsBounded e q h
    settle_event-IsBounded (fail x) e q h =
        elim (Bool-cases (ltb (Q.num_requeues q e) max_retries)) [
          | inl less ↦ rw less (retry-IsBounded e q (ground arith) h)
          | inr enough ↦ rw enough (forget-IsBounded e q h)
        ]
    settle_event-IsBounded (panic x) e q h = h
    settle_event-IsBounded (exit x) e q h = h
    settle_event-IsBounded waiting e q h = h

    process_item-IsBounded :
        (fuel : ℕ) (s : State E) (q : Q.Queue) (o : Option (Event × Q.Queue))
        → Q.get q ≡ o
        → IsBounded Q q
        → IsBounded Q (process_item Q E fuel s q o).2
    unfolding process_item
    process_item-IsBounded fuel s q none g h = h
    process_item-IsBounded fuel s q (some (e, rest)) g h =
        mark_done-IsBounded e _
          (settle_event-IsBounded (process_event E fuel e s).0 e rest (get-IsBounded q e rest g h))

    pub enqueue-IsBounded :
        (k : EventType) (w : String) (o : Option Rds) (s : State E) (q : Q.Queue)
        → IsBounded Q q
        → IsBounded Q (enqueue Q k w o (s, q)).1
    unfolding enqueue
    enqueue-IsBounded k w none s q h = h
    enqueue-IsBounded k w (some r) s q h = elim (Bool-cases (is_watched w r.namespace)) [
      | inl in_list ↦ rw in_list (add-IsBounded _ q h)
      | inr other ↦ rw other h
    ]

    pub on_update-IsBounded :
        (w : String) (o n : Option Rds) (s : State E) (q : Q.Queue)
        → IsBounded Q q
        → IsBounded Q (on_update Q w o n (s, q)).1
    unfolding on_update
    on_update-IsBounded w none n s q h = h
    on_update-IsBounded w (some o) none s q h = h
    on_update-IsBounded w (some o) (some n) s q h = elim (Bool-cases (is_watched w n.namespace)) [
      | inl in_list ↦ rw in_list (add-IsBounded _ q h)
      | inr other ↦ rw other h
    ]

    Step-IsBounded :
        (fuel : ℕ) (w : String) (p p' : State E × Q.Queue)
        → Step Q E fuel w p p'
        → IsBounded Q p.1
        → IsBounded Q p'.1
    unfolding on_add on_delete process_next_item
    Step-IsBounded fuel w _ _ (added o p) h = enqueue-IsBounded EventType.add_rds w o p.0 p.1 h
    Step-IsBounded fuel w _ _ (deleted o p) h = enqueue-IsBounded EventType.del_rds w o p.0 p.1 h
    Step-IsBounded fuel w _ _ (updated o n p) h = on_update-IsBounded w o n p.0 p.1 h
    Step-IsBounded fuel w _ _ (worked p) h = process_item-IsBounded fuel p.0 p.1 (Q.get p.1) refl h

    -- With a queue that behaves as documented, however the informer's handlers and the worker's
    -- turns follow each other, and whatever the world answers: if no event has been put back more
    -- than 300 times at the start, none has later.
    pub Reach-IsBounded :
        (fuel : ℕ) (w : String) (p p' : State E × Q.Queue)
        → Reach Q E fuel w p p'
        → IsBounded Q p.1
        → (x : Event) → Q.num_requeues p'.1 x ≤ max_retries
    Reach-IsBounded fuel w p p' r h =
        Reach-keeps Q E fuel w (λ x. IsBounded Q x.1) (Step-IsBounded fuel w) r h
