-- ===== src/Controller/Policy.antt =====
-- pkg/controller/worker.go, processNextItem: its policy of retries, on the counters of the queue alone.
use otc_rds_operator.Prelude.{
  ℕ, ◌+◌, String, ◌≡◌, ◌≢◌, ◌∙◌, refl, inl, inr, Bool-cases, Option, none, some, List, [], ◌∷◌, ltb,
  if◌then◌else◌, ap,
}
use otc_rds_operator.Rds.{Rds}
use otc_rds_operator.Cloud.{Env}
use otc_rds_operator.Exec.{State, Outcome, done, fail, panic, exit, waiting}
use otc_rds_operator.Controller.Queue.{WorkQueue, IsLawful, IsCounting, Event, EventType}
use otc_rds_operator.Controller.Handlers.{is_watched, enqueue, on_add, on_delete, on_update}
use otc_rds_operator.Controller.Worker.{
  max_retries, settle_event, process_event, process_item, process_next_item,
}
use otc_rds_operator.Controller.Steps.{Step, added, deleted, updated, worked, Reach, here, next}

-- How often an event has been put back, after a turn with this outcome.
abbrev pub policy : Outcome Unit → ℕ → ℕ
policy (done a) n = 0
policy (fail x) n = if ltb n max_retries then n + 1 else 0
policy (panic x) n = n
policy (exit x) n = n
policy waiting n = n

abbrev pub Counters : Type 0
Counters = Event → ℕ

-- What a step of the controller has processed, if anything, with the outcome.
abbrev pub Item : Type 0
Item = Option (Event × Outcome Unit)

-- A step of the policy on such an item.
abbrev pub Settles : Item → Counters → Counters → Type 0
Settles none c c' = (x : Event) → c' x ≡ c x
Settles (some (e, r)) c c' = (c' e ≡ policy r (c e)) × ((x : Event) → x ≢ e → c' x ≡ c x)

-- The runs of the policy on a log of items, the latest first.
abbrev pub Follows : List Item → Counters → Counters → Type 0
Follows [] c c' = (x : Event) → c' x ≡ c x
Follows (item ∷ items) c c' = (d : Counters) × Follows items c d × Settles item d c'

module _ (Q : WorkQueue) (E : Env) (fuel : ℕ) where
  -- The event that a turn of the worker takes off the queue, with the outcome of its processing.
  abbrev pub item_of : State E → Option (Event × Q.Queue) → Item
  item_of s none = none
  item_of s (some (e, rest)) = some (e, (process_event E fuel e s).0)

  abbrev pub handled : {w : String} {p q : State E × Q.Queue} → Step Q E fuel w p q → Item
  handled (added o p) = none
  handled (deleted o p) = none
  handled (updated o n p) = none
  handled (worked p) = item_of p.0 (Q.get p.1)

  -- What a run has processed, the latest first.
  abbrev pub log : {w : String} {p q : State E × Q.Queue} → Reach Q E fuel w p q → List Item
  log here = []
  log (next r st) = handled st ∷ log r

module _ (Q : WorkQueue) (L : IsLawful Q) (K : IsCounting Q) (E : Env) where
  settle_event_self :
      (r : Outcome Unit) (e : Event) (q : Q.Queue)
      → Q.num_requeues (settle_event Q E r e q) e ≡ policy r (Q.num_requeues q e)
  unfolding settle_event
  settle_event_self (done a) e q = K.forget_self e q
  settle_event_self (fail x) e q = elim (Bool-cases (ltb (Q.num_requeues q e) max_retries)) [
    | inl less ↦ rw less (K.retry_self e q)
    | inr enough ↦ rw enough (K.forget_self e q)
  ]
  settle_event_self (panic x) e q = refl
  settle_event_self (exit x) e q = refl
  settle_event_self waiting e q = refl

  settle_event_other :
      (r : Outcome Unit) (e : Event) (q : Q.Queue) (x : Event)
      → x ≢ e
      → Q.num_requeues (settle_event Q E r e q) x ≡ Q.num_requeues q x
  unfolding settle_event
  settle_event_other (done a) e q x ne = K.forget_other e q x ne
  settle_event_other (fail y) e q x ne = elim (Bool-cases (ltb (Q.num_requeues q e) max_retries)) [
    | inl less ↦ rw less (K.retry_other e q x ne)
    | inr enough ↦ rw enough (K.forget_other e q x ne)
  ]
  settle_event_other (panic y) e q x ne = refl
  settle_event_other (exit y) e q x ne = refl
  settle_event_other waiting e q x ne = refl

  -- A turn of the worker on an event.
  pub item_self :
      (r : Outcome Unit) (e : Event) (q rest : Q.Queue)
      → Q.get q ≡ some (e, rest)
      → Q.num_requeues (Q.mark_done e (settle_event Q E r e rest)) e ≡ policy r (Q.num_requeues q e)
  item_self r e q rest g =
      L.mark_done-num_requeues e (settle_event Q E r e rest) e
      ∙ settle_event_self r e rest
      ∙ ap (policy r) (L.get-num_requeues q e rest g e)

  pub item_other :
      (r : Outcome Unit) (e : Event) (q rest : Q.Queue)
      → Q.get q ≡ some (e, rest)
      → (x : Event) → x ≢ e
      → Q.num_requeues (Q.mark_done e (settle_event Q E r e rest)) x ≡ Q.num_requeues q x
  item_other r e q rest g x ne =
      L.mark_done-num_requeues e (settle_event Q E r e rest) x
      ∙ settle_event_other r e rest x ne
      ∙ L.get-num_requeues q e rest g x

  item-Settles :
      (fuel : ℕ) (s : State E) (q : Q.Queue) (o : Option (Event × Q.Queue))
      → Q.get q ≡ o
      → Settles
          (item_of Q E fuel s o)
          (Q.num_requeues q)
          (Q.num_requeues (process_item Q E fuel s q o).2)
  unfolding process_item
  item-Settles fuel s q none g = λ x. refl
  item-Settles fuel s q (some (e, rest)) g =
      let r = (process_event E fuel e s).0 in (item_self r e q rest g, item_other r e q rest g)

  pub enqueue-num_requeues :
      (k : EventType) (w : String) (o : Option Rds) (s : State E) (q : Q.Queue) (x : Event)
      → Q.num_requeues (enqueue Q k w o (s, q)).1 x ≡ Q.num_requeues q x
  unfolding enqueue
  enqueue-num_requeues k w none s q x = refl
  enqueue-num_requeues k w (some r) s q x = elim (Bool-cases (is_watched w r.namespace)) [
    | inl in_list ↦ rw in_list (L.add-num_requeues _ q x)
    | inr other ↦ rw other refl
  ]

  pub on_update-num_requeues :
      (w : String) (o n : Option Rds) (s : State E) (q : Q.Queue) (x : Event)
      → Q.num_requeues (on_update Q w o n (s, q)).1 x ≡ Q.num_requeues q x
  unfolding on_update
  on_update-num_requeues w none n s q x = refl
  on_update-num_requeues w (some o) none s q x = refl
  on_update-num_requeues w (some o) (some n) s q x = elim (Bool-cases (is_watched w n.namespace)) [
    | inl in_list ↦ rw in_list (L.add-num_requeues _ q x)
    | inr other ↦ rw other refl
  ]

  Step-Settles :
      (fuel : ℕ) (w : String) (p p' : State E × Q.Queue) (st : Step Q E fuel w p p')
      → Settles (handled Q E fuel st) (Q.num_requeues p.1) (Q.num_requeues p'.1)
  unfolding on_add on_delete process_next_item
  Step-Settles fuel w _ _ (added o p) = enqueue-num_requeues EventType.add_rds w o p.0 p.1
  Step-Settles fuel w _ _ (deleted o p) = enqueue-num_requeues EventType.del_rds w o p.0 p.1
  Step-Settles fuel w _ _ (updated o n p) = on_update-num_requeues w o n p.0 p.1
  Step-Settles fuel w _ _ (worked p) = item-Settles fuel p.0 p.1 (Q.get p.1) refl

  -- With a queue that behaves as documented, every run of the controller with one worker, seen through
  -- the counters of its queue, is a run of the policy on the events that it has processed and the
  -- outcomes of their processing: a success sets the counter of its event to 0, a failure counts it up,
  -- but to 0 from 300 on, and nothing else changes a counter.
  pub Reach-Follows :
      (fuel : ℕ) (w : String) (a b : State E × Q.Queue) (r : Reach Q E fuel w a b)
      → Follows (log Q E fuel r) (Q.num_requeues a.1) (Q.num_requeues b.1)
  Reach-Follows fuel w a _ here = λ x. refl
  Reach-Follows fuel w a _ (next {p} {q} r st) =
      (Q.num_requeues p.1, Reach-Follows fuel w a p r, Step-Settles fuel w p q st)
