-- ===== src/Controller/Watched.antt =====
-- The watch list of pkg/controller/controller.go, and the events that pkg/controller/worker.go
-- receives.
use otc_rds_operator.Prelude.{
  ℕ, ◌+◌, ◌≤◌, ◌<◌, String, ◌≡◌, inl, inr, true, Bool-cases, Option, none, some, ltb, arith, subst,
  sym, refl, ap, ◌∙◌,
}
use otc_rds_operator.Rds.{Rds}
use otc_rds_operator.Cloud.{Env}
use otc_rds_operator.Exec.{State, Outcome, done, fail, panic, exit, waiting}
use otc_rds_operator.Controller.Queue.{WorkQueue, IsLawful, Event, EventType}
use otc_rds_operator.Controller.Handlers.{is_watched, store, enqueue, on_add, on_delete, on_update}
use otc_rds_operator.Controller.Worker.{
  max_retries, settle_event, process_event, process_item, process_next_item,
}
use otc_rds_operator.Controller.Steps.{Step, added, deleted, updated, worked, Reach, Reach-keeps}
use otc_rds_operator.Controller.Addresses.{HasNames, process_event-HasNames}

module _ {E : Env} (w : String) where
  -- The event points to a resource, in a namespace of the watch list.
  abbrev pub IsWatched : State E → Event → Type 0
  IsWatched s e =
      (p : ℕ) × (e.new_obj ≡ some p) × (p < s.next) × (is_watched w (s.heap p).namespace ≡ true)

  -- A state that has all the resources of another, under the same names.
  abbrev pub Extends : State E → State E → Type 0
  Extends s t =
      (s.next ≤ t.next) × ((p : ℕ) → p < s.next → (t.heap p).namespace ≡ (s.heap p).namespace)

  pub IsWatched-Extends : (s t : State E) (e : Event) → Extends s t → IsWatched s e → IsWatched t e
  IsWatched-Extends s t e (more, names) (p, at, below, in_list) =
      (p, at, omega arith, ap (is_watched w) (names p below) ∙ in_list)

  pub store-Extends : (r : Rds) (s : State E) → Extends s (store r s)
  store-Extends r s = (omega arith, λ p below. ground arith)

  store-IsWatched :
      (r : Rds) (s : State E) (e : Event)
      → e.new_obj ≡ some s.next
      → is_watched w r.namespace ≡ true
      → IsWatched (store r s) e
  store-IsWatched r s e at in_list = (s.next, at, omega arith, ground arith)

  pub HasNames-Extends : (s t : State E) → HasNames s.heap s.next t → Extends s t
  HasNames-Extends s t (names, n) = (omega arith, λ p below. (names p).1)

module _ (Q : WorkQueue) (L : IsLawful Q) (E : Env) (w : String) where
  -- So do all the events that the worker may still receive.
  abbrev pub AllWatched : State E × Q.Queue → Type 0
  AllWatched p = (x : Event) → Q.Holds p.1 x → IsWatched w p.0 x

  pub extend : (s t : State E) (q : Q.Queue) → Extends w s t → AllWatched (s, q) → AllWatched (t, q)
  extend s t q more h x held = IsWatched-Extends w s t x more (h x held)

  add-AllWatched :
      (e : Event) (s : State E) (q : Q.Queue)
      → IsWatched w s e
      → AllWatched (s, q)
      → AllWatched (s, Q.add e q)
  add-AllWatched e s q new h x held = elim (L.add-Holds e q x held) [
    | inl same ↦ subst (IsWatched w s) (sym same) new
    | inr old ↦ h x old
  ]

  retry-AllWatched :
      (e : Event) (s : State E) (q : Q.Queue)
      → IsWatched w s e
      → AllWatched (s, q)
      → AllWatched (s, Q.add_rate_limited e q)
  retry-AllWatched e s q new h x held = elim (L.add_rate_limited-Holds e q x held) [
    | inl same ↦ subst (IsWatched w s) (sym same) new
    | inr old ↦ h x old
  ]

  -- A handler's new event, which points to the resource that it has just copied.
  stored-AllWatched :
      (e : Event) (r : Rds) (s : State E) (q : Q.Queue)
      → e.new_obj ≡ some s.next
      → is_watched w r.namespace ≡ true
      → AllWatched (s, q)
      → AllWatched (store r s, Q.add e q)
  stored-AllWatched e r s q at in_list h =
      add-AllWatched e (store r s) q (store-IsWatched w r s e at in_list)
        (extend s (store r s) q (store-Extends w r s) h)

  pub enqueue-AllWatched :
      (k : EventType) (o : Option Rds) (s : State E) (q : Q.Queue)
      → AllWatched (s, q)
      → AllWatched (enqueue Q k w o (s, q))
  unfolding enqueue
  enqueue-AllWatched k none s q h = h
  enqueue-AllWatched k (some r) s q h = elim (Bool-cases (is_watched w r.namespace)) [
    | inl in_list ↦ rw in_list (
        stored-AllWatched (record { event_type = k; old_obj = none; new_obj = some s.next }) r s q
          refl in_list h)
    | inr other ↦ rw other h
  ]

  pub on_update-AllWatched :
      (o n : Option Rds) (s : State E) (q : Q.Queue)
      → AllWatched (s, q)
      → AllWatched (on_update Q w o n (s, q))
  unfolding on_update
  on_update-AllWatched none n s q h = h
  on_update-AllWatched (some o) none s q h = h
  on_update-AllWatched (some o) (some n) s q h = elim (Bool-cases (is_watched w n.namespace)) [
    | inl in_list ↦
        let e : Event = record {
          event_type = EventType.update_rds;
          old_obj = some s.next;
          new_obj = some (s.next + 1);
        } in
        rw in_list (
          stored-AllWatched e n (store o s) q refl in_list
            (extend s (store o s) q (store-Extends w o s) h))
    | inr other ↦ rw other h
  ]

  pub settle_event-AllWatched :
      (r : Outcome Unit) (e : Event) (s : State E) (q : Q.Queue)
      → IsWatched w s e
      → AllWatched (s, q)
      → AllWatched (s, settle_event Q E r e q)
  unfolding settle_event
  settle_event-AllWatched (done a) e s q new h = λ x held. h x (L.forget-Holds e q x held)
  settle_event-AllWatched (fail m) e s q new h =
      elim (Bool-cases (ltb (Q.num_requeues q e) max_retries)) [
        | inl less ↦ rw less (retry-AllWatched e s q new h)
        | inr enough ↦ rw enough (λ x held. h x (L.forget-Holds e q x held))
      ]
  settle_event-AllWatched (panic m) e s q new h = h
  settle_event-AllWatched (exit m) e s q new h = h
  settle_event-AllWatched waiting e s q new h = h

  process_item-AllWatched :
      (fuel : ℕ) (s : State E) (q : Q.Queue) (o : Option (Event × Q.Queue))
      → Q.get q ≡ o
      → AllWatched (s, q)
      → AllWatched ((process_item Q E fuel s q o).1, (process_item Q E fuel s q o).2)
  unfolding process_item
  process_item-AllWatched fuel s q none g h = h
  process_item-AllWatched fuel s q (some (e, rest)) g h = λ x held.
      let (r, t) = process_event E fuel e s in
      let more = HasNames-Extends w s t (process_event-HasNames E fuel e s) in
      let new = IsWatched-Extends w s t e more (h e (L.get-Holds q e rest g)) in
      settle_event-AllWatched r e t rest new
        (extend s t rest more (λ y in_rest. h y (L.get-Holds_rest q e rest g y in_rest))) x
        (L.mark_done-Holds e _ x held)

  Step-AllWatched :
      (fuel : ℕ) (p p' : State E × Q.Queue) → Step Q E fuel w p p' → AllWatched p → AllWatched p'
  unfolding on_add on_delete process_next_item
  Step-AllWatched fuel _ _ (added o p) h = enqueue-AllWatched EventType.add_rds o p.0 p.1 h
  Step-AllWatched fuel _ _ (deleted o p) h = enqueue-AllWatched EventType.del_rds o p.0 p.1 h
  Step-AllWatched fuel _ _ (updated o n p) h = on_update-AllWatched o n p.0 p.1 h
  Step-AllWatched fuel _ _ (worked p) h = process_item-AllWatched fuel p.0 p.1 (Q.get p.1) refl h

  -- With a queue that behaves as documented, however the informer's handlers and the worker's turns
  -- follow each other, and whatever the world answers: every event that the worker may still
  -- receive points to a resource whose namespace is in the watch list, if that is so at the start.
  pub Reach-AllWatched :
      (fuel : ℕ) (p p' : State E × Q.Queue)
      → Reach Q E fuel w p p'
      → AllWatched p
      → (x : Event) → Q.Holds p'.1 x
      → IsWatched w p'.0 x
  Reach-AllWatched fuel p p' r h = Reach-keeps Q E fuel w AllWatched (Step-AllWatched fuel) r h
