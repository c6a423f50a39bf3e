-- ===== src/Controller/Workers/Watched.antt =====
-- The watch list of pkg/controller/controller.go, and the events that several workers receive.
use otc_rds_operator.Prelude.{
  ℕ, ◌≡◌, ◌∙◌, inl, inr, refl, subst, String, Bool-cases, Option, none, some, arith,
}
use mathlib.Core.Option.{some_inj}
use otc_rds_operator.Rds.{Rds}
use otc_rds_operator.Cloud.{Env}
use otc_rds_operator.Exec.{State}
use otc_rds_operator.Controller.Queue.{WorkQueue, IsLawful, Event, EventType}
use otc_rds_operator.Controller.Handlers.{is_watched, store, enqueue, on_add, on_delete, on_update}
use otc_rds_operator.Controller.Worker.{process_event, process_item, settle_event}
use otc_rds_operator.Controller.Addresses.{process_event-HasNames}
use otc_rds_operator.Controller.Watched.{
  IsWatched, Extends, IsWatched-Extends, store-Extends, HasNames-Extends, AllWatched, extend,
  enqueue-AllWatched, on_update-AllWatched, settle_event-AllWatched,
}
use otc_rds_operator.Controller.Workers.{
  Pool, put, put-cases, Move, added, deleted, updated, takes, settles, Runs, Runs-keeps,
}

module _ (Q : WorkQueue) {E : Env} (w : String) where
  stays : (s : State E) → Extends w s s
  stays s = (omega arith, λ p below. refl)

  Extends-trans : (s t u : State E) → Extends w s t → Extends w t u → Extends w s u
  Extends-trans s t u (more, names) (more_still, same) =
      (omega arith, λ p below. same p (omega (arith, below, more)) ∙ names p below)

  enqueue-Extends :
      (k : EventType) (o : Option Rds) (s : State E) (q : Q.Queue)
      → Extends w s (enqueue Q k w o (s, q)).0
  unfolding enqueue
  enqueue-Extends k none s q = stays s
  enqueue-Extends k (some r) s q = elim (Bool-cases (is_watched w r.namespace)) [
    | inl in_list ↦ rw in_list (store-Extends w r s)
    | inr other ↦ rw other (stays s)
  ]

  on_update-Extends :
      (o n : Option Rds) (s : State E) (q : Q.Queue) → Extends w s (on_update Q w o n (s, q)).0
  unfolding on_update
  on_update-Extends none n s q = stays s
  on_update-Extends (some o) none s q = stays s
  on_update-Extends (some o) (some n) s q = elim (Bool-cases (is_watched w n.namespace)) [
    | inl in_list ↦ rw in_list (
        Extends-trans s (store o s) (store n (store o s)) (store-Extends w o s)
          (store-Extends w n (store o s)))
    | inr other ↦ rw other (stays s)
  ]

module _ (Q : WorkQueue) (L : IsLawful Q) (E : Env) (w : String) where
  -- So do all the events that wait, and those that workers have taken.
  abbrev pub IsWatchedPool : Pool Q E → Type 0
  IsWatchedPool p =
      AllWatched Q L E w p.shared
      × ((i : ℕ) (x : Event) → p.holding i ≡ some x → IsWatched w p.shared.0 x)

  held_later :
      (s t : State E) (holding : ℕ → Option Event)
      → Extends w s t
      → ((i : ℕ) (x : Event) → holding i ≡ some x → IsWatched w s x)
      → (i : ℕ) (x : Event) → holding i ≡ some x
      → IsWatched w t x
  held_later s t holding more h i x held = IsWatched-Extends w s t x more (h i x held)

  settles-IsWatched :
      (fuel i : ℕ) (e : Event) (s : State E) (q : Q.Queue) (holding : ℕ → Option Event)
      → holding i ≡ some e
      → IsWatchedPool (record { shared = (s, q); holding = holding })
      → IsWatchedPool (record {
        shared = (
          (process_event E fuel e s).1,
          Q.mark_done e (settle_event Q E (process_event E fuel e s).0 e q),
        );
        holding = put i none holding;
      })
  settles-IsWatched fuel i e s q holding mine (waiting, held) =
      let (r, t) = process_event E fuel e s in
      let more = HasNames-Extends w s t (process_event-HasNames E fuel e s) in
      let new = IsWatched-Extends w s t e more (held i e mine) in
      (
        λ x is_in.
            settle_event-AllWatched Q L E w r e t q new (extend Q L E w s t q more waiting) x
              (L.mark_done-Holds e (settle_event Q E r e q) x is_in),
        λ j x still. elim (put-cases i none holding j x still) [
          | inl (_, none_held) ↦ absurd (ground arith)
          | inr (_, old) ↦ held_later s t holding more held j x old
        ],
      )

  takes-IsWatched :
      (i : ℕ) (e : Event) (rest : Q.Queue) (s : State E) (q : Q.Queue) (holding : ℕ → Option Event)
      → Q.get q ≡ some (e, rest)
      → IsWatchedPool (record { shared = (s, q); holding = holding })
      → IsWatchedPool (record { shared = (s, rest); holding = put i (some e) holding })
  takes-IsWatched i e rest s q holding got (waiting, held) = (
    λ x is_in. waiting x (L.get-Holds_rest q e rest got x is_in),
    λ j x has. elim (put-cases i (some e) holding j x has) [
      | inl (_, same) ↦
          subst (IsWatched w s) (some_inj.0 same) (waiting e (L.get-Holds q e rest got))
      | inr (_, old) ↦ held j x old
    ],
  )

  Move-IsWatched :
      (fuel n : ℕ) (p p' : Pool Q E) → Move Q E fuel w n p p' → IsWatchedPool p → IsWatchedPool p'
  unfolding on_add on_delete process_item
  Move-IsWatched fuel n _ _ (added o p) (waiting, held) = (
    enqueue-AllWatched Q L E w EventType.add_rds o p.shared.0 p.shared.1 waiting,
    held_later p.shared.0 (enqueue Q EventType.add_rds w o p.shared).0 p.holding
        (enqueue-Extends Q w EventType.add_rds o p.shared.0 p.shared.1) held,
  )
  Move-IsWatched fuel n _ _ (deleted o p) (waiting, held) = (
    enqueue-AllWatched Q L E w EventType.del_rds o p.shared.0 p.shared.1 waiting,
    held_later p.shared.0 (enqueue Q EventType.del_rds w o p.shared).0 p.holding
        (enqueue-Extends Q w EventType.del_rds o p.shared.0 p.shared.1) held,
  )
  Move-IsWatched fuel n _ _ (updated o m p) (waiting, held) = (
    on_update-AllWatched Q L E w o m p.shared.0 p.shared.1 waiting,
    held_later p.shared.0 (on_update Q w o m p.shared).0 p.holding
        (on_update-Extends Q w o m p.shared.0 p.shared.1) held,
  )
  Move-IsWatched fuel n _ _ (takes i e rest p lt free got) h =
      takes-IsWatched i e rest p.shared.0 p.shared.1 p.holding got h
  Move-IsWatched fuel n _ _ (settles i e p mine) h =
      settles-IsWatched fuel i e p.shared.0 p.shared.1 p.holding mine h

  -- With a queue that behaves as documented and any number of workers, however the handlers and the
  -- workers follow each other, and whatever the world answers: every event that waits, and every event
  -- that a worker has taken, points to a resource whose namespace is in the watch list, if that is so at
  -- the start.
  pub Runs-IsWatched :
      (fuel n : ℕ) (p p' : Pool Q E) → Runs Q E fuel w n p p' → IsWatchedPool p → IsWatchedPool p'
  Runs-IsWatched fuel n p p' r h = Runs-keeps Q E fuel w n IsWatchedPool (Move-IsWatched fuel n) r h
