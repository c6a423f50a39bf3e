-- ===== src/Controller/Workers/Exclusive.antt =====
-- pkg/controller/controller.go, Run: no two workers work on one resource of the heap.
use otc_rds_operator.Prelude.{
  ℕ, ◌+◌, ◌≤◌, ◌<◌, ◌≡◌, ◌≢◌, sym, ◌∙◌, ◌⊎◌, inl, inr, String, Bool-cases, Option, none, some, ltb,
  arith, subst,
}
use mathlib.Core.Option.{some_inj}
use otc_rds_operator.Rds.{Rds}
use otc_rds_operator.Cloud.{Env}
use otc_rds_operator.Exec.{State, Outcome, done, fail, panic, exit, waiting}
use otc_rds_operator.Controller.Queue.{WorkQueue, IsLawful, IsExclusive, Event, EventType}
use otc_rds_operator.Controller.Handlers.{is_watched, enqueue, on_add, on_delete, on_update}
use otc_rds_operator.Controller.Worker.{max_retries, settle_event, process_event, process_item}
use otc_rds_operator.Controller.Addresses.{process_event-HasNames}
use otc_rds_operator.Controller.Workers.{
  Pool, put, put-cases, Move, added, deleted, updated, takes, settles, Runs, Runs-keeps,
}
use otc_rds_operator.Controller.Workers.Apart.{PointsTo, AreApart, shrink, grow}

module _ (Q : WorkQueue) (L : IsLawful Q) (X : IsExclusive Q) (E : Env) where
  -- The events that wait, and those that workers have taken.
  abbrev pub Live : Q.Queue → (ℕ → Option Event) → Event → Type 0
  Live q holding x = Q.Holds q x ⊎ ((i : ℕ) × (holding i ≡ some x))

  pub record IsExclusivePool (p : Pool Q E) : Type 0 where
    pub live : AreApart (Live p.shared.1 p.holding) p.shared.0.next
    pub busy : (i : ℕ) (x : Event) → p.holding i ≡ some x → X.Busy p.shared.1 x
    pub single : (i j : ℕ) (x : Event) → p.holding i ≡ some x → p.holding j ≡ some x → i ≡ j

  -- The new event of a handler points to the resources that the handler has copied.
  added_at :
      (e : Event) (n : ℕ) (s : State E) (q : Q.Queue) (holding : ℕ → Option Event)
      → ((a : ℕ) → PointsTo e a → (s.next ≤ a) × (a < n))
      → s.next ≤ n
      → AreApart (Live q holding) s.next
      → AreApart (Live (Q.add e q) holding) n
  added_at e n s q holding fresh more h =
      grow (Live q holding) (Live (Q.add e q) holding) s.next n e more fresh
        (λ x l. elim l [
          | inl waits ↦ elim (L.add-Holds e q x waits) [
            | inl same ↦ inl same
            | inr old ↦ inr (inl old)
          ]
          | inr held ↦ inr (inr held)
        ])
        h

  enqueue-Exclusive :
      (w : String) (k : EventType) (o : Option Rds) (s : State E) (q : Q.Queue)
      (holding : ℕ → Option Event)
      → IsExclusivePool (record { shared = (s, q); holding = holding })
      → IsExclusivePool (record { shared = enqueue Q k w o (s, q); holding = holding })
  unfolding enqueue
  enqueue-Exclusive w k none s q holding h = h
  enqueue-Exclusive w k (some r) s q holding h = elim (Bool-cases (is_watched w r.namespace)) [
    | inl in_list ↦
        let e : Event = record { event_type = k; old_obj = none; new_obj = some s.next } in
        rw in_list (record {
          live = added_at e (s.next + 1) s q holding (λ a to. ground arith) (omega arith) h.live;
          busy = λ i x held. X.add-Busy e q x (h.busy i x held);
          single = h.single;
        })
    | inr other ↦ rw other h
  ]

  on_update-Exclusive :
      (w : String) (o n : Option Rds) (s : State E) (q : Q.Queue) (holding : ℕ → Option Event)
      → IsExclusivePool (record { shared = (s, q); holding = holding })
      → IsExclusivePool (record { shared = on_update Q w o n (s, q); holding = holding })
  unfolding on_update
  on_update-Exclusive w none n s q holding h = h
  on_update-Exclusive w (some o) none s q holding h = h
  on_update-Exclusive w (some o) (some n) s q holding h =
      elim (Bool-cases (is_watched w n.namespace)) [
        | inl in_list ↦
            let e : Event = record {
              event_type = EventType.update_rds;
              old_obj = some s.next;
              new_obj = some (s.next + 1);
            } in
            rw in_list (record {
              live =
                  added_at e (s.next + 1 + 1) s q holding (λ a to. ground arith) (omega arith)
                    h.live;
              busy = λ i x held. X.add-Busy e q x (h.busy i x held);
              single = h.single;
            })
        | inr other ↦ rw other h
      ]

  settle_event-Holds :
      (r : Outcome Unit) (e : Event) (q : Q.Queue) (x : Event)
      → Q.Holds (settle_event Q E r e q) x
      → (x ≡ e) ⊎ Q.Holds q x
  unfolding settle_event
  settle_event-Holds (done a) e q x h = inr (L.forget-Holds e q x h)
  settle_event-Holds (fail m) e q x h = elim (Bool-cases (ltb (Q.num_requeues q e) max_retries)) [
    | inl less ↦ L.add_rate_limited-Holds e q x (rw less at h)
    | inr enough ↦ inr (L.forget-Holds e q x (rw enough at h))
  ]
  settle_event-Holds (panic m) e q x h = inr h
  settle_event-Holds (exit m) e q x h = inr h
  settle_event-Holds waiting e q x h = inr h

  settle_event-Busy :
      (r : Outcome Unit) (e : Event) (q : Q.Queue) (x : Event)
      → X.Busy q x
      → X.Busy (settle_event Q E r e q) x
  unfolding settle_event
  settle_event-Busy (done a) e q x h = X.forget-Busy e q x h
  settle_event-Busy (fail m) e q x h = elim (Bool-cases (ltb (Q.num_requeues q e) max_retries)) [
    | inl less ↦ rw less (X.add_rate_limited-Busy e q x h)
    | inr enough ↦ rw enough (X.forget-Busy e q x h)
  ]
  settle_event-Busy (panic m) e q x h = h
  settle_event-Busy (exit m) e q x h = h
  settle_event-Busy waiting e q x h = h

  takes-Exclusive :
      (i : ℕ) (e : Event) (rest : Q.Queue) (s : State E) (q : Q.Queue) (holding : ℕ → Option Event)
      → Q.get q ≡ some (e, rest)
      → IsExclusivePool (record { shared = (s, q); holding = holding })
      → IsExclusivePool (record { shared = (s, rest); holding = put i (some e) holding })
  takes-Exclusive i e rest s q holding got h = record {
    live =
        shrink (Live q holding) (Live rest (put i (some e) holding)) s.next s.next (omega arith)
          (λ x l. elim l [
            | inl waits ↦ inl (L.get-Holds_rest q e rest got x waits)
            | inr (j, held) ↦ elim (put-cases i (some e) holding j x held) [
              | inl (_, same) ↦ inl (subst (Q.Holds q) (some_inj.0 same) (L.get-Holds q e rest got))
              | inr (_, old) ↦ inr (j, old)
            ]
          ])
          h.live;
    busy = λ j x held. elim (put-cases i (some e) holding j x held) [
      | inl (_, same) ↦ subst (X.Busy rest) (some_inj.0 same) (X.get-Busy q e rest got).1
      | inr (_, old) ↦ X.get-Busy_kept q e rest got x (h.busy j x old)
    ];
    single = λ j k x hj hk. elim (put-cases i (some e) holding j x hj) [
      | inl (j_is, same) ↦ elim (put-cases i (some e) holding k x hk) [
        | inl (k_is, _) ↦ j_is ∙ sym k_is
        | inr (_, old) ↦ absurd (fresh k x same old)
      ]
      | inr (_, old) ↦ elim (put-cases i (some e) holding k x hk) [
        | inl (_, same) ↦ absurd (fresh j x same old)
        | inr (_, old_k) ↦ h.single j k x old old_k
      ]
    ];
  }
    where
      fresh : (k : ℕ) (x : Event) → some e ≡ some x → holding k ≡ some x → ⊥
      fresh k x same old =
          (X.get-Busy q e rest got).0 (subst (X.Busy q) (sym (some_inj.0 same)) (h.busy k x old))

  settles-Exclusive :
      (i : ℕ) (e : Event) (r : Outcome Unit) (s t : State E) (q : Q.Queue)
      (holding : ℕ → Option Event)
      → t.next ≡ s.next
      → holding i ≡ some e
      → IsExclusivePool (record { shared = (s, q); holding = holding })
      → IsExclusivePool (record {
        shared = (t, Q.mark_done e (settle_event Q E r e q));
        holding = put i none holding;
      })
  settles-Exclusive i e r s t q holding same_next mine h = record {
    live =
        shrink (Live q holding) (Live (Q.mark_done e (settle_event Q E r e q)) (put i none holding))
          s.next t.next (omega (arith, same_next))
          (λ x l. elim l [
            | inl waits ↦
                elim (settle_event-Holds r e q x
                  (L.mark_done-Holds e (settle_event Q E r e q) x waits)) [
                    | inl same ↦ inr (i, subst (λ z. holding i ≡ some z) (sym same) mine)
                    | inr old ↦ inl old
                  ]
            | inr (j, held) ↦ inr (j, (kept_by j x held).1)
          ])
          h.live;
    busy = λ j x held.
        let (other, old) = kept_by j x held in
        X.mark_done-Busy e (settle_event Q E r e q) x
          (λ same. other (h.single j i e (subst (λ z. holding j ≡ some z) same old) mine))
          (settle_event-Busy r e q x (h.busy j x old));
    single = λ j k x hj hk. h.single j k x (kept_by j x hj).1 (kept_by k x hk).1;
  }
    where
      kept_by : (j : ℕ) (x : Event) → put i none holding j ≡ some x → (j ≢ i) × (holding j ≡ some x)
      kept_by j x held = elim (put-cases i none holding j x held) [
        | inl (_, none_held) ↦ absurd (ground arith)
        | inr old ↦ old
      ]

  Move-Exclusive :
      (fuel : ℕ) (w : String) (n : ℕ) (p p' : Pool Q E)
      → Move Q E fuel w n p p'
      → IsExclusivePool p
      → IsExclusivePool p'
  unfolding on_add on_delete process_item
  Move-Exclusive fuel w n _ _ (added o p) h =
      enqueue-Exclusive w EventType.add_rds o p.shared.0 p.shared.1 p.holding h
  Move-Exclusive fuel w n _ _ (deleted o p) h =
      enqueue-Exclusive w EventType.del_rds o p.shared.0 p.shared.1 p.holding h
  Move-Exclusive fuel w n _ _ (updated o m p) h =
      on_update-Exclusive w o m p.shared.0 p.shared.1 p.holding h
  Move-Exclusive fuel w n _ _ (takes i e rest p lt free got) h =
      takes-Exclusive i e rest p.shared.0 p.shared.1 p.holding got h
  Move-Exclusive fuel w n _ _ (settles i e p mine) h =
      settles-Exclusive i e (process_event E fuel e p.shared.0).0 p.shared.0
        (process_event E fuel e p.shared.0).1 p.shared.1 p.holding
        (process_event-HasNames E fuel e p.shared.0).1 mine h

  -- No event waits, and no worker has one, as when the controller is made.
  abbrev pub IsIdle : Pool Q E → Type 0
  IsIdle p = ((x : Event) → ¬ Q.Holds p.shared.1 x) × ((i : ℕ) → p.holding i ≡ none)

  IsIdle-Exclusive : (p : Pool Q E) → IsIdle p → IsExclusivePool p
  IsIdle-Exclusive p (none_waits, none_held) = record {
    live = record {
      below = λ x l a to. absurd (nowhere x l);
      apart = λ x y lx ly a tx ty. absurd (nowhere x lx);
    };
    busy = λ i x held. absurd (nowhere x (inr (i, held)));
    single = λ i j x hi hj. absurd (nowhere x (inr (i, hi)));
  }
    where
      nowhere : (x : Event) → Live p.shared.1 p.holding x → ⊥
      nowhere x (inl waits) = none_waits x waits
      nowhere x (inr (i, held)) = let free = none_held i in ground (arith, free, held)

  pub Runs-ExclusivePool :
      (fuel : ℕ) (w : String) (n : ℕ) (p p' : Pool Q E)
      → Runs Q E fuel w n p p'
      → IsIdle p
      → IsExclusivePool p'
  Runs-ExclusivePool fuel w n p p' r h =
      Runs-keeps Q E fuel w n IsExclusivePool (Move-Exclusive fuel w n) r (IsIdle-Exclusive p h)

  -- Two workers have no event that points to the same resource.
  pub IsExclusivePool-apart :
      (p : Pool Q E)
      → IsExclusivePool p
      → (i j : ℕ) (x y : Event) (a : ℕ) → p.holding i ≡ some x
      → p.holding j ≡ some y
      → i ≢ j
      → PointsTo x a
      → ¬ PointsTo y a
  IsExclusivePool-apart p ex i j x y a hi hj ne tx ty =
      let same = ex.live.apart x y (inr (i, hi)) (inr (j, hj)) a tx ty in
      ne (ex.single i j x hi (subst (λ z. p.holding j ≡ some z) (sym same) hj))
