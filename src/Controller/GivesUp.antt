-- ===== src/Controller/GivesUp.antt =====
-- pkg/controller/worker.go, processNextItem: an event whose processing keeps failing.
use otc_rds_operator.Prelude.{
  ℕ, zero, suc, ◌+◌, ◌≤◌, String, ◌≡◌, ◌≢◌, ◌∙◌, refl, false, Option, some, ltb, arith, ap, subst,
  if◌then◌else◌,
}
use otc_rds_operator.Rds.{Rds}
use otc_rds_operator.Cloud.{Env}
use otc_rds_operator.Exec.{State, Outcome, fail}
use otc_rds_operator.Controller.Queue.{WorkQueue, IsLawful, IsCounting, Event, EventType}
use otc_rds_operator.Controller.Handlers.{on_add, on_delete, on_update}
use otc_rds_operator.Controller.Worker.{
  max_retries, settle_event, process_event, process_item, process_next_item,
}
use otc_rds_operator.Controller.Steps.{turn}
use otc_rds_operator.Controller.Policy.{
  policy, item_self, item_other, enqueue-num_requeues, on_update-num_requeues,
}

module _ (Q : WorkQueue) (E : Env) (fuel : ℕ) (w : String) where
  -- The next turn is on that event, and its processing fails.
  pub record FailsNext (e : Event) (p : State E × Q.Queue) : Type 0 where
    pub rest : Q.Queue
    pub taken : Q.get p.1 ≡ some (e, rest)
    pub text : String
    pub failure : (process_event E fuel e p.0).0 ≡ fail text

  -- A run in which the processing of the event has failed so often, and never come to anything else,
  -- with turns on other events and calls of the informer in between.
  pub data Failures (e : Event) (start : State E × Q.Queue) : ℕ → State E × Q.Queue → Type 0 where
    none_yet : Failures e start zero start
    failed :
        {k : ℕ} {p : State E × Q.Queue}
        → Failures e start k p
        → FailsNext e p
        → Failures e start (suc k) (turn Q E fuel w p)
    elsewhere :
        {k : ℕ} {p : State E × Q.Queue} (x : Event) (rest : Q.Queue)
        → Failures e start k p
        → Q.get p.1 ≡ some (x, rest)
        → e ≢ x
        → Failures e start k (turn Q E fuel w p)
    added :
        {k : ℕ} {p : State E × Q.Queue} (o : Option Rds)
        → Failures e start k p
        → Failures e start k (on_add Q w o p)
    deleted :
        {k : ℕ} {p : State E × Q.Queue} (o : Option Rds)
        → Failures e start k p
        → Failures e start k (on_delete Q w o p)
    updated :
        {k : ℕ} {p : State E × Q.Queue} (old new : Option Rds)
        → Failures e start k p
        → Failures e start k (on_update Q w old new p)

  -- What a turn leaves of the queue.
  turn-queue :
      (p : State E × Q.Queue) (e : Event) (rest : Q.Queue)
      → Q.get p.1 ≡ some (e, rest)
      → (turn Q E fuel w p).1
        ≡ Q.mark_done e (settle_event Q E (process_event E fuel e p.0).0 e rest)
  unfolding process_next_item process_item
  turn-queue p e rest g = ap (λ o. (process_item Q E fuel p.0 p.1 o).2) g

  module _ (L : IsLawful Q) (K : IsCounting Q) (e : Event) where
    failed_turn :
        (p : State E × Q.Queue)
        → FailsNext e p
        → Q.num_requeues (turn Q E fuel w p).1 e
          ≡ (if ltb (Q.num_requeues p.1 e) max_retries then Q.num_requeues p.1 e + 1 else 0)
    failed_turn p f =
        ap (λ q. Q.num_requeues q e) (turn-queue p e f.rest f.taken)
        ∙ item_self Q L K E (process_event E fuel e p.0).0 e p.1 f.rest f.taken
        ∙ ap (λ r. policy r (Q.num_requeues p.1 e)) f.failure

    -- So many failures, so often put back.
    Failures-num_requeues :
        (start : State E × Q.Queue) (k : ℕ) (p : State E × Q.Queue)
        → Q.num_requeues start.1 e ≡ 0
        → Failures e start k p
        → k ≤ max_retries
        → Q.num_requeues p.1 e ≡ k
    unfolding on_add on_delete
    Failures-num_requeues start _ _ z none_yet le = z
    Failures-num_requeues start _ _ z (failed {k} {p} before f) le =
        ground (arith, failed_turn p f, Failures-num_requeues start k p z before)
    Failures-num_requeues start _ _ z (elsewhere {k} {p} x rest before g ne) le =
        ap (λ q. Q.num_requeues q e) (turn-queue p x rest g)
        ∙ item_other Q L K E (process_event E fuel x p.0).0 x p.1 rest g e ne
        ∙ Failures-num_requeues start k p z before le
    Failures-num_requeues start _ _ z (added {k} {p} o before) le =
        enqueue-num_requeues Q L K E EventType.add_rds w o p.0 p.1 e
        ∙ Failures-num_requeues start k p z before le
    Failures-num_requeues start _ _ z (deleted {k} {p} o before) le =
        enqueue-num_requeues Q L K E EventType.del_rds w o p.0 p.1 e
        ∙ Failures-num_requeues start k p z before le
    Failures-num_requeues start _ _ z (updated {k} {p} old new before) le =
        on_update-num_requeues Q L K E w old new p.0 p.1 e
        ∙ Failures-num_requeues start k p z before le

    settle_event-enough :
        (r : Outcome Unit) (text : String) (q : Q.Queue)
        → r ≡ fail text
        → ltb (Q.num_requeues q e) max_retries ≡ false
        → settle_event Q E r e q ≡ Q.forget e q
    unfolding settle_event
    settle_event-enough r text q f h = rw f (rw h refl)

    -- With a queue that behaves as documented, from an event that has not been put back: once its
    -- processing has failed 300 times, with any turns on other events and any calls of the informer
    -- in between, one more failure lets go of it. Its counter is 0 again, and the turn leaves nothing
    -- in the queue that was not in what Get left of it.
    pub turn-gives_up :
        (start p : State E × Q.Queue)
        → Q.num_requeues start.1 e ≡ 0
        → Failures e start max_retries p
        → (f : FailsNext e p)
        → (Q.num_requeues (turn Q E fuel w p).1 e ≡ 0)
          × ((x : Event) → Q.Holds (turn Q E fuel w p).1 x → Q.Holds f.rest x)
    turn-gives_up start p z before f = (counted, held)
      where
        reached : Q.num_requeues p.1 e ≡ max_retries
        reached = Failures-num_requeues start max_retries p z before (omega arith)

        counted : Q.num_requeues (turn Q E fuel w p).1 e ≡ 0
        counted = failed_turn p f ∙ rw reached refl

        forgets : settle_event Q E (process_event E fuel e p.0).0 e f.rest ≡ Q.forget e f.rest
        forgets =
            settle_event-enough (process_event E fuel e p.0).0 f.text f.rest f.failure
              (rw (L.get-num_requeues p.1 e f.rest f.taken e ∙ reached) refl)

        held : (x : Event) → Q.Holds (turn Q E fuel w p).1 x → Q.Holds f.rest x
        held x h = L.forget-Holds e f.rest x (
            L.mark_done-Holds e (Q.forget e f.rest) x (
              subst (λ q. Q.Holds q x) (turn-queue p e f.rest f.taken ∙ ap (Q.mark_done e) forgets)
                h))
