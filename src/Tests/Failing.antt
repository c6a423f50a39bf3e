-- ===== src/Tests/Failing.antt =====
-- An event whose processing always fails: the cloud refuses the operator's credentials.
use otc_rds_operator.Prelude.{
  ℕ, zero, suc, ◌+◌, ◌≤◌, ◌<◌, String, ◌≡◌, ◌∙◌, refl, ap, Bool, true, none, some, [], ◌∷◌, ltb,
  arith, if◌then◌else◌,
}
use otc_rds_operator.Exec.{State, fail, ◌>>=◌}
use otc_rds_operator.Instance.Provider.{get_provider, open_client}
use otc_rds_operator.Instance.Create.{create}
use otc_rds_operator.Controller.Queue.{Event, EventType}
use otc_rds_operator.Controller.Worker.{
  max_retries, settle_event, process_event, process_item, process_next_item,
}
use otc_rds_operator.Controller.Steps.{turn, Reach, here, next, worked}
use otc_rds_operator.Controller.Policy.{log, Follows, Reach-Follows}
use otc_rds_operator.Controller.GivesUp.{FailsNext, Failures, none_yet, failed, turn-gives_up}
use otc_rds_operator.Tests.Queue.{Waiting, fifo, fifo-IsLawful, fifo-IsCounting}
use otc_rds_operator.Tests.World.{locked_world, start, reply, refuse}

abbrev addition : Event
addition = record { event_type = EventType.add_rds; old_obj = none; new_obj = some 0 }

abbrev Turn : Type 0
Turn = State locked_world × fifo.Queue

abbrev begin : Turn
begin = (start locked_world tt, record { events = addition ∷ []; failures = λ e. 0 })

abbrev message : String
message = "unable to initialize provider: unable to initialize openstack client: 401"

refused : (s : State locked_world) → (process_event locked_world 3 addition s).0 ≡ fail message
unfolding process_event create ◌>>=◌ get_provider refuse reply open_client
refused s = refl

-- The event is the only one in the queue, and has been put back so often.
abbrev Alone : ℕ → Turn → Type 0
Alone k p = (p.1.events ≡ addition ∷ []) × (p.1.failures addition ≡ k)

abbrev emptied : Turn → fifo.Queue
emptied p = record p.1 { events = [] }

fails_next : (k : ℕ) (p : Turn) → Alone k p → FailsNext fifo locked_world 3 "default" addition p
fails_next k p h = record {
  rest = emptied p;
  taken = rw h.0 refl;
  text = message;
  failure = refused p.0;
}

put_back :
    (k : ℕ) (p : Turn)
    → k < max_retries
    → Alone k p
    → (turn fifo locked_world 3 "default" p).1 ≡ fifo.add_rate_limited addition (emptied p)
unfolding process_next_item process_item settle_event fails_next
put_back k p less h =
    ap (λ o. (process_item fifo locked_world 3 p.0 p.1 o).2) (fails_next k p h).taken
    ∙ ap (λ r. settle_event fifo locked_world r addition (emptied p)) (refused p.0)
    ∙ ap
        (λ (b : Bool).
          if b
          then fifo.add_rate_limited addition (emptied p)
          else fifo.forget addition (emptied p))
        (below (p.1.failures addition) k h.1 less)
  where
    below : (n k : ℕ) → n ≡ k → k < max_retries → ltb n max_retries ≡ true
    below n k e less = ground arith

after_turn :
    (k : ℕ) (p : Turn)
    → k < max_retries
    → Alone k p
    → Alone (suc k) (turn fifo locked_world 3 "default" p)
after_turn k p less h = (
  ap (λ (q : Waiting). q.events) (put_back k p less h),
  ap (λ (q : Waiting). q.failures addition) (put_back k p less h)
      ∙ fifo-IsCounting.retry_self addition (emptied p)
      ∙ one_more (p.1.failures addition) k h.1,
)
  where
    one_more : (n k : ℕ) → n ≡ k → n + 1 ≡ suc k
    one_more n k e = omega (arith, e)

-- The event has failed so often.
failing :
    (k : ℕ)
    → k ≤ max_retries
    → (p : Turn) × Failures fifo locked_world 3 "default" addition begin k p × Alone k p
failing zero le = (begin, none_yet, (refl, refl))
failing (suc k) le =
    let (p, before, alone) = failing k (omega arith) in
    (
      turn fifo locked_world 3 "default" p,
      failed before (fails_next k p alone),
      after_turn k p (omega arith) alone,
    )

last_try :
    (p : Turn) × Failures fifo locked_world 3 "default" addition begin max_retries p
    × Alone max_retries p
last_try = failing max_retries (omega arith)

turn-gives_up_example :
    (fifo.num_requeues (turn fifo locked_world 3 "default" last_try.0).1 addition ≡ 0)
    × ((x : Event)
        → fifo.Holds (turn fifo locked_world 3 "default" last_try.0).1 x
        → fifo.Holds (emptied last_try.0) x)
unfolding fails_next
turn-gives_up_example =
    turn-gives_up fifo locked_world 3 "default" fifo-IsLawful fifo-IsCounting addition begin
      last_try.0 refl last_try.1 (fails_next max_retries last_try.0 last_try.2)

abbrev one_turn :
    Reach fifo locked_world 3 "default" begin (turn fifo locked_world 3 "default" begin)
one_turn = next here (worked begin)

Reach-Follows_example :
    Follows
      (log fifo locked_world 3 one_turn)
      (fifo.num_requeues begin.1)
      (fifo.num_requeues (turn fifo locked_world 3 "default" begin).1)
Reach-Follows_example =
    Reach-Follows fifo fifo-IsLawful fifo-IsCounting locked_world 3 "default" begin
      (turn fifo locked_world 3 "default" begin) one_turn
