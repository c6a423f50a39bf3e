-- ===== src/Tests/Concurrent.antt =====
-- Two workers at one queue.
use otc_rds_operator.Prelude.{fields, ℕ, ◌≤◌, ◌≡◌, refl, inr, none, some, [], ◌∷◌, arith}
use otc_rds_operator.Controller.Queue.{Event, EventType}
use otc_rds_operator.Controller.Handlers.{on_add}
use otc_rds_operator.Controller.Workers.{
  Pool, taken_at, settled_at, added, takes, settles, Runs, here, next,
}
use otc_rds_operator.Controller.Worker.{max_retries}
use otc_rds_operator.Controller.Workers.Unchanged.{Runs-heap}
use otc_rds_operator.Controller.Workers.Watched.{IsWatchedPool, Runs-IsWatched}
use otc_rds_operator.Controller.Workers.Retries.{Runs-IsBounded}
use otc_rds_operator.Tests.Guarded.{
  Guarded, guarded, guarded-IsLawful, guarded-IsExclusive, nothing, pick,
}
use otc_rds_operator.Tests.Queue.{event_eq}
use otc_rds_operator.Tests.World.{rds, empty_world, start}

abbrev Workers : Type 0
Workers = Pool guarded empty_world

abbrev idle : Workers
idle = record { shared = (start empty_world tt, nothing); holding = λ i. none }

abbrev addition : ℕ → Event
addition a = record { event_type = EventType.add_rds; old_obj = none; new_obj = some a }

abbrev one_added : Workers
one_added = record idle { shared = on_add guarded "default" (some rds) idle.shared }

abbrev two_added : Workers
two_added = record one_added { shared = on_add guarded "default" (some rds) one_added.shared }

abbrev left_after : Guarded → Guarded
left_after q = record q { events = addition 1 ∷ []; taken = addition 0 ∷ [] }

abbrev both_after : Guarded → Guarded
both_after q = record q { events = []; taken = addition 1 ∷ addition 0 ∷ [] }

abbrev one_taken : Workers
one_taken =
    taken_at guarded empty_world 3 "default" 2 0 (addition 0) (left_after two_added.shared.1)
      two_added

abbrev two_taken : Workers
two_taken =
    taken_at guarded empty_world 3 "default" 2 1 (addition 1) (both_after one_taken.shared.1)
      one_taken

first_get : guarded.get two_added.shared.1 ≡ some (addition 0, left_after two_added.shared.1)
unfolding pick on_add fields
first_get = refl

second_get : guarded.get one_taken.shared.1 ≡ some (addition 1, both_after one_taken.shared.1)
unfolding pick event_eq
second_get = refl

run : Runs guarded empty_world 3 "default" 2 idle two_taken
run =
    next
      (next (next (next here (added (some rds) idle)) (added (some rds) one_added)) (
        takes 0 (addition 0) (left_after two_added.shared.1) two_added (omega arith) refl
          first_get))
      (takes 1 (addition 1) (both_after one_taken.shared.1) one_taken (omega arith) refl second_get)

-- The second worker settles its event, and the first still has its own.
abbrev one_settled : Workers
one_settled = settled_at guarded empty_world 3 "default" 2 1 (addition 1) two_taken

Runs-heap_example : one_settled.shared.0.heap 0 ≡ two_taken.shared.0.heap 0
Runs-heap_example =
    Runs-heap guarded guarded-IsLawful guarded-IsExclusive empty_world 3 "default" 2 idle two_taken
      one_settled (λ x h. h, λ i. refl) run (settles 1 (addition 1) two_taken refl) 0 (addition 0) 0
      refl refl (inr refl)

run_on : Runs guarded empty_world 3 "default" 2 idle one_settled
run_on = next run (settles 1 (addition 1) two_taken refl)

Runs-IsWatched_example : IsWatchedPool guarded guarded-IsLawful empty_world "default" one_settled
Runs-IsWatched_example =
    Runs-IsWatched guarded guarded-IsLawful empty_world "default" 3 2 idle one_settled run_on
      (λ x h. absurd h, λ i x h. absurd (ground arith))

Runs-IsBounded_example : guarded.num_requeues one_settled.shared.1 (addition 1) ≤ max_retries
Runs-IsBounded_example =
    Runs-IsBounded guarded guarded-IsLawful empty_world 3 "default" 2 idle one_settled run_on
      (λ x. omega arith) (addition 1)
