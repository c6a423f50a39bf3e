-- ===== src/Controller/Queue.antt =====
-- pkg/controller/event.go, and what the controller uses of client-go's rate limiting work queue.
use otc_rds_operator.Prelude.{ℕ, ◌+◌, ◌≡◌, ◌≢◌, ◌⊎◌, Option, some}

pub data EventType : Type 0 where
  add_rds del_rds update_rds : EventType

-- The objects are pointers to resources: addresses in the heap, `none` for a nil interface.
pub record Event : Type 0 where
  pub event_type : EventType
  pub old_obj : Option ℕ
  pub new_obj : Option ℕ

-- The queue is a library: its operations are a parameter. `get` is what Get returns once it does
-- not block: `none` when the queue is shut down.
pub record WorkQueue : Type 1 where
  pub Queue : Type 0
  pub get : Queue → Option (Event × Queue)
  pub add : Event → Queue → Queue
  pub add_rate_limited : Event → Queue → Queue
  pub forget : Event → Queue → Queue
  pub mark_done : Event → Queue → Queue
  pub num_requeues : Queue → Event → ℕ
  -- the events that a worker may still receive
  pub Holds : Queue → Event → Type 0

-- What its documentation says of it.
pub record IsLawful (Q : WorkQueue) : Type 1 where
  pub add-num_requeues :
      (e : Event) (q : Q.Queue) (x : Event) → Q.num_requeues (Q.add e q) x ≡ Q.num_requeues q x
  pub get-num_requeues :
      (q : Q.Queue) (e : Event) (q' : Q.Queue)
      → Q.get q ≡ some (e, q')
      → (x : Event) → Q.num_requeues q' x ≡ Q.num_requeues q x
  pub mark_done-num_requeues :
      (e : Event) (q : Q.Queue) (x : Event)
      → Q.num_requeues (Q.mark_done e q) x ≡ Q.num_requeues q x
  pub forget-num_requeues :
      (e : Event) (q : Q.Queue) (x : Event)
      → ((x ≡ e) × (Q.num_requeues (Q.forget e q) x ≡ 0))
        ⊎ (Q.num_requeues (Q.forget e q) x ≡ Q.num_requeues q x)
  pub add_rate_limited-num_requeues :
      (e : Event) (q : Q.Queue) (x : Event)
      → ((x ≡ e) × (Q.num_requeues (Q.add_rate_limited e q) x ≡ Q.num_requeues q x + 1))
        ⊎ (Q.num_requeues (Q.add_rate_limited e q) x ≡ Q.num_requeues q x)
  pub get-Holds : (q : Q.Queue) (e : Event) (q' : Q.Queue) → Q.get q ≡ some (e, q') → Q.Holds q e
  pub get-Holds_rest :
      (q : Q.Queue) (e : Event) (q' : Q.Queue)
      → Q.get q ≡ some (e, q')
      → (x : Event) → Q.Holds q' x
      → Q.Holds q x
  pub add-Holds :
      (e : Event) (q : Q.Queue) (x : Event) → Q.Holds (Q.add e q) x → (x ≡ e) ⊎ Q.Holds q x
  pub add_rate_limited-Holds :
      (e : Event) (q : Q.Queue) (x : Event)
      → Q.Holds (Q.add_rate_limited e q) x
      → (x ≡ e) ⊎ Q.Holds q x
  pub forget-Holds : (e : Event) (q : Q.Queue) (x : Event) → Q.Holds (Q.forget e q) x → Q.Holds q x
  pub mark_done-Holds :
      (e : Event) (q : Q.Queue) (x : Event) → Q.Holds (Q.mark_done e q) x → Q.Holds q x

-- What the documentation of the queue's rate limiter says of its counters, exactly.
pub record IsCounting (Q : WorkQueue) : Type 1 where
  pub forget_self : (e : Event) (q : Q.Queue) → Q.num_requeues (Q.forget e q) e ≡ 0
  pub forget_other :
      (e : Event) (q : Q.Queue) (x : Event)
      → x ≢ e
      → Q.num_requeues (Q.forget e q) x ≡ Q.num_requeues q x
  pub retry_self :
      (e : Event) (q : Q.Queue) → Q.num_requeues (Q.add_rate_limited e q) e ≡ Q.num_requeues q e + 1
  pub retry_other :
      (e : Event) (q : Q.Queue) (x : Event)
      → x ≢ e
      → Q.num_requeues (Q.add_rate_limited e q) x ≡ Q.num_requeues q x

-- What it says of the events that have been taken and are not done: "a single item will not be
-- processed multiple times concurrently".
pub record IsExclusive (Q : WorkQueue) : Type 1 where
  pub Busy : Q.Queue → Event → Type 0
  pub get-Busy :
      (q : Q.Queue) (e : Event) (q' : Q.Queue) → Q.get q ≡ some (e, q') → ¬ Busy q e × Busy q' e
  pub get-Busy_kept :
      (q : Q.Queue) (e : Event) (q' : Q.Queue)
      → Q.get q ≡ some (e, q')
      → (x : Event) → Busy q x
      → Busy q' x
  pub add-Busy : (e : Event) (q : Q.Queue) (x : Event) → Busy q x → Busy (Q.add e q) x
  pub add_rate_limited-Busy :
      (e : Event) (q : Q.Queue) (x : Event) → Busy q x → Busy (Q.add_rate_limited e q) x
  pub forget-Busy : (e : Event) (q : Q.Queue) (x : Event) → Busy q x → Busy (Q.forget e q) x
  pub mark_done-Busy :
      (e : Event) (q : Q.Queue) (x : Event) → x ≢ e → Busy q x → Busy (Q.mark_done e q) x
