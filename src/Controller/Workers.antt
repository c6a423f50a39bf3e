-- ===== src/Controller/Workers.antt =====
-- pkg/controller/controller.go, Run: several workers on one queue. A worker takes an event by Get in
-- one step, and processes and settles it in another, between which the handlers and the other workers
-- do theirs.
pub mod Apart
pub mod Exclusive
pub mod Frame
pub mod Unchanged
pub mod Retries
pub mod Watched
use otc_rds_operator.Prelude.{
  ℕ, ◌<◌, ◌≡◌, ◌≢◌, ◌⊎◌, inl, inr, Bool-cases, arith, String, Option, none, some, nat_eq,
  if◌then◌else◌,
}
use otc_rds_operator.Rds.{Rds}
use otc_rds_operator.Cloud.{Env}
use otc_rds_operator.Exec.{State}
use otc_rds_operator.Controller.Queue.{WorkQueue, Event}
use otc_rds_operator.Controller.Handlers.{on_add, on_delete, on_update}
use otc_rds_operator.Controller.Worker.{process_item}

-- What the goroutines share, and the event that each worker has taken and not settled.
pub record Pool (Q : WorkQueue) (E : Env) : Type 0 where
  pub shared : State E × Q.Queue
  pub holding : ℕ → Option Event

abbrev pub put : ℕ → Option Event → (ℕ → Option Event) → ℕ → Option Event
put i o holding j = if nat_eq j i then o else holding j

-- Who holds an event after `put`.
pub put-cases :
    (i : ℕ) (o : Option Event) (holding : ℕ → Option Event) (j : ℕ) (x : Event)
    → put i o holding j ≡ some x
    → ((j ≡ i) × (o ≡ some x)) ⊎ ((j ≢ i) × (holding j ≡ some x))
put-cases i o holding j x h = elim (Bool-cases (nat_eq j i)) [
  | inl same ↦ inl (ground arith, rw same at h)
  | inr other ↦ inr (λ e. ground arith, rw other at h)
]

module _ (Q : WorkQueue) (E : Env) (fuel : ℕ) (watchnamespaces : String) (num_workers : ℕ) where
  -- What processNextItem does after Get.
  abbrev pub settled_at : ℕ → Event → Pool Q E → Pool Q E
  settled_at i e p =
      let (r, t, q) = process_item Q E fuel p.shared.0 p.shared.1 (some (e, p.shared.1)) in
      record { shared = (t, q); holding = put i none p.holding }

  abbrev pub taken_at : ℕ → Event → Q.Queue → Pool Q E → Pool Q E
  taken_at i e rest p = record { shared = (p.shared.0, rest); holding = put i (some e) p.holding }

  pub data Move : Pool Q E → Pool Q E → Type 0 where
    added :
        (o : Option Rds) (p : Pool Q E)
        → Move p (record p { shared = on_add Q watchnamespaces o p.shared })
    deleted :
        (o : Option Rds) (p : Pool Q E)
        → Move p (record p { shared = on_delete Q watchnamespaces o p.shared })
    updated :
        (old new : Option Rds) (p : Pool Q E)
        → Move p (record p { shared = on_update Q watchnamespaces old new p.shared })
    takes :
        (i : ℕ) (e : Event) (rest : Q.Queue) (p : Pool Q E)
        → i < num_workers
        → p.holding i ≡ none
        → Q.get p.shared.1 ≡ some (e, rest)
        → Move p (taken_at i e rest p)
    settles : (i : ℕ) (e : Event) (p : Pool Q E) → p.holding i ≡ some e → Move p (settled_at i e p)

  pub data Runs (start : Pool Q E) : Pool Q E → Type 0 where
    here : Runs start start
    next : {p q : Pool Q E} → Runs start p → Move p q → Runs start q

  -- A run keeps what every move keeps.
  pub Runs-keeps :
      (I : Pool Q E → Type 0)
      → ((p q : Pool Q E) → Move p q → I p → I q)
      → {p q : Pool Q E} → Runs p q
      → I p
      → I q
  Runs-keeps I step here h = h
  Runs-keeps I step (next {p} {q} r m) h = step p q m (Runs-keeps I step r h)
