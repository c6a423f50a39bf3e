-- ===== src/Controller/Steps.antt =====
-- The running controller: the handlers of the informer and one worker, in any order. Each handler
-- and each turn of the worker is one step.
use otc_rds_operator.Prelude.{ℕ, String, Option}
use otc_rds_operator.Rds.{Rds}
use otc_rds_operator.Cloud.{Env}
use otc_rds_operator.Exec.{State}
use otc_rds_operator.Controller.Queue.{WorkQueue}
use otc_rds_operator.Controller.Handlers.{on_add, on_delete, on_update}
use otc_rds_operator.Controller.Worker.{process_next_item}

module _ (Q : WorkQueue) (E : Env) (fuel : ℕ) (watchnamespaces : String) where
  -- The state that one turn of the worker leaves.
  abbrev pub turn : State E × Q.Queue → State E × Q.Queue
  turn p = let (r, t, q) = process_next_item Q E fuel p in (t, q)

  pub data Step : State E × Q.Queue → State E × Q.Queue → Type 0 where
    added : (o : Option Rds) (p : State E × Q.Queue) → Step p (on_add Q watchnamespaces o p)
    deleted : (o : Option Rds) (p : State E × Q.Queue) → Step p (on_delete Q watchnamespaces o p)
    updated :
        (old new : Option Rds) (p : State E × Q.Queue)
        → Step p (on_update Q watchnamespaces old new p)
    worked : (p : State E × Q.Queue) → Step p (turn p)

  pub data Reach (start : State E × Q.Queue) : State E × Q.Queue → Type 0 where
    here : Reach start start
    next : {p q : State E × Q.Queue} → Reach start p → Step p q → Reach start q

  -- A run keeps what every step keeps.
  pub Reach-keeps :
      (I : State E × Q.Queue → Type 0)
      → ((p q : State E × Q.Queue) → Step p q → I p → I q)
      → {p q : State E × Q.Queue} → Reach p q
      → I p
      → I q
  Reach-keeps I step here h = h
  Reach-keeps I step (next {p} {q} r s) h = step p q s (Reach-keeps I step r h)
