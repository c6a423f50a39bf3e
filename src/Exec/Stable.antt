-- ===== src/Exec/Stable.antt =====
-- Conditions on the state, by the kind of call that can break them. Each operation is gone
-- through once, for every such condition; what an operation does with the guarded calls stands
-- beside it.
use otc_rds_operator.Prelude.{String, ◌≡◌, ◌≢◌, ◌∷◌}
use otc_rds_operator.Rds.{Rds}
use otc_rds_operator.Cloud.{
  Call, Answer, Env, create_instance, delete_instance, enlarge_volume, resize_flavor, sql_query,
  sql_prepare, sql_select, create_alarm, delete_alarm, get_rds, update_rds_in, listen_and_serve,
  start_worker,
}
use otc_rds_operator.Exec.{State, modify, perform}
use otc_rds_operator.Exec.Keeps.{Keeps, keeps}

-- The calls that a safety property guards, each in a kind of its own. No call is `unguarded`: that
-- kind is for what no call at all can break.
pub data Kind : Type 0 where
  plain creating deleting enlarging resizing querying ruling alarming scaling listening starting
        unguarded :
      Kind

abbrev pub kind : Call → Kind
kind (create_instance _) = creating
kind (delete_instance _) = deleting
kind (enlarge_volume _ _) = enlarging
kind (resize_flavor _ _) = resizing
kind (sql_query _) = querying
kind (sql_prepare _) = querying
kind (sql_select _ _) = querying
kind (create_alarm _) = ruling
kind (delete_alarm _) = alarming
kind (get_rds _ _) = scaling
kind (update_rds_in _ _) = scaling
kind (listen_and_serve _) = listening
kind start_worker = starting
kind _ = plain

-- A write that leaves the name and the namespace alone.
pub record KeepsName (f : Rds → Rds) : Type 0 where
  pub name : (r : Rds) → (f r).name ≡ r.name
  pub namespace : (r : Rds) → (f r).namespace ≡ r.namespace

-- The state after a call.
abbrev pub called : {E : Env} (c : Call) → Answer c → E.World → State E → State E
called c a w s = record s { world = w; trace = record { call = c; reply = a } ∷ s.trace }

pub record Stable {E : Env} (k : Kind) (P : State E → Type 0) : Type 0 where
  pub calls :
      (c : Call)
      → kind c ≢ k
      → (a : Answer c) (w : E.World) (s : State E) → P s
      → P (called c a w s)
  pub env :
      (g : String → String) (p : String) (s : State E)
      → P s
      → P (record s { getenv = g; project_id = p })
  pub writes : (f : Rds → Rds) → KeepsName f → (s : State E) → P s → P (record s { rds = f s.rds })

module _ {E : Env} {k : Kind} {P : State E → Type 0} (S : Stable k P) where
  pub Keeps-perform : (c : Call) → kind c ≢ k → Keeps P (perform E c)
  unfolding perform
  Keeps-perform c other = keeps (λ s h. let (a, w) = E.answer c s.world in S.calls c other a w s h)

  pub Keeps-modify : (f : Rds → Rds) → KeepsName f → Keeps P (modify f)
  unfolding modify
  Keeps-modify f same = keeps (λ s h. S.writes f same s h)
