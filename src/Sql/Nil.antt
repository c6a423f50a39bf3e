-- ===== src/Sql/Nil.antt =====
-- pkg/controller/sql.go: CreateSqlUser on a resource without users.
use otc_rds_operator.Prelude.{◌≡◌, ◌≢◌, none, arith}
use otc_rds_operator.Cloud.{Env}
use otc_rds_operator.Exec.{State, done, finally, ◌>>=◌}
use otc_rds_operator.Sql.{create_all, create_for, create_sql_user}

module _ (E : Env) where
  -- On a resource whose pointer to the users is nil CreateSqlUser never succeeds: it returns an error
  -- or panics, whatever databases the resource lists.
  pub create_sql_user-not_done :
      (s : State E) → s.rds.spec.users ≡ none → (create_sql_user E s).0 ≢ done tt
  unfolding create_sql_user create_for create_all finally ◌>>=◌
  create_sql_user-not_done s h = ground arith
