-- ===== src/Sql/Footprint.antt =====
-- The calls of CreateSqlUser in pkg/controller/sql.go.
use otc_rds_operator.Prelude.{String, ◌≢◌, List, [], ◌∷◌}
use otc_rds_operator.Rds.{User}
use otc_rds_operator.Cloud.{Env}
use otc_rds_operator.Exec.{State}
use otc_rds_operator.Exec.Keeps.{Keeps, keeps_rules}
use otc_rds_operator.Exec.Stable.{Kind, plain, querying, Stable, Keeps-perform}
use otc_rds_operator.Sql.{
  grant_all, create_user, create_users, create_database, create_databases, create_all, create_for,
  create_sql_user,
}

module _ {E : Env} {k : Kind} {P : State E → Type 0} (S : Stable k P) (other : plain ≢ k)
    (no_query : querying ≢ k) where
  grant_all-Keeps : (privileges : List String) → Keeps P (grant_all E privileges)
  unfolding grant_all
  grant_all-Keeps [] = search keeps_rules
  grant_all-Keeps (pr ∷ privileges) =
      search (keeps_rules, Keeps-perform S, grant_all-Keeps privileges) depth 8

  create_users-Keeps : (users : List User) → Keeps P (create_users E users)
  unfolding create_users create_user
  create_users-Keeps [] = search keeps_rules
  create_users-Keeps (su ∷ users) =
      search (keeps_rules, Keeps-perform S, grant_all-Keeps, create_users-Keeps users) depth 20

  create_databases-Keeps : (databases : List String) → Keeps P (create_databases E databases)
  unfolding create_databases create_database
  create_databases-Keeps [] = search keeps_rules
  create_databases-Keeps (ds ∷ databases) =
      search (keeps_rules, Keeps-perform S, create_databases-Keeps databases) depth 20

  pub create_sql_user-Keeps : Keeps P (create_sql_user E)
  unfolding create_sql_user create_for create_all
  create_sql_user-Keeps =
      search (keeps_rules, Keeps-perform S, create_users-Keeps, create_databases-Keeps) depth 20
