-- ===== src/Sql.antt =====
-- pkg/controller/sql.go: CreateSqlUser. The deferred closing of the statements is left out.
pub mod Footprint
pub mod Statements
pub mod Grants
pub mod Nil
use otc_rds_operator.Prelude.{
  ℕ, String, Bool, true, false, not, Option, none, some, List, [], ◌∷◌, ◌<>◌, ◌==◌, ◌||◌, nat_eq,
  matches_all, is_alnum, if◌then◌else◌,
}
use otc_rds_operator.Rds.{Rds, RdsSpec, RdsStatus, User, UsersRef, elements}
use otc_rds_operator.Cloud.{Env, sql_open, sql_ping, sql_close, sql_prepare, sql_select, sql_query}
use otc_rds_operator.Exec.{Exec, pure, raise, gets, deref, try_as, finally, perform, ◌>>=◌, ◌>>◌}

-- `[a-zA-Z0-9 '*\._%]`
abbrev pub in_grant : ℕ → Bool
in_grant c =
    is_alnum c
    || nat_eq c b' '
    || nat_eq c 39
    || nat_eq c b'*'
    || nat_eq c b'.'
    || nat_eq c b'_'
    || nat_eq c b'%'

unfoldable pub valid_grant : String → Bool
unfolding matches_all
valid_grant = matches_all in_grant

-- `^[a-zA-Z0-9]*$`
unfoldable pub valid_schema : String → Bool
unfolding matches_all
valid_schema = matches_all is_alnum

unfoldable pub create_user_statement : User → String
create_user_statement su =
    "CREATE USER IF NOT EXISTS '" <> su.name <> "'@'" <> su.host <> "' IDENTIFIED BY '"
    <> su.password <> "'"

unfoldable pub create_database_statement : String → String
create_database_statement ds = "CREATE DATABASE IF NOT EXISTS " <> ds

unfoldable pub data_source : Rds → String
data_source r =
    "root:" <> r.spec.password <> "@tcp(" <> r.status.ip <> ":" <> r.spec.port <> ")/mysql"

abbrev schema_query : String
schema_query = "SELECT schema_name FROM information_schema.schemata WHERE schema_name= ?"

module _ (E : Env) where
  -- Errors of a grant are only logged.
  unfoldable pub grant_all : List String → Exec E Unit
  grant_all [] = pure tt
  grant_all (pr ∷ privileges) =
      let rest = grant_all privileges in
      if valid_grant pr
      then (do _ ← perform E (sql_query pr); _ ← perform E (sql_query "FLUSH PRIVILEGES"); rest)
      else rest

  unfoldable pub create_user : User → Exec E Unit
  unfolding create_user_statement
  create_user su = do
    stmt ← perform E (sql_prepare "SELECT user FROM user where user = ?")
    try_as "error prepare query user: " stmt
    res ← perform E (sql_select "SELECT user FROM user where user = ?" su.name)
    exists ← try_as "error execute query user: " res
    if exists then pure tt else do
      created ← perform E (sql_query (create_user_statement su))
      try_as "error execute creating user: " created
      grant_all (elements su.privileges)

  unfoldable pub create_users : List User → Exec E Unit
  create_users [] = pure tt
  create_users (su ∷ users) = do create_user su; create_users users

  unfoldable pub create_database : String → Exec E Unit
  unfolding create_database_statement
  create_database ds =
      if valid_schema ds
      then (do
        stmt ← perform E (sql_prepare schema_query)
        try_as "error prepare query schema: " stmt
        res ← perform E (sql_select schema_query ds)
        exists ← try_as "error execute query schema: " res
        if exists
            then pure tt
            else do _ ← perform E (sql_query (create_database_statement ds)); pure tt)
      else pure tt

  unfoldable pub create_databases : List String → Exec E Unit
  create_databases [] = pure tt
  create_databases (ds ∷ databases) = do create_database ds; create_databases databases

  -- What runs between the ping and the deferred close.
  unfoldable pub create_all : Rds → Exec E Unit
  create_all r = do
    users ← deref r.spec.users
    create_users (elements users.users)
    create_databases (elements r.spec.databases)

  unfoldable pub create_for : Rds → Exec E Unit
  unfolding data_source
  create_for r =
      if not (r.spec.datastoretype == "MySQL")
      then raise "unsupported database type for user management"
      else (do
        db ← perform E (sql_open (data_source r))
        try_as "error connecting database: " db
        pinged ← perform E sql_ping
        try_as "error connecting database as root: " pinged
        finally (create_all r) (perform E sql_close))

  unfoldable pub create_sql_user : Exec E Unit
  unfolding create_for
  create_sql_user = do r ← gets (λ s. s.rds); create_for r
