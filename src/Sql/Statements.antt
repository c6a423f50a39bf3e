-- ===== src/Sql/Statements.antt =====
-- pkg/controller/sql.go: the statements that CreateSqlUser sends.
use otc_rds_operator.Prelude.{String, ◌≡◌, ◌≢◌, ◌⊎◌, inl, inr, refl, List, [], ◌∷◌, true, some}
use mathlib.Core.List.{Mem, mem-cons_self, mem-cons_of_mem}
use otc_rds_operator.Rds.{Rds, User, UsersRef, elements}
use otc_rds_operator.Cloud.{Env, Call, Trace, sql_query, sql_prepare, sql_select}
use otc_rds_operator.Exec.{State, perform, ◌>>=◌}
use otc_rds_operator.Exec.Keeps.{Keeps, keeps, kept, Keeps-when, deref-kept, gets-kept, keeps_rules}
use otc_rds_operator.Exec.Stable.{plain, querying, kind, Stable, Keeps-perform}
use otc_rds_operator.Sql.{
  valid_grant, valid_schema, create_user_statement, create_database_statement, grant_all,
  create_user, create_users, create_database, create_databases, create_all, create_for,
  create_sql_user,
}

-- The statements that may be sent, and those that may be prepared, with the argument that they are
-- executed with.
pub record Allowed : Type 1 where
  pub Sent : String → Type 0
  pub Selected : String → String → Type 0

abbrev pub user_select : String
user_select = "SELECT user FROM user where user = ?"

abbrev pub schema_select : String
schema_select = "SELECT schema_name FROM information_schema.schemata WHERE schema_name= ?"

-- Only the two look-ups are prepared.
abbrev MayQuery : Allowed → Call → Type 0
MayQuery A (sql_query q) = A.Sent q
MayQuery A (sql_prepare q) = (q ≡ user_select) ⊎ (q ≡ schema_select)
MayQuery A (sql_select q x) = A.Selected q x
MayQuery A _ = Unit

-- All statements in the trace are allowed ones.
abbrev pub OnlyQueries : Allowed → Trace → Type 0
OnlyQueries A [] = Unit
OnlyQueries A (e ∷ t) = MayQuery A e.call × OnlyQueries A t

may_query : (A : Allowed) (c : Call) → kind c ≢ querying → MayQuery A c
may_query A (sql_query q) other = absurd (other refl)
may_query A (sql_prepare q) other = absurd (other refl)
may_query A (sql_select q x) other = absurd (other refl)
may_query A _ other = tt

-- What the resource lists: its users, their privileges of the form of a grant, and its databases
-- with names of letters and digits.
pub data IsListed (r : Rds) (q : String) : Type 0 where
  user :
      (u : UsersRef) (su : User)
      → r.spec.users ≡ some u
      → Mem su (elements u.users)
      → q ≡ create_user_statement su
      → IsListed r q
  grant :
      (u : UsersRef) (su : User)
      → r.spec.users ≡ some u
      → Mem su (elements u.users)
      → Mem q (elements su.privileges)
      → valid_grant q ≡ true
      → IsListed r q
  flush : q ≡ "FLUSH PRIVILEGES" → IsListed r q
  database :
      (ds : String)
      → Mem ds (elements r.spec.databases)
      → valid_schema ds ≡ true
      → q ≡ create_database_statement ds
      → IsListed r q

-- The look-up of a listed user, or of a listed database with a valid name.
pub data IsLookedUp (r : Rds) (q x : String) : Type 0 where
  by_user :
      (u : UsersRef) (su : User)
      → r.spec.users ≡ some u
      → Mem su (elements u.users)
      → q ≡ user_select
      → x ≡ su.name
      → IsLookedUp r q x
  by_schema :
      Mem x (elements r.spec.databases)
      → valid_schema x ≡ true
      → q ≡ schema_select
      → IsLookedUp r q x

abbrev pub allowed_by : Rds → Allowed
allowed_by r = record { Sent = IsListed r; Selected = IsLookedUp r }

module _ (E : Env) (A : Allowed) where
  abbrev IsSafe : State E → Type 0
  IsSafe s = OnlyQueries A s.trace

  IsSafe-Stable : Stable querying IsSafe
  IsSafe-Stable = record {
    calls = λ c other a w s h. (may_query A c other, h);
    env = λ g p s h. h;
    writes = λ f same s h. h;
  }

  other : plain ≢ querying
  other e = cc

  Keeps-query : (q : String) → A.Sent q → Keeps IsSafe (perform E (sql_query q))
  unfolding perform
  Keeps-query q a = keeps (λ s h. (a, h))

  Keeps-prepare_user : Keeps IsSafe (perform E (sql_prepare user_select))
  unfolding perform
  Keeps-prepare_user = keeps (λ s h. (inl refl, h))

  Keeps-prepare_schema : Keeps IsSafe (perform E (sql_prepare schema_select))
  unfolding perform
  Keeps-prepare_schema = keeps (λ s h. (inr refl, h))

  Keeps-select : (q x : String) → A.Selected q x → Keeps IsSafe (perform E (sql_select q x))
  unfolding perform
  Keeps-select q x a = keeps (λ s h. (a, h))

  module _ (flush : A.Sent "FLUSH PRIVILEGES") where
    grant_all-IsSafe :
        (privileges : List String)
        → ((q : String) → Mem q privileges → valid_grant q ≡ true → A.Sent q)
        → Keeps IsSafe (grant_all E privileges)
    unfolding grant_all
    grant_all-IsSafe [] h = search keeps_rules
    grant_all-IsSafe (pr ∷ privileges) h =
        let rest = grant_all-IsSafe privileges (λ q m. h q (mem-cons_of_mem pr m)) in
        Keeps-when (valid_grant pr) _ _
          (λ ok_grant.
            let query = Keeps-query pr (h pr mem-cons_self ok_grant) in
            let after = Keeps-query "FLUSH PRIVILEGES" flush in
            search (keeps_rules, query, after, rest) depth 8)
          rest

    create_user-IsSafe :
        (su : User)
        → A.Selected user_select su.name
        → A.Sent (create_user_statement su)
        → ((q : String) → Mem q (elements su.privileges) → valid_grant q ≡ true → A.Sent q)
        → Keeps IsSafe (create_user E su)
    unfolding create_user
    create_user-IsSafe su selected created h =
        let query = Keeps-query (create_user_statement su) created in
        let grants = grant_all-IsSafe (elements su.privileges) h in
        let select = Keeps-select user_select su.name selected in
        search (keeps_rules, Keeps-prepare_user, select, query, grants) depth 20

    create_users-IsSafe :
        (users : List User)
        → ((su : User) → Mem su users → Keeps IsSafe (create_user E su))
        → Keeps IsSafe (create_users E users)
    unfolding create_users
    create_users-IsSafe [] h = search keeps_rules
    create_users-IsSafe (su ∷ users) h =
        let first = h su mem-cons_self in
        let rest = create_users-IsSafe users (λ u m. h u (mem-cons_of_mem su m)) in
        search (keeps_rules, first, rest) depth 8

  create_database-IsSafe :
      (ds : String)
      → (valid_schema ds ≡ true
          → A.Selected schema_select ds × A.Sent (create_database_statement ds))
      → Keeps IsSafe (create_database E ds)
  unfolding create_database
  create_database-IsSafe ds h =
      Keeps-when (valid_schema ds) _ _
        (λ ok_name.
          let select = Keeps-select schema_select ds (h ok_name).0 in
          let query = Keeps-query (create_database_statement ds) (h ok_name).1 in
          search (keeps_rules, Keeps-prepare_schema, select, query) depth 20)
        (search keeps_rules)

  create_databases-IsSafe :
      (databases : List String)
      → ((ds : String)
          → Mem ds databases
          → valid_schema ds ≡ true
          → A.Selected schema_select ds × A.Sent (create_database_statement ds))
      → Keeps IsSafe (create_databases E databases)
  unfolding create_databases
  create_databases-IsSafe [] h = search keeps_rules
  create_databases-IsSafe (ds ∷ databases) h =
      let first = create_database-IsSafe ds (h ds mem-cons_self) in
      let rest = create_databases-IsSafe databases (λ d m. h d (mem-cons_of_mem ds m)) in
      search (keeps_rules, first, rest) depth 8

module _ (E : Env) where
  create_all-IsSafe : (r : Rds) → Keeps (IsSafe E (allowed_by r)) (create_all E r)
  unfolding create_all
  create_all-IsSafe r =
      keeps λ s h.
        deref-kept (IsSafe E (allowed_by r)) r.spec.users _ s h λ u at. kept (listed u at) s h
    where
      users :
          (u : UsersRef)
          → r.spec.users ≡ some u
          → Keeps (IsSafe E (allowed_by r)) (create_users E (elements u.users))
      users u at = create_users-IsSafe E (allowed_by r) (flush refl) (elements u.users) λ su m.
          create_user-IsSafe E (allowed_by r) (flush refl) su (by_user u su at m refl refl)
            (user u su at m refl) (λ q in_list ok_grant. grant u su at m in_list ok_grant)

      databases : Keeps (IsSafe E (allowed_by r)) (create_databases E (elements r.spec.databases))
      databases =
          create_databases-IsSafe E (allowed_by r) (elements r.spec.databases)
            (λ ds m ok_name. (by_schema m ok_name refl, database ds m ok_name refl))

      listed :
          (u : UsersRef)
          → r.spec.users ≡ some u
          → Keeps (IsSafe E (allowed_by r)) (
              create_users E (elements u.users) >>= λ _.
              create_databases E (elements r.spec.databases))
      listed u at = search (keeps_rules, users u at, databases) depth 4

  create_for-IsSafe : (r : Rds) → Keeps (IsSafe E (allowed_by r)) (create_for E r)
  unfolding create_for
  create_for-IsSafe r =
      search
        (
          keeps_rules,
          Keeps-perform (IsSafe-Stable E (allowed_by r)),
          other E (allowed_by r),
          create_all-IsSafe,
        )
        depth 20

  -- Whatever the database answers: every statement that CreateSqlUser sends is the creation of a
  -- user that the resource lists, one of the privileges of a listed user, if it has the form of a
  -- grant, `FLUSH PRIVILEGES`, or the creation of a listed database whose name has only letters and
  -- digits; it prepares only the two look-ups of a user and of a schema, and executes them only for a
  -- listed user's name and for a listed database of such a name. This is so if it holds of the
  -- statements before.
  pub create_sql_user-OnlyListed :
      (s : State E)
      → OnlyQueries (allowed_by s.rds) s.trace
      → OnlyQueries (allowed_by s.rds) (create_sql_user E s).1.trace
  unfolding create_sql_user
  create_sql_user-OnlyListed s h =
      gets-kept (IsSafe E (allowed_by s.rds)) (λ t. t.rds) (create_for E) s
        (kept (create_for-IsSafe s.rds) s h)
