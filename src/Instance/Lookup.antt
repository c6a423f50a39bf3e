-- ===== src/Instance/Lookup.antt =====
-- pkg/controller/resource.go: the look-ups, from secgroupGet to rdsGetByName.
use otc_rds_operator.Prelude.{String, ◌<>◌, Option, List, [], ◌∷◌, first?}
use otc_rds_operator.Cloud.{
  Env, Instance, by_id, by_name, list_secgroups, list_subnets, list_vpcs, list_instances,
}
use otc_rds_operator.Exec.{Exec, pure, raise, try, perform, ◌>>=◌}

-- The first of a list, or the error that there is none.
module _ {E : Env} where
  unfoldable pub first_or : String → List String → Exec E String
  unfolding raise pure
  first_or e [] = raise e
  first_or e (x ∷ xs) = pure x

module _ (E : Env) where
  unfoldable pub secgroup_get : String → Exec E String
  unfolding first_or
  secgroup_get name = do
    pages ← perform E (list_secgroups name)
    n ← try pages
    first_or "no secgroup found" n

  unfoldable pub subnet_get : String → Exec E String
  unfolding first_or
  subnet_get name = do
    listed ← perform E (list_subnets name)
    n ← try listed
    first_or "no subnet found" n

  unfoldable pub vpc_get : String → Exec E String
  unfolding first_or
  vpc_get name = do listed ← perform E (list_vpcs name); n ← try listed; first_or "no vpc found" n

  -- `none` is the nil pointer, which comes with a nil error.
  unfoldable pub rds_get_by_id : String → Exec E (Option Instance)
  rds_get_by_id rds_id = do
    pages ← perform E (list_instances (by_id rds_id))
    extracted ← try pages
    n ← try extracted
    pure (first? n)

  unfoldable pub rds_get_by_name : String → String → Exec E (Option Instance)
  rds_get_by_name rds_name namespace = do
    pages ← perform E (list_instances (by_name (namespace <> "_" <> rds_name)))
    extracted ← try pages
    n ← try extracted
    pure (first? n)
