-- ===== src/Instance/Footprint.antt =====
-- The calls of the operations of pkg/controller/resource.go that every part of it shares.
use otc_rds_operator.Prelude.{String, refl, ◌≢◌, ◌∷◌, [], List, Option, arith}
use otc_rds_operator.Rds.{Rds}
use otc_rds_operator.Cloud.{
  Env, Instance, Service, KubeReply, ServiceMeta, found, not_found, already_exists, other_error,
}
use otc_rds_operator.Exec.{State}
use otc_rds_operator.Exec.Keeps.{Keeps, keeps, keeps_rules}
use otc_rds_operator.Exec.Stable.{Kind, plain, Stable, KeepsName, Keeps-perform, Keeps-modify}
use otc_rds_operator.Instance.Lookup.{
  first_or, secgroup_get, subnet_get, vpc_get, rds_get_by_id, rds_get_by_name,
}
use otc_rds_operator.Instance.Provider.{set_provider_env, get_provider, open_client, provider_env}
use otc_rds_operator.Instance.Status.{
  set_id, set_ip, set_status, observed, publish, check_returned, rds_update_status, update_status,
}

pub set_id-KeepsName : (x : String) → KeepsName (set_id x)
set_id-KeepsName x = record { name = λ r. refl; namespace = λ r. refl }

pub set_ip-KeepsName : (x : String) → KeepsName (set_ip x)
set_ip-KeepsName x = record { name = λ r. refl; namespace = λ r. refl }

pub set_status-KeepsName : (x : String) → KeepsName (set_status x)
set_status-KeepsName x = record { name = λ r. refl; namespace = λ r. refl }

pub observed-KeepsName : (i : Instance) → KeepsName (observed i)
unfolding observed
observed-KeepsName i = record { name = λ r. ground arith; namespace = λ r. ground arith }

module _ {E : Env} {P : State E → Type 0} where
  pub first_or-Keeps : (e : String) (xs : List String) → Keeps P (first_or e xs)
  unfolding first_or
  first_or-Keeps e [] = search keeps_rules
  first_or-Keeps e (x ∷ xs) = search keeps_rules

module _ {E : Env} {k : Kind} {P : State E → Type 0} (S : Stable k P) (other : plain ≢ k) where
  pub secgroup_get-Keeps : (name : String) → Keeps P (secgroup_get E name)
  unfolding secgroup_get
  secgroup_get-Keeps name = search (keeps_rules, Keeps-perform S, first_or-Keeps)

  pub subnet_get-Keeps : (name : String) → Keeps P (subnet_get E name)
  unfolding subnet_get
  subnet_get-Keeps name = search (keeps_rules, Keeps-perform S, first_or-Keeps)

  pub vpc_get-Keeps : (name : String) → Keeps P (vpc_get E name)
  unfolding vpc_get
  vpc_get-Keeps name = search (keeps_rules, Keeps-perform S, first_or-Keeps)

  pub rds_get_by_id-Keeps : (id : String) → Keeps P (rds_get_by_id E id)
  unfolding rds_get_by_id
  rds_get_by_id-Keeps id = search (keeps_rules, Keeps-perform S)

  pub rds_get_by_name-Keeps : (name namespace : String) → Keeps P (rds_get_by_name E name namespace)
  unfolding rds_get_by_name
  rds_get_by_name-Keeps name namespace = search (keeps_rules, Keeps-perform S)

  pub open_client-Keeps : (service : Service) (e : String) → Keeps P (open_client E service e)
  unfolding open_client
  open_client-Keeps service e = search (keeps_rules, Keeps-perform S)

  set_provider_env-Keeps : Keeps P (set_provider_env E)
  unfolding set_provider_env
  set_provider_env-Keeps = keeps (λ s h. S.env (provider_env s.getenv) s.project_id s h)

  pub get_provider-Keeps : Keeps P (get_provider E)
  unfolding get_provider
  get_provider-Keeps = search (keeps_rules, Keeps-perform S, set_provider_env-Keeps) depth 20

  publish-Keeps : (reply : KubeReply ServiceMeta) → Keeps P (publish E reply)
  unfolding publish
  publish-Keeps (found m) = search keeps_rules
  publish-Keeps (not_found e) = search (keeps_rules, Keeps-perform S) depth 9
  publish-Keeps (already_exists e) = search (keeps_rules, Keeps-perform S) depth 9
  publish-Keeps (other_error e) = search keeps_rules

  check_returned-Keeps :
      (sent returned : Rds) (e : Option String) → Keeps P (check_returned E sent returned e)
  unfolding check_returned
  check_returned-Keeps sent returned e = search keeps_rules

  rds_update_status-Keeps : Keeps P (rds_update_status E)
  unfolding rds_update_status
  rds_update_status-Keeps =
      search
        (
          keeps_rules,
          Keeps-perform S,
          Keeps-modify S,
          observed-KeepsName,
          rds_get_by_name-Keeps,
          check_returned-Keeps,
          publish-Keeps,
        )
        depth 40

  pub update_status-Keeps : Keeps P (update_status E)
  unfolding update_status
  update_status-Keeps =
      search (keeps_rules, get_provider-Keeps, open_client-Keeps, rds_update_status-Keeps) depth 20
