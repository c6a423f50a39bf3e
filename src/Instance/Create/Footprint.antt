-- ===== src/Instance/Create/Footprint.antt =====
-- pkg/controller/resource.go: the calls of rdsCreate and Create.
use otc_rds_operator.Prelude.{String, refl, ◌≢◌, Option, none, some}
use otc_rds_operator.Rds.{Rds}
use otc_rds_operator.Cloud.{CreateOpts, create_instance, Env, Instance, ApiResult}
use otc_rds_operator.Exec.{perform, State}
use otc_rds_operator.Exec.Keeps.{Keeps, keeps_rules}
use otc_rds_operator.Exec.Stable.{
  Kind, plain, creating, Stable, KeepsName, Keeps-perform, Keeps-modify,
}
use otc_rds_operator.Instance.Footprint.{
  set_id-KeepsName, set_ip-KeepsName, set_status-KeepsName, secgroup_get-Keeps, subnet_get-Keeps,
  vpc_get-Keeps, rds_get_by_id-Keeps, rds_get_by_name-Keeps, get_provider-Keeps, open_client-Keeps,
  update_status-Keeps,
}
use otc_rds_operator.Instance.Create.{
  set_created, refuse_existing, after_create, look_up_network, request_create, make_instance,
  rds_create, create,
}

set_created-KeepsName : (id status : String) → KeepsName (set_created id status)
set_created-KeepsName id status = record { name = λ r. refl; namespace = λ r. refl }

module _ {E : Env} {k : Kind} {P : State E → Type 0} (S : Stable k P) (other : plain ≢ k) where
  refuse_existing-Keeps : (r : Rds) (o : Option Instance) → Keeps P (refuse_existing E r o)
  unfolding refuse_existing
  refuse_existing-Keeps r none = search keeps_rules
  refuse_existing-Keeps r (some i) = search keeps_rules

  pub look_up_network-Keeps : (r : Rds) → Keeps P (look_up_network E r)
  unfolding look_up_network
  look_up_network-Keeps r =
      search
        (keeps_rules, secgroup_get-Keeps S other, subnet_get-Keeps S other, vpc_get-Keeps S other)
        depth 12

  pub after_create-Keeps : (result : ApiResult) → Keeps P (after_create E result)
  unfolding after_create
  after_create-Keeps result =
      search
        (
          keeps_rules,
          Keeps-perform S,
          Keeps-modify S,
          set_created-KeepsName,
          set_id-KeepsName,
          set_ip-KeepsName,
          set_status-KeepsName,
          rds_get_by_id-Keeps S other,
          update_status-Keeps S other,
        )
        depth 40

  -- `create` keeps what rdsCreate keeps.
  pub create-Keeps_of : Keeps P (rds_create E) → Keeps P (create E)
  unfolding create
  create-Keeps_of kc =
      search (keeps_rules, get_provider-Keeps S other, open_client-Keeps S other) depth 12

  module _ (no_create : creating ≢ k) where
    perform_create-Keeps : (opts : CreateOpts) → Keeps P (perform E (create_instance opts))
    perform_create-Keeps opts = Keeps-perform S (create_instance opts) no_create

    make_instance-Keeps : (r : Rds) → Keeps P (make_instance E r)
    unfolding make_instance request_create
    make_instance-Keeps r =
        search
          (
            keeps_rules,
            Keeps-perform S,
            look_up_network-Keeps,
            perform_create-Keeps,
            after_create-Keeps,
          )
          depth 12

    rds_create-Keeps : Keeps P (rds_create E)
    unfolding rds_create
    rds_create-Keeps =
        search
          (keeps_rules, rds_get_by_name-Keeps S other, refuse_existing-Keeps, make_instance-Keeps)
          depth 12

    pub create-Keeps : Keeps P (create E)
    create-Keeps = create-Keeps_of rds_create-Keeps
