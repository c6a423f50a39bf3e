-- ===== src/Instance/Status.antt =====
-- pkg/controller/resource.go: rdsUpdateStatus and UpdateStatus.
use otc_rds_operator.Prelude.{
  String, Option, none, some, List, [], ◌∷◌, ◌<>◌, ◌==◌, not, first?, atoi_value, if◌then◌else◌,
}
use otc_rds_operator.Prelude.Int.{to_int32}
use otc_rds_operator.Rds.{Rds, status_eq}
use otc_rds_operator.Cloud.{
  Env, Instance, KubeReply, found, not_found, already_exists, other_error, ServiceMeta,
  KubeEndpoints, KubeService, rds_v3, in_cluster_config, new_rds_client, new_kube_client,
  update_rds, get_service, create_service, create_endpoints, update_endpoints,
}
use otc_rds_operator.Exec.{
  Exec, pure, raise, gets, modify, deref, try_as, check_error, wrap_error, ignore_error, perform,
  ◌>>=◌, ◌>>◌,
}
use otc_rds_operator.Instance.Lookup.{rds_get_by_name}
use otc_rds_operator.Instance.Provider.{get_provider, open_client}

-- Assignments to the fields of the status.
abbrev pub set_id : String → Rds → Rds
set_id id r = record r { status = record r.status { id = id } }

abbrev pub set_ip : String → Rds → Rds
set_ip ip r = record r { status = record r.status { ip = ip } }

abbrev pub set_status : String → Rds → Rds
set_status status r = record r { status = record r.status { status = status } }

abbrev or_unknown : Option String → String
or_unknown none = "0.0.0.0"
or_unknown (some a) = a

-- The address and the state that rdsUpdateStatus takes over from the cloud.
unfoldable pub observed : Instance → Rds → Rds
observed i r =
    let ip = or_unknown (first? i.private_ips) in
    let moved = set_ip ip r in if i.status == "" then moved else set_status i.status moved

abbrev labels : List (String × String)
labels = ("k8s-app", "otc-rds-operatpr") ∷ []

unfoldable pub endpoints_of : Rds → KubeEndpoints
endpoints_of r = record {
  name = r.name;
  namespace = r.namespace;
  labels = labels;
  ip = r.status.ip;
  port = to_int32 (atoi_value r.spec.port);
}

unfoldable pub service_of : Rds → KubeService
service_of r = record {
  name = r.name;
  namespace = r.namespace;
  labels = labels;
  port = to_int32 (atoi_value r.spec.port);
  protocol = "TCP";
  target_port = to_int32 (atoi_value r.spec.port);
  cluster_ip = "None";
  service_type = "ClusterIP";
}

module _ (E : Env) where
  -- The service is created with its endpoints if it is missing.
  unfoldable pub publish : KubeReply ServiceMeta → Exec E Unit
  unfolding endpoints_of service_of
  publish (found _) = pure tt
  publish (not_found _) = do
    r ← gets (λ s. s.rds)
    endpoint ← perform E (create_endpoints (endpoints_of r))
    try_as "error creating endpoint: " endpoint
    service ← perform E (create_service (service_of r))
    try_as "error creating service: " service
  publish (already_exists _) = do
    r ← gets (λ s. s.rds)
    endpoint ← perform E (update_endpoints (endpoints_of r))
    try_as "error updating endpoint: " endpoint
  publish (other_error e) = raise ("error getting service: " <> e)

  -- The two tests on what the Kubernetes API returns for the resource.
  unfoldable pub check_returned : Rds → Rds → Option String → Exec E Unit
  check_returned sent returned e =
      if not (status_eq returned.status sent.status)
      then raise "error update rds, result empty"
      else check_error "error update rds: " e

  unfoldable pub rds_update_status : Exec E Unit
  unfolding observed check_returned publish
  rds_update_status = do
    r ← gets (λ s. s.rds)
    if r.status.id == "" then raise "rdsUpdateStatus failed, Rds.Status.Id is empty" else do
      rest_config ← perform E in_cluster_config
      try_as "error init in-cluster config: " rest_config
      rdsclientset ← perform E new_rds_client
      try_as "error creating rdsclientset: " rdsclientset
      rds_instance ←
          wrap_error "error getting rdsGetByName: " (rds_get_by_name E r.name r.namespace)
      i ← deref rds_instance
      modify (observed i)
      sent ← gets (λ s. s.rds)
      (returned, e) ← perform E (update_rds sent)
      check_returned sent returned e
      k8sclientset ← perform E new_kube_client
      try_as "error creating k8sclientset: " k8sclientset
      service ← perform E (get_service r.namespace r.name)
      publish service

  -- The error of rdsUpdateStatus is dropped: `err` is still that of the last client.
  unfoldable pub update_status : Exec E Unit
  update_status = do
    wrap_error "unable to initialize provider: " (get_provider E)
    open_client E rds_v3 "unable to initialize rds client: "
    ignore_error rds_update_status
