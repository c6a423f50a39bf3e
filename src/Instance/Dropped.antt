-- ===== src/Instance/Dropped.antt =====
-- pkg/controller/resource.go: the errors of Create and UpdateStatus, where `err` is still that of
-- the last client.
use otc_rds_operator.Prelude.{String, ◌<>◌, ◌≡◌, ◌⊎◌, inl, inr, refl, List, [], ◌∷◌}
use otc_rds_operator.Cloud.{Env, Service, new_client, network_v1, network_v2, rds_v3}
use otc_rds_operator.Exec.{State, fail, wrap_error, perform}
use otc_rds_operator.Exec.Fails.{
  FailsIn, error_of, FailsIn-wrap_error, FailsIn-try_as, FailsIn-ignore_error, FailsIn-bind,
  FailsIn-perform,
}
use otc_rds_operator.Instance.Provider.{get_provider, open_client}
use otc_rds_operator.Instance.Status.{update_status}
use otc_rds_operator.Instance.Create.{create}

-- The error begins with one of the texts.
abbrev pub StartsWith : List String → String → Type 0
StartsWith [] e = ⊥
StartsWith (prefix ∷ prefixes) e = ((rest : String) × (e ≡ prefix <> rest)) ⊎ StartsWith prefixes e

abbrev pub client_errors : List String
client_errors =
    "unable to initialize provider: " ∷ "unable to initialize network v1 client: "
    ∷ "unable to initialize network v2 client: " ∷ "unable to initialize rds client: " ∷ []

abbrev IsClientError : String → Type 0
IsClientError = StartsWith client_errors

module _ (E : Env) where
  provider-FailsIn :
      FailsIn IsClientError (wrap_error "unable to initialize provider: " (get_provider E))
  provider-FailsIn = FailsIn-wrap_error _ (get_provider E) (λ x. inl (x, refl))

  open_client-FailsIn :
      (service : Service) (prefix : String)
      → ((x : String) → IsClientError (prefix <> x))
      → FailsIn IsClientError (open_client E service prefix)
  unfolding open_client
  open_client-FailsIn service prefix h =
      FailsIn-bind (perform E (new_client service)) _ (FailsIn-perform E (new_client service))
        (λ reply. FailsIn-try_as prefix reply h)

  rds_client-FailsIn :
      FailsIn IsClientError (open_client E rds_v3 "unable to initialize rds client: ")
  rds_client-FailsIn = open_client-FailsIn rds_v3 _ (λ x. inr (inr (inr (inl (x, refl)))))

  create-FailsIn : FailsIn IsClientError (create E)
  unfolding create
  create-FailsIn =
      let network1 =
        open_client-FailsIn network_v1 "unable to initialize network v1 client: "
          (λ x. inr (inl (x, refl))) in
      let network2 =
        open_client-FailsIn network_v2 "unable to initialize network v2 client: "
          (λ x. inr (inr (inl (x, refl)))) in
      search
        (
          FailsIn-bind, FailsIn-ignore_error, provider-FailsIn, network1, network2,
          rds_client-FailsIn,
        )
        depth 10

  update_status-FailsIn : FailsIn IsClientError (update_status E)
  unfolding update_status
  update_status-FailsIn =
      search (FailsIn-bind, FailsIn-ignore_error, provider-FailsIn, rds_client-FailsIn) depth 10

  -- Create returns no error but one of the set-up of its clients: whatever error rdsCreate returns,
  -- Create does not return it.
  pub create-StartsWith :
      (s : State E) (e : String) → (create E s).0 ≡ fail e → StartsWith client_errors e
  create-StartsWith s e h = error_of create-FailsIn s e h

  -- UpdateStatus returns no error but one of the set-up of its clients: whatever error
  -- rdsUpdateStatus returns, UpdateStatus does not return it.
  pub update_status-StartsWith :
      (s : State E) (e : String) → (update_status E s).0 ≡ fail e → StartsWith client_errors e
  update_status-StartsWith s e h = error_of update_status-FailsIn s e h
