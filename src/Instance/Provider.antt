-- ===== src/Instance/Provider.antt =====
-- pkg/controller/resource.go: GetProvider, and the service clients that every operation opens.
use otc_rds_operator.Prelude.{String, ◌==◌, if◌then◌else◌}
use otc_rds_operator.Cloud.{Env, Service, auth_options, authenticate, new_client}
use otc_rds_operator.Exec.{Exec, done, try_as, gets, perform, ◌>>=◌, ◌>>◌}

-- `if os.Getenv(k) == "" { os.Setenv(k, v) }`.
unfoldable pub default_env : String → String → (String → String) → String → String
default_env k v getenv j = if j == k then (if getenv k == "" then v else getenv k) else getenv j

unfoldable pub provider_env : (String → String) → String → String
unfolding default_env
provider_env getenv = default_env "OS_PROJECT_NAME" "eu-de" (
    default_env "OS_REGION_NAME" "eu-de" (
      default_env "OS_IDENTITY_API_VERSION" "3"
        (default_env "OS_AUTH_URL" "https://iam.eu-de.otc.t-systems.com:443/v3" getenv)))

module _ (E : Env) where
  unfoldable pub set_provider_env : Exec E Unit
  unfolding provider_env
  set_provider_env s = (done tt, record s { getenv = provider_env s.getenv })

  -- The debugging transport that OS_DEBUG adds to the client changes no result.
  unfoldable pub get_provider : Exec E Unit
  unfolding set_provider_env
  get_provider = do
    set_provider_env
    getenv ← gets (λ s. s.getenv)
    auth ← perform E (auth_options getenv)
    opts ← try_as "error getting auth from env: " auth
    provider ← perform E (authenticate opts)
    try_as "unable to initialize openstack client: " provider

  -- `openstack.New…(provider, …)` with the error that its caller makes.
  unfoldable pub open_client : Service → String → Exec E Unit
  open_client service e = do client ← perform E (new_client service); try_as e client
