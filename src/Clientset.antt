-- ===== src/Clientset.antt =====
-- pkg/rds/v1alpha1/apis/clientset/versioned/clientset.go and typed/rds/v1alpha1/rds_client.go: how the
-- clients are made. What client-go makes of a configuration is a parameter.
pub mod Made
use otc_rds_operator.Prelude.{
  ℕ, String, ◌==◌, Bool, true, false, not, ◌&&◌, Option, none, some, List, ltb, if◌then◌else◌,
}
use otc_rds_operator.Prelude.Int.{ℤ, pos, ltb_ℤ}
use otc_rds_operator.Cloud.{Reply, ok, failed}

pub record GroupVersion : Type 0 where
  pub group : String
  pub version : String

-- What the functions read and write of rest.Config. `F` stands for float32, `L` for rate limiters, `S`
-- for serializers.
pub record RestConfig (F L S : Type 0) : Type 0 where
  pub rate_limiter : Option L
  pub qps : F
  pub burst : ℤ
  pub group_version : Option GroupVersion
  pub api_path : String
  pub negotiated_serializer : Option S
  pub user_agent : String

-- `R` stands for the clients of rest, `D` for those of discovery.
pub record Clientset (R D : Type 0) : Type 0 where
  pub mcsps_v1alpha1 : R
  pub discovery_client : D

abbrev pub scheme_group_version : GroupVersion
scheme_group_version = record { group = "otc.mcsps.de"; version = "v1alpha1" }

abbrev pub is_none : {A : Type 0} → Option A → Bool
is_none none = true
is_none (some a) = false

-- What a panic leaves: its value.
pub data OrPanic (A : Type 0) : Type 0 where
  returned : A → OrPanic A
  panicked : String → OrPanic A

unfoldable pub or_die : {A : Type 0} → Reply A → OrPanic A
or_die (ok a) = returned a
or_die (failed e) = panicked e

module _ {F L S : Type 0} (codecs : S) (default_user_agent : String) where
  -- setConfigDefaults, which never fails.
  unfoldable pub set_config_defaults : RestConfig F L S → RestConfig F L S
  set_config_defaults config = record config {
    group_version = some scheme_group_version;
    api_path = "/apis";
    negotiated_serializer = some codecs;
    user_agent = if config.user_agent == "" then default_user_agent else config.user_agent;
  }

module _ {F L S : Type 0} (is_positive : F → Bool) (new_token_bucket : F → ℤ → L) where
  -- The shallow copy with its rate limiter.
  unfoldable pub limited : RestConfig F L S → Reply (RestConfig F L S)
  limited c =
      if not (is_none c.rate_limiter && is_positive c.qps)
      then ok c
      else if not (ltb_ℤ (pos 0) c.burst)
      then failed
          "burst is required to be greater than 0 when RateLimiter is not set and QPS is set to greater than 0"
      else ok (record c { rate_limiter = some (new_token_bucket c.qps c.burst) })

module _ {R D : Type 0} where
  unfoldable pub with_discovery : R → Reply D → Reply (Clientset R D)
  with_discovery client (failed e) = failed e
  with_discovery client (ok d) = ok (record { mcsps_v1alpha1 = client; discovery_client = d })

  unfoldable pub discovery_or_die : R → OrPanic D → OrPanic (Clientset R D)
  discovery_or_die client (panicked e) = panicked e
  discovery_or_die client (returned d) =
      returned (record { mcsps_v1alpha1 = client; discovery_client = d })

module _ {F L S R D : Type 0} (is_positive : F → Bool) (new_token_bucket : F → ℤ → L) (codecs : S)
    (default_user_agent : String) (rest_client_for : RestConfig F L S → Reply R)
    (new_discovery_client : RestConfig F L S → Reply D) where
  -- NewForConfig of rds_client.go; a client holds the client of rest.
  unfoldable pub new_typed : RestConfig F L S → Reply R
  unfolding set_config_defaults
  new_typed c = rest_client_for (set_config_defaults codecs default_user_agent c)

  -- NewForConfigOrDie of rds_client.go
  unfoldable pub new_typed_or_die : RestConfig F L S → OrPanic R
  unfolding new_typed or_die
  new_typed_or_die c = or_die (new_typed c)

  unfoldable pub with_typed : RestConfig F L S → Reply R → Reply (Clientset R D)
  unfolding with_discovery
  with_typed c (failed e) = failed e
  with_typed c (ok client) = with_discovery client (new_discovery_client c)

  unfoldable pub with_limit : Reply (RestConfig F L S) → Reply (Clientset R D)
  unfolding new_typed with_typed
  with_limit (failed e) = failed e
  with_limit (ok c) = with_typed c (new_typed c)

  -- NewForConfig of clientset.go
  unfoldable pub new_for_config : RestConfig F L S → Reply (Clientset R D)
  unfolding limited with_limit
  new_for_config c = with_limit (limited is_positive new_token_bucket c)

  unfoldable pub typed_or_die : RestConfig F L S → OrPanic R → OrPanic (Clientset R D)
  unfolding discovery_or_die or_die
  typed_or_die c (panicked e) = panicked e
  typed_or_die c (returned client) = discovery_or_die client (or_die (new_discovery_client c))

  -- NewForConfigOrDie of clientset.go
  unfoldable pub new_for_config_or_die : RestConfig F L S → OrPanic (Clientset R D)
  unfolding new_typed_or_die typed_or_die
  new_for_config_or_die c = typed_or_die c (new_typed_or_die c)

-- New of clientset.go; `new_discovery` makes the client of discovery of that of rest.
unfoldable pub new_of_client : {R D : Type 0} → (R → D) → R → Clientset R D
new_of_client new_discovery c = record { mcsps_v1alpha1 = c; discovery_client = new_discovery c }
