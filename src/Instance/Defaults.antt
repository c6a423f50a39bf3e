-- ===== src/Instance/Defaults.antt =====
-- pkg/controller/resource.go: the environment that GetProvider leaves.
use otc_rds_operator.Prelude.{
  String, ◌≡◌, inl, inr, ◌==◌, false, Bool-cases, refl, subst, sym, ap, ◌∙◌, eq_iff,
}
use otc_rds_operator.Instance.Provider.{default_env, provider_env}

default_env-keeps :
    (k v : String) (getenv : String → String) (j : String)
    → (getenv j == "") ≡ false
    → default_env k v getenv j ≡ getenv j
unfolding default_env
default_env-keeps k v getenv j set = elim (Bool-cases (j == k)) [
  | inl same ↦
      let at_k : (getenv k == "") ≡ false =
        subst (λ x. (getenv x == "") ≡ false) ((eq_iff j k).0 same) set in
      rw (same, at_k) (ap getenv (sym ((eq_iff j k).0 same)))
  | inr other ↦ rw other refl
]

-- The same on top of defaults that have kept the variable.
onto :
    (k v x : String) (getenv : String → String) (j : String)
    → (x == "") ≡ false
    → getenv j ≡ x
    → default_env k v getenv j ≡ x
onto k v x getenv j set e =
    default_env-keeps k v getenv j (subst (λ y. (y == "") ≡ false) (sym e) set) ∙ e

-- GetProvider keeps every variable of the environment that is set, its own four included.
pub provider_env-keeps :
    (getenv : String → String) (j : String)
    → (getenv j == "") ≡ false
    → provider_env getenv j ≡ getenv j
unfolding provider_env
provider_env-keeps getenv j set =
    let url = default_env "OS_AUTH_URL" "https://iam.eu-de.otc.t-systems.com:443/v3" getenv in
    let version = default_env "OS_IDENTITY_API_VERSION" "3" url in
    let region = default_env "OS_REGION_NAME" "eu-de" version in
    let x = getenv j in
    onto "OS_PROJECT_NAME" "eu-de" x region j set (
      onto "OS_REGION_NAME" "eu-de" x version j set (
        onto "OS_IDENTITY_API_VERSION" "3" x url j set
          (onto "OS_AUTH_URL" "https://iam.eu-de.otc.t-systems.com:443/v3" x getenv j set refl)))
