-- ===== src/Clientset/Made.antt =====
-- pkg/rds/v1alpha1/apis/clientset/versioned/clientset.go: of what NewForConfig makes the clients.
use otc_rds_operator.Prelude.{
  String, ◌≡◌, ◌⊎◌, refl, ap, inl, inr, Bool, false, ◌&&◌, Bool-cases, arith, subst,
}
use otc_rds_operator.Prelude.Int.{ℤ, pos, ltb_ℤ}
use otc_rds_operator.Cloud.{Reply, ok, failed}
use otc_rds_operator.Clientset.{
  RestConfig, Clientset, is_none, set_config_defaults, new_typed, limited, with_discovery,
  with_typed, with_limit, new_for_config,
}

ok_injective : {A : Type 0} {a b : A} → ok a ≡ ok b → a ≡ b
ok_injective {A} {a} e = ap (λ (r : Reply A). elim r [ ok x ↦ x | failed m ↦ a ]) e

module _ {F L S R D : Type 0} (is_positive : F → Bool) (new_token_bucket : F → ℤ → L) (codecs : S)
    (default_user_agent : String) (rest_client_for : RestConfig F L S → Reply R)
    (new_discovery_client : RestConfig F L S → Reply D) where
  abbrev defaults : RestConfig F L S → RestConfig F L S
  defaults = set_config_defaults codecs default_user_agent

  -- A configuration that has a rate limiter where it needs one, and else is as the given one.
  abbrev pub Limits : RestConfig F L S → RestConfig F L S → Type 0
  Limits c k =
      (k.group_version ≡ c.group_version)
      × (k.api_path ≡ c.api_path)
      × (k.user_agent ≡ c.user_agent)
      × ((is_none k.rate_limiter ≡ false) ⊎ (is_positive k.qps ≡ false))

  limited-Limits :
      (c k : RestConfig F L S) → limited is_positive new_token_bucket c ≡ ok k → Limits c k
  unfolding limited
  limited-Limits c k h = elim (Bool-cases (is_none c.rate_limiter && is_positive c.qps)) [
    | inl both ↦ elim (Bool-cases (ltb_ℤ (pos 0) c.burst)) [
      | inl burst ↦
          subst (Limits c) (ok_injective (rw (both, burst) at h)) (refl, refl, refl, inl refl)
      | inr none_left ↦ absurd (let e = (rw (both, none_left) at h) in ground (arith, e))
    ]
    | inr other ↦
        subst (Limits c) (ok_injective (rw other at h)) (refl, refl, refl, ground (arith, other))
  ]

  -- What the two clients of a clientset have been made of.
  abbrev pub MadeOf : RestConfig F L S → Clientset R D → Type 0
  MadeOf c cs =
      (k : RestConfig F L S) × Limits c k
      × (rest_client_for (defaults k) ≡ ok cs.mcsps_v1alpha1)
      × (new_discovery_client k ≡ ok cs.discovery_client)

  with_discovery-MadeOf :
      (c k : RestConfig F L S) (client : R) (d : Reply D) (cs : Clientset R D)
      → Limits c k
      → rest_client_for (defaults k) ≡ ok client
      → new_discovery_client k ≡ d
      → with_discovery client d ≡ ok cs
      → MadeOf c cs
  unfolding with_discovery
  with_discovery-MadeOf c k client (failed e) cs lim typed disc h = absurd (ground (arith, h))
  with_discovery-MadeOf c k client (ok d) cs lim typed disc h =
      subst (MadeOf c) (ok_injective h) (k, lim, typed, disc)

  with_typed-MadeOf :
      (c k : RestConfig F L S) (r : Reply R) (cs : Clientset R D)
      → Limits c k
      → rest_client_for (defaults k) ≡ r
      → with_typed is_positive new_token_bucket codecs default_user_agent rest_client_for
          new_discovery_client k r
        ≡ ok cs
      → MadeOf c cs
  unfolding with_typed
  with_typed-MadeOf c k (failed e) cs lim typed h = absurd (ground (arith, h))
  with_typed-MadeOf c k (ok client) cs lim typed h =
      with_discovery-MadeOf c k client (new_discovery_client k) cs lim typed refl h

  with_limit-MadeOf :
      (c : RestConfig F L S) (r : Reply (RestConfig F L S)) (cs : Clientset R D)
      → limited is_positive new_token_bucket c ≡ r
      → with_limit is_positive new_token_bucket codecs default_user_agent rest_client_for
          new_discovery_client r
        ≡ ok cs
      → MadeOf c cs
  unfolding with_limit new_typed
  with_limit-MadeOf c (failed e) cs lim h = absurd (ground (arith, h))
  with_limit-MadeOf c (ok k) cs lim h =
      with_typed-MadeOf c k (rest_client_for (defaults k)) cs (limited-Limits c k lim) refl h

  -- Where NewForConfig succeeds, it has made both clients of one configuration, the one of the
  -- resources with the group, the path and the user agent filled in, and the one of discovery with those
  -- of the given configuration; and this configuration has a rate limiter, which both then share, or its
  -- QPS is not positive.
  pub new_for_config-MadeOf :
      (c : RestConfig F L S) (cs : Clientset R D)
      → new_for_config is_positive new_token_bucket codecs default_user_agent rest_client_for
          new_discovery_client c
        ≡ ok cs
      → MadeOf c cs
  unfolding new_for_config
  new_for_config-MadeOf c cs h =
      with_limit-MadeOf c (limited is_positive new_token_bucket c) cs refl h
