-- ===== src/Config/Node.antt =====
-- internal/config/config.go: GetConfig, and the name of the node.
use otc_rds_operator.Prelude.{String, ◌<>◌, ◌≡◌, ◌≢◌, ◌↔◌, true, false, eq_iff, arith, refl, ◌⊎◌}
use otc_rds_operator.Cloud.{Reply, ok, failed}
use otc_rds_operator.Config.{EnvReader, Config, get_config}

-- High availability is on, no id is set, and the host has no name.
abbrev pub HasNoNode : EnvReader → Reply String → String → Type 0
HasNoNode R hostname e =
    (R.get_bool "HA_ENABLED" false ≡ true)
    × (R.get "HA_NODE_ID" "" ≡ "")
    × (h : String) × (hostname ≡ failed h)
    × (e ≡ "error getting node id " <> h)

module _ (R : EnvReader) (hostname : Reply String) where
  -- GetConfig fails exactly where high availability is on, no id of the node is set, and the name of
  -- the host cannot be read, and its error is that one.
  pub get_config-fails : (e : String) → (get_config R hostname ≡ failed e) ↔ HasNoNode R hostname e
  unfolding get_config
  get_config-fails e = (fails, λ (on, no_id, h, host, text). rw (on, no_id, host, text) refl)
    where
      fails : get_config R hostname ≡ failed e → HasNoNode R hostname e
      fails h = ground (arith, eq_iff (R.get "HA_NODE_ID" "") "")

  -- A configuration with high availability names the node as the environment does, or, where that is
  -- not set, as the host does; one without names none.
  pub get_config-node :
      (c : Config)
      → get_config R hostname ≡ ok c
      → (c.ha.enabled ≡ true
          × (R.get "HA_NODE_ID" "" ≢ "")
          × (c.ha.node_id ≡ R.get "HA_NODE_ID" ""))
        ⊎ (c.ha.enabled ≡ true × (R.get "HA_NODE_ID" "" ≡ "") × (hostname ≡ ok c.ha.node_id))
        ⊎ (c.ha.enabled ≡ false × c.ha.node_id ≡ "")
  unfolding get_config
  get_config-node c h = ground (arith, eq_iff (R.get "HA_NODE_ID" "") "")
