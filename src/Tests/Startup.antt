-- ===== src/Tests/Startup.antt =====
-- The configuration and the start of the operator, at concrete inputs.
use otc_rds_operator.Prelude.{String, ◌<>◌, ◌≡◌, ◌⊎◌, refl, true, ◌==◌, if◌then◌else◌}
use otc_rds_operator.Prelude.Int.{pos, negsuc, mul_int}
use otc_rds_operator.Cloud.{ok, failed}
use otc_rds_operator.Exec.{panic}
use otc_rds_operator.Config.{EnvReader, Config, config_of, config_text, get_config}
use otc_rds_operator.Config.Duration.{duration_text}
use otc_rds_operator.Config.Node.{HasNoNode}
use otc_rds_operator.Controller.Start.{run}
use otc_rds_operator.Controller.Started.{Starts, run-Starts}
use otc_rds_operator.Runner.{start}
use otc_rds_operator.Runner.Leading.{IsRefused}
use otc_rds_operator.Main.{main}
use otc_rds_operator.Main.Ended.{Ends, main-Ends}
use otc_rds_operator.Tests.Uniq.{sort}
use otc_rds_operator.Tests.World.{full_world}
use otc_rds_operator.Tests.World

-- Nothing is set.
abbrev unset : EnvReader
unset = record { get = λ k d. d; get_bool = λ k d. d; get_int = λ k d. d; get_duration = λ k d. d }

abbrev with_ha : EnvReader
with_ha = record unset { get_bool = λ k d. if k == "HA_ENABLED" then true else d }

durations :
    (duration_text (pos 15000000000) ≡ "15s")
    × (duration_text (pos 5400000000000) ≡ "1h30m0s")
    × (duration_text (pos 1500000) ≡ "1.5ms")
    × (duration_text (negsuc 1500999999) ≡ "-1.501s")
unfolding duration_text
durations = (refl, refl, refl, refl)

printed :
    config_text (config_of with_ha (ok "") true "node-1")
    ≡ "Config{KubeConfig=''Namespace='default'WatchNamespaces='default'NumWorkers='4'HA='HA{Enabled='true'NodeId='node-1'LeaseLockName='otc-rds-operator'LeaseDuration='15s'RenewDeadline='10s'RetryPeriod='2s'}'Metrics='Metrics{Enabled='true'Path='/metrics'Port='2112'}'Env='local'LogLevel='debugRefreshTime'10'}"
unfolding config_text mul_int
printed = refl

-- The node has no name.
fails : get_config with_ha (failed "no host") ≡ failed "error getting node id no host"
unfolding get_config
fails = refl

abbrev on_node : Config
on_node = config_of with_ha (ok "node-1") true "node-1"

named : get_config with_ha (ok "node-1") ≡ ok on_node
unfolding get_config
named = refl

run-Starts_example :
    Starts sort full_world 0 4 (run sort full_world (pos 4) (World.start full_world tt))
run-Starts_example = run-Starts sort full_world (pos 4) (World.start full_world tt)

main-Ends_example :
    ((c : Config) × (get_config with_ha (ok "node-1") ≡ ok c)
      × Ends
          (IsRefused full_world c)
          (main sort full_world with_ha (ok "node-1") (World.start full_world tt)).0)
    ⊎ ((e : String) × HasNoNode with_ha (ok "node-1") e
        × (main sort full_world with_ha (ok "node-1") (World.start full_world tt)
            ≡ (panic ("error getting config " <> e), World.start full_world tt)))
main-Ends_example = main-Ends sort full_world with_ha (ok "node-1") (World.start full_world tt)
