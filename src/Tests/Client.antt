-- ===== src/Tests/Client.antt =====
-- The requests of the client, at concrete inputs; the options are texts.
use otc_rds_operator.Prelude.{String, ◌≡◌, refl, true, false, Option, none, some}
use otc_rds_operator.Prelude.Int.{pos, negsuc}
use otc_rds_operator.Rds.{Rds}
use otc_rds_operator.Client.{ListOptions, RestRequest, timeout_of, watch}
use otc_rds_operator.Client.Fake.{Action}
use otc_rds_operator.Client.Agree.{Address, requested, acted}
use otc_rds_operator.Client.Distinct.{Method, to_update, to_list, to_watch, request}
use otc_rds_operator.Tests.World.{rds}

-- A timeout of 300 years is negative.
wrapped : timeout_of (some (pos 9460800000)) ≡ negsuc 8985944073709551615
unfolding timeout_of
wrapped = refl

abbrev namespace : String
namespace = "database"

abbrev update_rds : Method String
update_rds = to_update rds "options"

abbrev plain_options : ListOptions String
plain_options = record { timeout_seconds = none; watch = false; other = "" }

-- A list that asks to watch sends what a watch sends.
list_watches :
    request namespace (to_list (record plain_options { watch = true }))
    ≡ request namespace (to_watch plain_options)
unfolding request
list_watches = refl

-- A server that answers with the object that it is given.
abbrev answers : Address → Option Rds × Option String
answers a = (a.object, a.name)

abbrev asked : RestRequest String → Option Rds × Option String
asked r = answers (requested r)

abbrev acting : Action String → Option Rds × Option String
acting a = answers (acted a)
