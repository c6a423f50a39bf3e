-- ===== src/Tests/Notifications.antt =====
-- The requests of the notification receiver, at concrete inputs.
use otc_rds_operator.Prelude.{
  split, contains, String, ◌≡◌, ◌⊎◌, ◌≤◌, refl, Option, some, List, [], ◌∷◌,
}
use otc_rds_operator.Cloud.{
  JsonMember, Call, Answer, Env, Request, Json, object, text, listen_and_serve, list_flavors,
  failed,
}
use otc_rds_operator.Exec.{done, exit, ◌>>=◌}
use otc_rds_operator.Smn.Scaling.{OnlyScales}
use otc_rds_operator.Smn.Receiver.{attempt, on_post}
use otc_rds_operator.Flavor.{rds_flavor_lookup}
use otc_rds_operator.Instance.Provider.{get_provider, open_client}
use otc_rds_operator.Smn.Server.{signature_field, no_subscriber, decode, serve, smn_receiver}
use otc_rds_operator.Smn.Shared.{get_field, serve-IsSilent}
use otc_rds_operator.Smn.Listener.{AlwaysFails, listens, smn_receiver-ends, smn_receiver-OnlyScales}
use otc_rds_operator.Tests.Uniq.{sort}
use otc_rds_operator.Tests.World.{full_world, start, reply}

-- A notification that the disk of the resource is full.
abbrev disk_full : List (String × JsonMember)
disk_full =
    ("Signature", text "sig")
    ∷ ("topic_urn", text "urn:smn:eu-de:project:default_db")
    ∷ ("message", text "{\"metric_name\":\"rds039_disk_util\"}")
    ∷ []

abbrev posted : Option Json → Request
posted b = record { method = "POST"; body = b }

abbrev notification : Request
notification = posted (some (object disk_full))

-- An empty object.
abbrev empty_object : Request
empty_object = posted (some (object []))

serve-IsSilent_example :
    serve sort full_world (notification ∷ empty_object ∷ []) (no_subscriber, start full_world tt)
    ≡ serve sort full_world (notification ∷ notification ∷ []) (no_subscriber, start full_world tt)
serve-IsSilent_example =
    serve-IsSilent sort full_world notification empty_object no_subscriber (start full_world tt)
      (refl, refl) (refl, refl) tt

-- The key is not in lower case.
signature_decoded :
    get_field signature_field (decode (some (object disk_full)) no_subscriber) ≡ "sig"
unfolding decode
signature_decoded = refl

-- A world in which the listener serves those two requests and then fails.
unfoldable serving : (c : Call) → Answer c
unfolding reply
serving (listen_and_serve a) = (notification ∷ empty_object ∷ [], some "closed")
serving c = reply [] c

abbrev serving_world : Env
serving_world = record { World = Unit; answer = λ c w. (serving c, w) }

serving_world-AlwaysFails : AlwaysFails serving_world
unfolding serving
serving_world-AlwaysFails w e = cc

smn_receiver-ends_example :
    (((smn_receiver sort serving_world (start serving_world tt)).0 ≡ done tt)
      × (listens (smn_receiver sort serving_world (start serving_world tt)).1.trace ≡ 3))
    ⊎ ((e : String) × ((smn_receiver sort serving_world (start serving_world tt)).0 ≡ exit e)
        × (listens (smn_receiver sort serving_world (start serving_world tt)).1.trace ≤ 3))
smn_receiver-ends_example =
    smn_receiver-ends sort serving_world (start serving_world tt) serving_world-AlwaysFails

smn_receiver-OnlyScales_example :
    OnlyScales (smn_receiver sort serving_world (start serving_world tt)).1.trace
smn_receiver-OnlyScales_example =
    smn_receiver-OnlyScales sort serving_world (start serving_world tt) tt

-- A notification about the load ends the process where the cloud does not list its flavors.
abbrev load_high : Request
load_high = posted (
    some (
      object (
        ("signature", text "sig")
        ∷ ("topic_urn", text "urn:smn:eu-de:project:default_db")
        ∷ ("message", text "{\"metric_name\":\"rds001_cpu_util\"}")
        ∷ [])))

unfoldable without_flavors : (c : Call) → Answer c
unfolding reply
without_flavors (listen_and_serve a) = (load_high ∷ [], some "closed")
without_flavors (list_flavors a b) = failed "503"
without_flavors c = reply [] c

abbrev flavorless_world : Env
flavorless_world = record { World = Unit; answer = λ c w. (without_flavors c, w) }

exits :
    (smn_receiver sort flavorless_world (start flavorless_world tt)).0
    ≡ exit "unable to list flavor: 503"
unfolding smn_receiver without_flavors on_post ◌>>=◌ split contains attempt rds_flavor_lookup
    get_provider open_client
exits = refl
