-- ===== src/Smn/Footprint.antt =====
-- pkg/controller/autopilot.go: the calls of the handler of SmnReceiver.
use otc_rds_operator.Prelude.{String, ◌≢◌, refl, Option, none, some, List}
use otc_rds_operator.Prelude.Int.{ℤ, pos, add_int}
use otc_rds_operator.Rds.{Rds, RdsSpec}
use otc_rds_operator.Cloud.{Env, Reply, ok, failed, Flavor, get_rds, update_rds_in}
use otc_rds_operator.Exec.{State, Exec, perform}
use otc_rds_operator.Exec.Keeps.{Keeps, keeps, kept, keeps_rules}
use otc_rds_operator.Exec.Stable.{
  Kind, plain, scaling, Stable, Keeps-perform, Keeps-modify, KeepsName,
}
use otc_rds_operator.Instance.Footprint.{get_provider-Keeps, open_client-Keeps}
use otc_rds_operator.Flavor.{Uniq, answered, found, choose, rds_flavor_lookup}
use otc_rds_operator.Smn.Receiver.{
  Subscriber, set_volumesize, set_flavorref, attempt, or_crash, fetch, on_disk, use_flavor, on_load,
  on_message, on_event, on_post,
}

set_volumesize-KeepsName : (n : ℤ) → KeepsName (set_volumesize n)
set_volumesize-KeepsName n = record { name = λ r. refl; namespace = λ r. refl }

set_flavorref-KeepsName : (x : String) → KeepsName (set_flavorref x)
set_flavorref-KeepsName x = record { name = λ r. refl; namespace = λ r. refl }

enlarged-KeepsName : KeepsName (λ r. set_volumesize (add_int r.spec.volumesize (pos 10)) r)
enlarged-KeepsName = record { name = λ r. refl; namespace = λ r. refl }

-- A condition that no resource matters to.
module _ (uniq : Uniq) {E : Env} {k : Kind} {P : State E → Type 0} (S : Stable k P)
    (fetched : (r : Rds) (s : State E) → P s → P (record s { rds = r })) (other : plain ≢ k)
    (no_scale : scaling ≢ k) where
  found-Keeps : (o : Option String) → Keeps P (found {E = E} o)
  found-Keeps none = search keeps_rules
  found-Keeps (some x) = search keeps_rules

  answered-Keeps :
      (spec : RdsSpec) (raisetype : String) (pages : Reply (Reply (List Flavor)))
      → Keeps P (answered uniq E spec raisetype pages)
  unfolding answered
  answered-Keeps spec raisetype (failed e) = search keeps_rules
  answered-Keeps spec raisetype (ok (failed e)) = search keeps_rules
  answered-Keeps spec raisetype (ok (ok flavors)) = found-Keeps (choose uniq spec raisetype flavors)

  rds_flavor_lookup-Keeps : (raisetype : String) → Keeps P (rds_flavor_lookup uniq E raisetype)
  unfolding rds_flavor_lookup
  rds_flavor_lookup-Keeps raisetype =
      search
        (
          keeps_rules,
          Keeps-perform S,
          get_provider-Keeps S other,
          open_client-Keeps S other,
          answered-Keeps,
        )
        depth 20

  fetch-Keeps : (r : Rds) → Keeps P (fetch uniq E r)
  unfolding fetch
  fetch-Keeps r = keeps (fetched r)

  or_crash-Keeps : (r : Reply Unit) → Keeps P (or_crash {E = E} r)
  unfolding or_crash
  or_crash-Keeps (ok a) = search keeps_rules
  or_crash-Keeps (failed e) = search keeps_rules

  write-Keeps : (namespace : String) (r : Rds) → Keeps P (perform E (update_rds_in namespace r))
  write-Keeps namespace r = Keeps-perform S (update_rds_in namespace r) no_scale

  read-Keeps : (namespace name : String) → Keeps P (perform E (get_rds namespace name))
  read-Keeps namespace name = Keeps-perform S (get_rds namespace name) no_scale

  on_disk-Keeps : (namespace : String) → Keeps P (on_disk uniq E namespace)
  unfolding on_disk
  on_disk-Keeps namespace =
      search (keeps_rules, Keeps-modify S, enlarged-KeepsName, write-Keeps) depth 12

  use_flavor-Keeps :
      (namespace : String) (o : Reply String) → Keeps P (use_flavor uniq E namespace o)
  unfolding use_flavor
  use_flavor-Keeps namespace (failed e) = search keeps_rules
  use_flavor-Keeps namespace (ok x) =
      search (keeps_rules, Keeps-modify S, set_flavorref-KeepsName, write-Keeps) depth 12

  Keeps-attempt : {A : Type 0} (m : Exec E A) → Keeps P m → Keeps P (attempt m)
  unfolding attempt
  Keeps-attempt m k = keeps (kept k)

  on_message-Keeps : (namespace message : String) → Keeps P (on_message uniq E namespace message)
  unfolding on_message on_load
  on_message-Keeps namespace message =
      search (keeps_rules, on_disk-Keeps, Keeps-attempt, rds_flavor_lookup-Keeps, use_flavor-Keeps)
        depth 20

  on_event-Keeps : (subscriber : Subscriber) → Keeps P (on_event uniq E subscriber)
  unfolding on_event
  on_event-Keeps subscriber =
      search
        (
          keeps_rules,
          Keeps-perform S,
          other,
          or_crash-Keeps,
          read-Keeps,
          fetch-Keeps,
          on_message-Keeps,
        )
        depth 24

  pub on_post-Keeps : (subscriber : Subscriber) → Keeps P (on_post uniq E subscriber)
  unfolding on_post
  on_post-Keeps subscriber = search (keeps_rules, Keeps-perform S, other, on_event-Keeps) depth 20
