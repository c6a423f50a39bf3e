-- ===== src/Smn/Receiver.antt =====
-- pkg/controller/autopilot.go: the handler of SmnReceiver, from the decoded request on.
use otc_rds_operator.Prelude.{String, ◌==◌, not, contains, if◌then◌else◌}
use otc_rds_operator.Prelude.Int.{ℤ, pos, add_int}
use otc_rds_operator.Rds.{Rds}
use otc_rds_operator.Cloud.{
  Env, Reply, ok, failed, http_get, in_cluster_config, new_rds_client, get_rds, update_rds_in,
}
use otc_rds_operator.Exec.{
  Exec, Outcome, done, fail, panic, exit, waiting, pure, crash, gets, modify, deref, perform, ◌>>=◌,
  ◌>>◌,
}
use otc_rds_operator.Flavor.{Uniq, rds_flavor_lookup}
use otc_rds_operator.Smn.{resource_of_topic}

-- The fields of the shared variable `subscriber` that the handler reads.
pub record Subscriber : Type 0 where
  pub subscribe_url : String
  pub signature : String
  pub topic_urn : String
  pub message : String

abbrev pub set_volumesize : ℤ → Rds → Rds
set_volumesize n r = record r { spec = record r.spec { volumesize = n } }

abbrev pub set_flavorref : String → Rds → Rds
set_flavorref x r = record r { spec = record r.spec { flavorref = x } }

abbrev pub caught : {A : Type 0} → Outcome A → Outcome (Reply A)
caught (done a) = done (ok a)
caught (fail e) = done (failed e)
caught (panic e) = panic e
caught (exit e) = exit e
caught waiting = waiting

module _ {E : Env} where
  -- A call whose error is looked at, and does not end the caller.
  unfoldable pub attempt : {A : Type 0} → Exec E A → Exec E (Reply A)
  attempt m s = let (r, t) = m s in (caught r, t)

  -- An error that is only logged, where the next use of the nil pointer beside it panics.
  unfoldable pub or_crash : Reply Unit → Exec E Unit
  or_crash (ok _) = pure tt
  or_crash (failed e) = crash "invalid memory address or nil pointer dereference"

module _ (uniq : Uniq) (E : Env) where
  unfoldable pub fetch : Rds → Exec E Unit
  fetch r s = (done tt, record s { rds = r })

  -- All errors of the updates are only logged.
  unfoldable pub on_disk : String → Exec E Unit
  on_disk namespace = do
    modify (λ r. set_volumesize (add_int r.spec.volumesize (pos 10)) r)
    r ← gets (λ s. s.rds)
    _ ← perform E (update_rds_in namespace r)
    pure tt

  unfoldable pub use_flavor : String → Reply String → Exec E Unit
  use_flavor namespace (failed e) = pure tt
  use_flavor namespace (ok new_flavor) = do
    modify (set_flavorref new_flavor)
    r ← gets (λ s. s.rds)
    _ ← perform E (update_rds_in namespace r)
    pure tt

  unfoldable pub on_load : String → String → Exec E Unit
  unfolding use_flavor
  on_load namespace raisetype = do
    new_flavor ← attempt (rds_flavor_lookup uniq E raisetype)
    use_flavor namespace new_flavor

  unfoldable pub on_message : String → String → Exec E Unit
  unfolding on_disk on_load
  on_message namespace message = do
    if contains message "rds039_disk_util" then on_disk namespace else pure tt
    if contains message "rds001_cpu_util" then on_load namespace "cpu" else pure tt
    if contains message "rds002_mem_util" then on_load namespace "mem" else pure tt

  unfoldable pub on_event : Subscriber → Exec E Unit
  unfolding resource_of_topic or_crash fetch on_message
  on_event subscriber = do
    (namespace, rds_name) ← deref (resource_of_topic subscriber.topic_urn)
    rest_config ← perform E in_cluster_config
    or_crash rest_config
    rdsclientset ← perform E new_rds_client
    or_crash rdsclientset
    (return_rds, _) ← perform E (get_rds namespace rds_name)
    fetch return_rds
    on_message namespace subscriber.message

  -- A POST request, once its body has been decoded into `subscriber`.
  unfoldable pub on_post : Subscriber → Exec E Unit
  unfolding on_event
  on_post subscriber = do
    if not (subscriber.subscribe_url == "")
        then (do _ ← perform E (http_get subscriber.subscribe_url); pure tt)
        else pure tt
    if not (subscriber.signature == "") then on_event subscriber else pure tt
