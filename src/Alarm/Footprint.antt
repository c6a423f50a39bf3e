-- ===== src/Alarm/Footprint.antt =====
-- The calls of the alarm handling of pkg/controller/alarm.go.
use otc_rds_operator.Prelude.{String, ◌<>◌, Option, ◌≢◌, List, [], ◌∷◌}
use otc_rds_operator.Cloud.{Env, Alarm, Topic, create_topic}
use otc_rds_operator.Exec.{State, perform, ◌>>=◌}
use otc_rds_operator.Exec.Keeps.{Keeps, keeps_rules}
use otc_rds_operator.Exec.Stable.{Kind, plain, ruling, alarming, Stable, Keeps-perform}
use otc_rds_operator.Instance.Footprint.{get_provider-Keeps, open_client-Keeps}
use otc_rds_operator.Alarm.{
  refuse_existing_alarm, create_rules, after_listing, after_topic, create_alarms, delete_matching,
  delete_named, delete_alarms,
}

-- CreateAlarm keeps the condition.
abbrev pub KeepsRules : {E : Env} → (State E → Type 0) → Type 0
KeepsRules {E} P =
    (instance_id smn_endpoint rds_name namespace : String)
    → Keeps P (create_alarms E instance_id smn_endpoint rds_name namespace)

module _ {E : Env} {k : Kind} {P : State E → Type 0} (S : Stable k P) (other : plain ≢ k) where
  refuse_existing_alarm-Keeps :
      (ns_rds : String) (alarms : List Alarm) → Keeps P (refuse_existing_alarm E ns_rds alarms)
  unfolding refuse_existing_alarm
  refuse_existing_alarm-Keeps ns_rds alarms = search keeps_rules

  delete_named-Keeps :
      (ns_rds : String) (topics : List Topic) → Keeps P (delete_named E ns_rds topics)
  unfolding delete_named
  delete_named-Keeps ns_rds [] = search keeps_rules
  delete_named-Keeps ns_rds (t ∷ topics) =
      search (keeps_rules, Keeps-perform S, delete_named-Keeps ns_rds topics) depth 8

  -- CreateAlarm, by what it does from the creation of the topic on.
  pub create_alarms-Keeps_of :
      (instance_id smn_endpoint rds_name namespace : String)
      → Keeps P (
          perform E (create_topic (namespace <> "_" <> rds_name)) >>= λ (topic, _).
          after_topic E instance_id smn_endpoint (namespace <> "_" <> rds_name) topic)
      → Keeps P (create_alarms E instance_id smn_endpoint rds_name namespace)
  unfolding create_alarms
  create_alarms-Keeps_of instance_id smn_endpoint rds_name namespace after =
      search
        (keeps_rules, Keeps-perform S, get_provider-Keeps S other, open_client-Keeps S other, after)
        depth 40

  module _ (no_rule : ruling ≢ k) where
    create_rules-Keeps :
        (instance_id ns_rds urn : String) → Keeps P (create_rules E instance_id ns_rds urn)
    unfolding create_rules
    create_rules-Keeps instance_id ns_rds urn = search (keeps_rules, Keeps-perform S) depth 12

    after_listing-Keeps :
        (instance_id ns_rds urn : String) (alarm_list : Option (List Alarm)) (e : Option String)
        → Keeps P (after_listing E instance_id ns_rds urn alarm_list e)
    unfolding after_listing
    after_listing-Keeps instance_id ns_rds urn alarm_list e =
        search (keeps_rules, refuse_existing_alarm-Keeps, create_rules-Keeps) depth 12

    after_topic-Keeps :
        (instance_id smn_endpoint ns_rds : String) (topic : Option String)
        → Keeps P (after_topic E instance_id smn_endpoint ns_rds topic)
    unfolding after_topic
    after_topic-Keeps instance_id smn_endpoint ns_rds topic =
        search (keeps_rules, Keeps-perform S, after_listing-Keeps) depth 16

    pub create_alarms-Keeps : KeepsRules P
    create_alarms-Keeps instance_id smn_endpoint rds_name namespace =
        create_alarms-Keeps_of instance_id smn_endpoint rds_name namespace
          (search (keeps_rules, Keeps-perform S, after_topic-Keeps))

  module _ (no_alarm : alarming ≢ k) where
    delete_matching-Keeps :
        (ns_rds : String) (alarms : List Alarm) → Keeps P (delete_matching E ns_rds alarms)
    unfolding delete_matching
    delete_matching-Keeps ns_rds [] = search keeps_rules
    delete_matching-Keeps ns_rds (a ∷ alarms) =
        search (keeps_rules, Keeps-perform S, delete_matching-Keeps ns_rds alarms)

    pub delete_alarms-Keeps :
        (rds_name namespace : String) → Keeps P (delete_alarms E rds_name namespace)
    unfolding delete_alarms
    delete_alarms-Keeps rds_name namespace =
        search
          (
            keeps_rules,
            Keeps-perform S,
            get_provider-Keeps S other,
            open_client-Keeps S other,
            delete_matching-Keeps,
            delete_named-Keeps,
          )
          depth 30
