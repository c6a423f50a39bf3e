-- ===== src/Alarm.antt =====
-- pkg/controller/alarm.go: the alarms and the topic of an instance in autopilot.
pub mod Footprint
pub mod Deleted
pub mod Rules
use otc_rds_operator.Prelude.{
  ℕ, String, Bool, true, Option, none, some, List, [], ◌∷◌, ◌<>◌, ◌==◌, any, contains,
  if◌then◌else◌,
}
use otc_rds_operator.Cloud.{
  Env, Alarm, AlarmOpts, Topic, ces, smn_v2, list_topics, create_topic, list_subscriptions,
  create_subscription, list_alarms, create_alarm, delete_alarm, delete_topic,
}
use otc_rds_operator.Exec.{
  Exec, pure, raise, deref, try_as, check_error, wrap_error, perform, ◌>>=◌, ◌>>◌,
}
use otc_rds_operator.Instance.Provider.{get_provider, open_client}

-- One of the three rules, which differ in their name's suffix and in the metric.
unfoldable pub alarm_opts : String → String → String → String → String → AlarmOpts
alarm_opts ns_rds suffix metric instance_id urn = record {
  name = ns_rds <> suffix;
  description = "RDS Operator Autopilot";
  level = 2;
  metric_namespace = "SYS.RDS";
  metric_name = metric;
  dimension_name = "rds_instance_id";
  dimension_value = instance_id;
  period = 300;
  filter = "average";
  comparison_operator = ">=";
  threshold = 90;
  unit = "";
  count = 3;
  action_type = "notification";
  notification_list = urn ∷ [];
  alarm_enabled = true;
  action_enabled = true;
}

module _ (E : Env) where
  unfoldable pub refuse_existing_alarm : String → List Alarm → Exec E Unit
  refuse_existing_alarm ns_rds alarms =
      if any (λ a. a.name == (ns_rds <> "-disc-util")) alarms
      then raise ("alarmrule exists for " <> ns_rds)
      else pure tt

  unfoldable pub create_rules : String → String → String → Exec E Unit
  unfolding alarm_opts
  create_rules instance_id ns_rds urn = do
    _ ← perform E (create_alarm (alarm_opts ns_rds "-disc-util" "rds039_disk_util" instance_id urn))
    _ ← perform E (create_alarm (alarm_opts ns_rds "-cpu-util" "rds001_cpu_util" instance_id urn))
    _ ← perform E (create_alarm (alarm_opts ns_rds "-mem-util" "rds002_mem_util" instance_id urn))
    pure tt

  -- From the tests on the listed rules on.
  unfoldable pub after_listing :
      String → String → String → Option (List Alarm) → Option String → Exec E Unit
  unfolding refuse_existing_alarm create_rules
  after_listing instance_id ns_rds urn alarm_list e = do
    check_error "ces list alarm failed: " e
    alarms ← deref alarm_list
    refuse_existing_alarm ns_rds alarms
    create_rules instance_id ns_rds urn

  -- What follows the creation of the topic. The test on existing subscriptions only writes to the log.
  unfoldable pub after_topic : String → String → String → Option String → Exec E Unit
  unfolding after_listing
  after_topic instance_id smn_endpoint ns_rds topic = do
    subscriptions ← perform E list_subscriptions
    try_as "error extracting subscription list: " subscriptions
    urn ← deref topic
    _ ← perform E (create_subscription smn_endpoint urn)
    (alarm_list, e) ← perform E list_alarms
    after_listing instance_id ns_rds urn alarm_list e

  -- The test on existing topics only writes to the log.
  unfoldable pub create_alarms : String → String → String → String → Exec E Unit
  unfolding after_topic
  create_alarms instance_id smn_endpoint rds_name namespace = do
    let ns_rds = namespace <> "_" <> rds_name
    wrap_error "unable to initialize provider: " (get_provider E)
    open_client E ces "unable to initialize ces client: "
    open_client E smn_v2 "unable to initialize smn client: "
    topics ← perform E list_topics
    try_as "unable to get topic list: " topics
    (topic, _) ← perform E (create_topic ns_rds)
    after_topic instance_id smn_endpoint ns_rds topic

  -- The loop over the alarm rules.
  unfoldable pub delete_matching : String → List Alarm → Exec E Unit
  delete_matching ns_rds [] = pure tt
  delete_matching ns_rds (a ∷ alarms) =
      let rest = delete_matching ns_rds alarms in
      if contains a.name ns_rds then (do _ ← perform E (delete_alarm a.id); rest) else rest

  -- The loop over the topics.
  unfoldable pub delete_named : String → List Topic → Exec E Unit
  delete_named ns_rds [] = pure tt
  delete_named ns_rds (t ∷ topics) =
      let rest = delete_named ns_rds topics in
      if t.name == ns_rds then (do _ ← perform E (delete_topic t.urn); rest) else rest

  -- The error of ListAlarms is overwritten before anything reads it.
  unfoldable pub delete_alarms : String → String → Exec E Unit
  delete_alarms rds_name namespace = do
    let ns_rds = namespace <> "_" <> rds_name
    wrap_error "unable to initialize provider: " (get_provider E)
    open_client E ces "unable to initialize ces client: "
    open_client E smn_v2 "unable to initialize smn client: "
    (alarm_list, _) ← perform E list_alarms
    alarms ← deref alarm_list
    delete_matching ns_rds alarms
    tl ← perform E list_topics
    topics ← try_as "unable to get topic list: " tl
    delete_named ns_rds topics
