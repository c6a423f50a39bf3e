-- ===== src/Alarm/Rules.antt =====
-- pkg/controller/alarm.go: the rules that CreateAlarm makes.
use otc_rds_operator.Prelude.{
  String, ◌<>◌, ◌==◌, ◌≡◌, ◌≢◌, ◌⊎◌, inl, inr, refl, true, false, Bool-cases, any, contains, Option,
  none, some, List, [], ◌∷◌,
}
use otc_rds_operator.Cloud.{
  Env, Alarm, AlarmOpts, Call, Answer, Trace, list_alarms, create_topic, create_alarm,
}
use otc_rds_operator.Exec.{State, perform, ◌>>=◌}
use otc_rds_operator.Exec.Keeps.{
  Keeps, keeps, kept, keeps_rules, Keeps-deref-some, Keeps-deref-none,
}
use otc_rds_operator.Exec.Stable.{plain, ruling, kind, called, Stable, Keeps-perform}
use otc_rds_operator.Alarm.{
  alarm_opts, refuse_existing_alarm, create_rules, after_listing, after_topic, create_alarms,
}
use otc_rds_operator.Alarm.Deleted.{contains-front}
use otc_rds_operator.Alarm.Footprint.{create_alarms-Keeps_of}

-- The making of a topic of that name, whose answer has that URN. An error that the answer has too is
-- only logged by the program.
abbrev Announces : String → String → (c : Call) → Answer c → Type 0
Announces n urn (create_topic m) (o, _) = (m ≡ n) × (o ≡ some urn)
Announces n urn _ _ = ⊥

-- A list of the rules without a rule on the disk under that name.
abbrev HasNoRule : String → List Alarm → Type 0
HasNoRule n alarms = any (λ a. a.name == (n <> "-disc-util")) alarms ≡ false

abbrev ListsNone : String → (c : Call) → Answer c → Type 0
ListsNone n list_alarms (some alarms, none) = HasNoRule n alarms
ListsNone n _ _ = ⊥

abbrev Announced : String → String → Trace → Type 0
Announced n urn [] = ⊥
Announced n urn (e ∷ t) = Announces n urn e.call e.reply ⊎ Announced n urn t

abbrev Listed : String → Trace → Type 0
Listed n [] = ⊥
Listed n (e ∷ t) = ListsNone n e.call e.reply ⊎ Listed n t

-- `IsOwn n id` says that the topic's name belongs to the instance's id.
module _ (IsOwn : String → String → Type 0) where
  -- The rule is for an instance with a topic, by `IsOwn`: it has the topic's name in its name and notifies
  -- the URN that the making of that topic has answered, and a list had no rule on the disk under that
  -- name.
  abbrev IsRule : AlarmOpts → Trace → Type 0
  IsRule o t =
      (n : String) × (urn : String) × IsOwn n o.dimension_value
      × (contains o.name n ≡ true)
      × (o.notification_list ≡ urn ∷ [])
      × Announced n urn t
      × Listed n t

  abbrev MayFollow : Call → Trace → Type 0
  MayFollow (create_alarm o) t = IsRule o t
  MayFollow _ t = Unit

  -- So do all rules that the trace makes.
  abbrev pub OnlyRules : Trace → Type 0
  OnlyRules [] = Unit
  OnlyRules (e ∷ t) = MayFollow e.call t × OnlyRules t

  may_follow : (c : Call) (t : Trace) → kind c ≢ ruling → MayFollow c t
  may_follow (create_alarm o) t other = absurd (other refl)
  may_follow _ t other = tt

  other : plain ≢ ruling
  other e = cc

  -- The topic has been made, and the trace is good.
  abbrev HasTopic : {E : Env} → String → String → State E → Type 0
  HasTopic n urn s = Announced n urn s.trace × OnlyRules s.trace

  -- And the rules have been listed.
  abbrev IsReady : {E : Env} → String → String → State E → Type 0
  IsReady n urn s = Announced n urn s.trace × Listed n s.trace × OnlyRules s.trace

  module _ (E : Env) where
    pub OnlyRules-Stable : Stable {E = E} ruling (λ s. OnlyRules s.trace)
    OnlyRules-Stable = record {
      calls = λ c o a w s h. (may_follow c s.trace o, h);
      env = λ g p s h. h;
      writes = λ f same s h. h;
    }

    HasTopic-Stable : (n urn : String) → Stable {E = E} ruling (HasTopic n urn)
    HasTopic-Stable n urn = record {
      calls = λ c o a w s h. (inr h.0, (may_follow c s.trace o, h.1));
      env = λ g p s h. h;
      writes = λ f same s h. h;
    }

    create_alarm-IsReady :
        (n urn suffix metric instance_id : String)
        → IsOwn n instance_id
        → Keeps
            (IsReady n urn)
            (perform E (create_alarm (alarm_opts n suffix metric instance_id urn)))
    unfolding perform alarm_opts
    create_alarm-IsReady n urn suffix metric instance_id own =
        keeps
          (λ s (a, l, h). (inr a, inr l, ((n, urn, own, contains-front n suffix, refl, a, l), h)))

    create_rules-IsReady :
        (n urn instance_id : String)
        → IsOwn n instance_id
        → Keeps (IsReady n urn) (create_rules E instance_id n urn)
    unfolding create_rules
    create_rules-IsReady n urn instance_id own =
        search (keeps_rules, create_alarm-IsReady, own) depth 12

    create_rules-HasTopic :
        (n urn instance_id : String) (s : State E)
        → IsOwn n instance_id
        → IsReady n urn s
        → HasTopic n urn (create_rules E instance_id n urn s).1
    create_rules-HasTopic n urn instance_id s own h =
        let (a, l, o) = kept (create_rules-IsReady n urn instance_id own) s h in (a, o)

    -- What the list of the rules establishes.
    abbrev Lists : String → Option (List Alarm) → Option String → State E → Type 0
    Lists n (some alarms) none s = HasNoRule n alarms → Listed n s.trace
    Lists n _ _ s = Unit

    after_listing-HasTopic :
        (n urn instance_id : String) (o : Option (List Alarm)) (e : Option String) (s : State E)
        → IsOwn n instance_id
        → Lists n o e s
        → HasTopic n urn s
        → HasTopic n urn (after_listing E instance_id n urn o e s).1
    unfolding after_listing refuse_existing_alarm ◌>>=◌
    after_listing-HasTopic n urn instance_id o (some e) s own l h = h
    after_listing-HasTopic n urn instance_id none none s own l h = h
    after_listing-HasTopic n urn instance_id (some alarms) none s own l h =
        elim (Bool-cases (any (λ a. a.name == (n <> "-disc-util")) alarms)) [
          | inl exists ↦ rw exists h
          | inr new ↦ rw new (create_rules-HasTopic n urn instance_id s own (h.0, l new, h.1))
        ]

    Lists-none :
        (n : String) (o : Option (List Alarm)) (e : Option String) (w : E.World) (s : State E)
        → Lists n o e (called list_alarms (o, e) w s)
    Lists-none n (some alarms) none w s = inl
    Lists-none n none e w s = tt
    Lists-none n (some alarms) (some x) w s = tt

    list_rules-HasTopic :
        (n urn instance_id : String)
        → IsOwn n instance_id
        → Keeps
            (HasTopic n urn)
            (perform E list_alarms >>= λ (o, e). after_listing E instance_id n urn o e)
    unfolding perform ◌>>=◌
    list_rules-HasTopic n urn instance_id own = keeps (λ s (a, h).
        let ((o, e), w) = E.answer list_alarms s.world in
        after_listing-HasTopic n urn instance_id o e (called list_alarms (o, e) w s) own
          (Lists-none n o e w s) (inr a, (tt, h)))

    after_topic-HasTopic :
        (instance_id smn_endpoint n urn : String)
        → IsOwn n instance_id
        → Keeps (HasTopic n urn) (after_topic E instance_id smn_endpoint n (some urn))
    unfolding after_topic
    after_topic-HasTopic instance_id smn_endpoint n urn own =
        search
          (
            keeps_rules,
            Keeps-deref-some,
            Keeps-perform (HasTopic-Stable n urn),
            other,
            list_rules-HasTopic n urn instance_id own,
          )
          depth 16

    after_topic-without :
        (instance_id smn_endpoint n : String)
        → Keeps (λ s. OnlyRules s.trace) (after_topic E instance_id smn_endpoint n none)
    unfolding after_topic
    after_topic-without instance_id smn_endpoint n =
        search (keeps_rules, Keeps-deref-none, Keeps-perform OnlyRules-Stable, other)

    after_topic-OnlyRules :
        (instance_id smn_endpoint n : String) (o e : Option String) (w : E.World) (s : State E)
        → IsOwn n instance_id
        → OnlyRules s.trace
        → OnlyRules
            (after_topic E instance_id smn_endpoint n o
              (called (create_topic n) (o, e) w s)).1.trace
    after_topic-OnlyRules instance_id smn_endpoint n none e w s own h =
        kept (after_topic-without instance_id smn_endpoint n)
          (called (create_topic n) (none, e) w s) (tt, h)
    after_topic-OnlyRules instance_id smn_endpoint n (some urn) e w s own h =
        (kept (after_topic-HasTopic instance_id smn_endpoint n urn own)
          (called (create_topic n) (some urn, e) w s) (inl (refl, refl), (tt, h))).1

    make_topic-OnlyRules :
        (instance_id smn_endpoint n : String)
        → IsOwn n instance_id
        → Keeps
            (λ s. OnlyRules s.trace)
            (perform E (create_topic n) >>= λ (o, _). after_topic E instance_id smn_endpoint n o)
    unfolding perform ◌>>=◌
    make_topic-OnlyRules instance_id smn_endpoint n own = keeps (λ s h.
        let ((o, e), w) = E.answer (create_topic n) s.world in
        after_topic-OnlyRules instance_id smn_endpoint n o e w s own h)

    -- CreateAlarm keeps the condition on the rules, if the name of its topic belongs to the instance.
    pub create_alarms-Keeps_rules :
        (instance_id smn_endpoint rds_name namespace : String)
        → IsOwn (namespace <> "_" <> rds_name) instance_id
        → Keeps
            (λ s. OnlyRules s.trace)
            (create_alarms E instance_id smn_endpoint rds_name namespace)
    create_alarms-Keeps_rules instance_id smn_endpoint rds_name namespace own =
        create_alarms-Keeps_of OnlyRules-Stable other instance_id smn_endpoint rds_name namespace
          (make_topic-OnlyRules instance_id smn_endpoint (namespace <> "_" <> rds_name) own)

-- The one topic and the one instance.
abbrev pub IsJust : String → String → String → String → Type 0
IsJust name id n i = (n ≡ name) × (i ≡ id)

module _ (E : Env) where
  -- Whatever the world answers, each alarm rule that a call of CreateAlarm makes is on the instance with
  -- the given id, has the name of the resource's instance in its name, so that DeleteAlarm matches it,
  -- notifies the URN alone that the call's making of a topic of that name has answered, be it with an
  -- error, which is only logged, or without, and comes after a list of the rules in this call without
  -- one of that name with the suffix -disc-util. The calls are those from an empty trace on.
  pub create_alarms-OnlyRules :
      (instance_id smn_endpoint rds_name namespace : String) (s : State E)
      → OnlyRules
          (IsJust (namespace <> "_" <> rds_name) instance_id)
          (create_alarms E instance_id smn_endpoint rds_name namespace
            (record s { trace = [] })).1.trace
  create_alarms-OnlyRules instance_id smn_endpoint rds_name namespace s =
      kept
        (create_alarms-Keeps_rules (IsJust (namespace <> "_" <> rds_name) instance_id) E instance_id
          smn_endpoint rds_name namespace (refl, refl))
        (record s { trace = [] }) tt
