-- ===== src/Smn/Topic.antt =====
-- The topics of pkg/controller/alarm.go, as pkg/controller/autopilot.go reads them.
use otc_rds_operator.Prelude.{String, ◌<>◌, ◌≡◌, refl, ◌∙◌, ap, true, some, [], ◌∷◌, split}
use otc_rds_operator.Prelude.Pieces.{is_free, split_at, split-free}
use otc_rds_operator.Rds.{Rds, instance_name}
use otc_rds_operator.Smn.{resource_of_topic}

-- The parts of the URN of a topic in front of its name.
module _ (urn smn region project : String) (r : Rds) where
  abbrev pub topic_urn : String
  topic_urn =
      urn <> (":" <> (smn <> (":" <> (region <> (":" <> (project <> (":" <> instance_name r)))))))

  -- From the URN of a topic, `urn:smn:<region>:<project>:<name>`, that bears the name of a resource's
  -- instance, as CreateAlarm makes it, SmnReceiver finds that resource's namespace and name, if the
  -- parts in front have no colon, and namespace and name have no colon and no underscore.
  pub resource_of_topic-topic_urn :
      is_free b':' urn ≡ true
      → is_free b':' smn ≡ true
      → is_free b':' region ≡ true
      → is_free b':' project ≡ true
      → is_free b':' (instance_name r) ≡ true
      → is_free b'_' r.namespace ≡ true
      → is_free b'_' r.name ≡ true
      → resource_of_topic topic_urn ≡ some (r.namespace, r.name)
  unfolding resource_of_topic
  resource_of_topic-topic_urn u s g p i n m = rw (parts, names) refl
    where
      parts : split b':' topic_urn ≡ urn ∷ smn ∷ region ∷ project ∷ instance_name r ∷ []
      parts =
          split_at ":" urn _ ":" refl u
          ∙ ap (◌∷◌ urn) (
              split_at ":" smn _ ":" refl s
              ∙ ap (◌∷◌ smn) (
                  split_at ":" region _ ":" refl g
                  ∙ ap (◌∷◌ region) (
                      split_at ":" project _ ":" refl p
                      ∙ ap (◌∷◌ project) (split-free ":" (instance_name r) i))))

      names : split b'_' (instance_name r) ≡ r.namespace ∷ r.name ∷ []
      names =
          split_at "_" r.namespace r.name "_" refl n
          ∙ ap (◌∷◌ r.namespace) (split-free "_" r.name m)
