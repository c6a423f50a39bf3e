-- ===== src/Smn.antt =====
-- pkg/controller/autopilot.go: how SmnReceiver finds the resource that an alarm is about.
pub mod Topic
pub mod Receiver
pub mod Scaling
pub mod Server
pub mod Shared
pub mod Footprint
pub mod Listener
use otc_rds_operator.Prelude.{ℕ, String, Option, none, some, get_elem?, split}

abbrev and_then : {A B : Type 0} → Option A → (A → Option B) → Option B
and_then none f = none
and_then (some a) f = f a

-- The namespace and the name, from the URN of the topic; `none` where the program panics on an index
-- out of range.
unfoldable pub resource_of_topic : String → Option (String × String)
resource_of_topic topicurn = and_then (get_elem? (split b':' topicurn) 4) λ rds_ns_name.
    and_then (get_elem? (split b'_' rds_ns_name) 0) λ namespace.
      and_then (get_elem? (split b'_' rds_ns_name) 1) λ rds_name. some (namespace, rds_name)
