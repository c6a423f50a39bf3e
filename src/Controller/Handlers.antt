-- ===== src/Controller/Handlers.antt =====
-- pkg/controller/controller.go: the handlers that the informer calls.
use otc_rds_operator.Prelude.{
  ◌+◌, String, Bool, not, ◌&&◌, Option, none, some, fields, slice_contains, nat_eq, if◌then◌else◌,
}
use otc_rds_operator.Rds.{Rds, deep_copy}
use otc_rds_operator.Cloud.{Env}
use otc_rds_operator.Exec.{State}
use otc_rds_operator.Controller.Queue.{WorkQueue, EventType}

-- `slices.Contains(w, ns) || slices.Contains(w, "*")` for the words `w` of the watch list.
unfoldable pub is_watched : String → String → Bool
is_watched watchnamespaces namespace =
    let w = fields watchnamespaces in
    not (not (slice_contains w namespace) && not (slice_contains w "*"))

-- A pointer to a new copy of a resource.
abbrev pub store : {E : Env} → Rds → State E → State E
store r s = record s {
  heap = λ p. if nat_eq p s.next then deep_copy r else s.heap p;
  next = s.next + 1;
}

module _ (Q : WorkQueue) {E : Env} where
  -- The handlers of additions and deletions. An object that is no `*Rds` is only logged.
  unfoldable pub enqueue : EventType → String → Option Rds → State E × Q.Queue → State E × Q.Queue
  unfolding is_watched
  enqueue kind watchnamespaces none (s, q) = (s, q)
  enqueue kind watchnamespaces (some r) (s, q) =
      if not (is_watched watchnamespaces r.namespace) then (s, q) else (
        store r s,
        Q.add (record { event_type = kind; old_obj = none; new_obj = some s.next }) q,
      )

  unfoldable pub on_add : String → Option Rds → State E × Q.Queue → State E × Q.Queue
  unfolding enqueue
  on_add = enqueue EventType.add_rds

  unfoldable pub on_delete : String → Option Rds → State E × Q.Queue → State E × Q.Queue
  unfolding enqueue
  on_delete = enqueue EventType.del_rds

  -- Only the namespace of the new object is tested.
  unfoldable pub on_update :
      String → Option Rds → Option Rds → State E × Q.Queue → State E × Q.Queue
  unfolding is_watched
  on_update watchnamespaces none new (s, q) = (s, q)
  on_update watchnamespaces (some old) none (s, q) = (s, q)
  on_update watchnamespaces (some old) (some new) (s, q) =
      if not (is_watched watchnamespaces new.namespace) then (s, q) else (
        store new (store old s),
        Q.add
            (record {
              event_type = EventType.update_rds;
              old_obj = some s.next;
              new_obj = some (s.next + 1);
            })
            q,
      )
