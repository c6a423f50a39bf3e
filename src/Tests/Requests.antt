-- ===== src/Tests/Requests.antt =====
-- The properties of the requests, of the worker and of the queue, at concrete inputs.
use otc_rds_operator.Prelude.{refl, none, some, [], ◌∷◌}
use otc_rds_operator.Cloud.{Alarm}
use otc_rds_operator.Exec.{State}
use otc_rds_operator.Instance.Delete.{delete}
use otc_rds_operator.Instance.Delete.Backup.{DeletesBackedUp, delete-DeletesBackedUp}
use otc_rds_operator.Instance.Create.{create}
use otc_rds_operator.Instance.Create.Unique.{CreatesFree, create-CreatesFree}
use otc_rds_operator.Instance.Update.{update}
use otc_rds_operator.Instance.Update.Growth.{OnlyGrows, update-OnlyGrows}
use otc_rds_operator.Sql.{create_sql_user}
use otc_rds_operator.Sql.Statements.{OnlyQueries, allowed_by, create_sql_user-OnlyListed}
use otc_rds_operator.Alarm.{create_alarms, delete_matching}
use otc_rds_operator.Alarm.Rules.{OnlyRules, IsJust, create_alarms-OnlyRules}
use otc_rds_operator.Alarm.Deleted.{Deleted, delete_matching-Deleted}
use otc_rds_operator.Controller.Queue.{Event, EventType}
use otc_rds_operator.Controller.Handlers.{on_add, on_update}
use otc_rds_operator.Controller.Worker.{process_event}
use otc_rds_operator.Controller.Steps.{Reach, here, next, added, updated, worked, turn}
use otc_rds_operator.Controller.Requests.{IsSafe, Reach-IsSafe}
use otc_rds_operator.Controller.Addresses.{HasNames, process_event-HasNames}
use otc_rds_operator.Tests.World.{rds, spec, empty_world, full_world, start}
use otc_rds_operator.Tests.Queue.{fifo, no_events}

abbrev empty_start : State empty_world
empty_start = start empty_world tt

abbrev full_start : State full_world
full_start = start full_world tt

delete-DeletesBackedUp_example : DeletesBackedUp (delete full_world full_start).1.trace
delete-DeletesBackedUp_example = delete-DeletesBackedUp full_world full_start tt

create-CreatesFree_example : CreatesFree (create empty_world empty_start).1.trace
create-CreatesFree_example = create-CreatesFree empty_world empty_start tt

update-OnlyGrows_example :
    OnlyGrows rds (update full_world 3 spec (record full_start { trace = [] })).1.trace
update-OnlyGrows_example = update-OnlyGrows full_world 3 spec full_start

create_sql_user-OnlyListed_example :
    OnlyQueries (allowed_by rds) (create_sql_user full_world full_start).1.trace
create_sql_user-OnlyListed_example = create_sql_user-OnlyListed full_world full_start tt

-- A resource is added, the worker creates its instance, and an update of it follows.
abbrev run0 : State empty_world × fifo.Queue
run0 = (empty_start, no_events)

abbrev run1 : State empty_world × fifo.Queue
run1 = on_add fifo "default" (some rds) run0

abbrev run2 : State empty_world × fifo.Queue
run2 = turn fifo empty_world 3 "default" run1

abbrev run3 : State empty_world × fifo.Queue
run3 = on_update fifo "default" (some rds) (some rds) run2

abbrev run4 : State empty_world × fifo.Queue
run4 = turn fifo empty_world 3 "default" run3

run : Reach fifo empty_world 3 "default" run0 run4
run =
    next
      (next (next (next here (added (some rds) run0)) (worked run1))
        (updated (some rds) (some rds) run2))
      (worked run3)

Reach-IsSafe_example : IsSafe run4.0.trace
Reach-IsSafe_example = Reach-IsSafe fifo empty_world "default" 3 run0 run4 run (tt, tt)

abbrev removal : Event
removal = record { event_type = EventType.del_rds; old_obj = none; new_obj = some 0 }

process_event-HasNames_example :
    HasNames full_start.heap full_start.next (process_event full_world 3 removal full_start).1
process_event-HasNames_example = process_event-HasNames full_world 3 removal full_start

abbrev own : Alarm
own = record { name = "default_db-disc-util"; id = "7" }

abbrev unrelated : Alarm
unrelated = record { name = "default_web-disc-util"; id = "8" }

delete_matching-Deleted_example :
    Deleted "7" (delete_matching full_world "default_db" (unrelated ∷ own ∷ []) full_start).1.trace
delete_matching-Deleted_example =
    delete_matching-Deleted full_world "default_db" "" "-disc-util" (unrelated ∷ []) [] own
      full_start refl

create_alarms-OnlyRules_example :
    OnlyRules
      (IsJust "default_db" "node")
      (create_alarms full_world "node" "https://rds" "db" "default"
        (record full_start { trace = [] })).1.trace
create_alarms-OnlyRules_example =
    create_alarms-OnlyRules full_world "node" "https://rds" "db" "default" full_start
