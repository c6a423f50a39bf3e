-- ===== src/Tests/Updates.antt =====
-- The updates that the worker skips and those that it carries out, at concrete inputs.
use otc_rds_operator.Prelude.{◌≡◌, refl, true, false, nat_eq, if◌then◌else◌}
use otc_rds_operator.Prelude.Int.{pos}
use otc_rds_operator.Rds.{spec_eq, status_eq}
use otc_rds_operator.Exec.{State, done, ◌>>=◌}
use otc_rds_operator.Instance.Lookup.{rds_get_by_name}
use otc_rds_operator.Instance.Provider.{get_provider, open_client}
use otc_rds_operator.Instance.Status.{rds_update_status, update_status}
use otc_rds_operator.Controller.Worker.{at_address, process_update_rds}
use otc_rds_operator.Controller.Changes.{process_update_rds-skips}
use otc_rds_operator.Tests.World.{rds, spec, status, full_world, start, reply}

-- What is at address 0 stays as it is when its status is refreshed; the object at 1 has another
-- specification and another status.
abbrev before : State full_world
before = record (start full_world tt) {
  heap = λ p. if nat_eq p 0 then rds else record rds {
    spec = record spec { volumesize = pos 200 };
    status = record status { reboot = true };
  };
  next = 2;
}

abbrev after : State full_world
after = (at_address full_world 1 (update_status full_world) before).1

refreshed : at_address full_world 1 (update_status full_world) before ≡ (done tt, after)
unfolding at_address update_status ◌>>=◌ get_provider reply open_client rds_update_status
    rds_get_by_name status_eq
refreshed = refl

specs_differ : spec_eq (after.heap 0).spec (after.heap 1).spec ≡ false
unfolding spec_eq at_address update_status ◌>>=◌ get_provider reply open_client rds_update_status
    rds_get_by_name status_eq
specs_differ = refl

statuses_differ : status_eq (after.heap 0).status (after.heap 1).status ≡ false
unfolding at_address update_status ◌>>=◌ get_provider reply open_client rds_update_status
    rds_get_by_name status_eq
statuses_differ = refl

process_update_rds-skips_example : process_update_rds full_world 3 0 1 before ≡ (done tt, after)
process_update_rds-skips_example =
    process_update_rds-skips full_world 3 0 1 before after refreshed specs_differ statuses_differ
