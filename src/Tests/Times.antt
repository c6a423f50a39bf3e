-- ===== src/Tests/Times.antt =====
-- The restore of a backup and its times, at concrete inputs.
use otc_rds_operator.Prelude.{◌≡◌, refl, ◌+◌, [], none, ◌<>◌, arith}
use otc_rds_operator.Prelude.Int.{pos}
use otc_rds_operator.Rds.{status_eq}
use otc_rds_operator.Cloud.{ok, failed, restore_backup}
use otc_rds_operator.Exec.{State, done, fail, perform, ◌>>=◌}
use otc_rds_operator.Instance.Lookup.{rds_get_by_name}
use otc_rds_operator.Instance.Provider.{get_provider, open_client}
use otc_rds_operator.Instance.Status.{rds_update_status, update_status}
use otc_rds_operator.Instance.Update.Parts.{after_restore, restore}
use otc_rds_operator.Instance.Update.Restored.{
  announced, cleared, restore-requests, restore-without_zone,
}
use otc_rds_operator.Time.Civil.{
  days_in, days_before_year, days_before_month, days_before, next_day, day_number, number_of,
  unix_milli,
}
use otc_rds_operator.Time.Calendar.{day_number-next_day}
use otc_rds_operator.Time.Scan.{bytes, quote, long_year, within, getnum, fraction}
use otc_rds_operator.Time.Rfc3339.{
  cannot_parse, problem_text, in_month, date, clock, zone, check_day, parse_rfc3339,
}
use otc_rds_operator.Time.Printed.{Written, IsWritten, east, meant, print_local}
use otc_rds_operator.Tests.World.{rds, spec, full_world, start, reply}

abbrev written : Written
written = record {
  year = 2022;
  month = 4;
  day = 20;
  hour = 22;
  minute = 8;
  second = 41;
  millis = none;
  zone = east 0 0;
}

milli : unix_milli (meant written) ≡ pos 1650492521000
unfolding unix_milli day_number days_before_year days_before days_before_month
milli = refl

text_parsed : parse_rfc3339 "2022-04-20T22:08:41+00:00" ≡ ok (meant written)
unfolding parse_rfc3339 date long_year within getnum in_month clock zone fraction check_day days_in
text_parsed = refl

-- An hour of one digit, and a fraction behind a comma.
text_comma :
    parse_rfc3339 "2022-04-20T9:08:41,5Z"
    ≡ ok (record (meant written) { hour = 9; nanosecond = 500000000 })
unfolding parse_rfc3339 date long_year within getnum in_month clock zone fraction check_day days_in
text_comma = refl

no_day :
    parse_rfc3339 "2022-02-30T22:08:41Z"
    ≡ failed "parsing time \"2022-02-30T22:08:41Z\": day out of range"
unfolding parse_rfc3339 quote date long_year within getnum in_month clock zone fraction check_day
    days_in
no_day = refl

written-IsWritten : IsWritten written
unfolding days_in
written-IsWritten = omega arith

-- A restore is asked for.
abbrev asked : State full_world
asked = record (start full_world tt) {
  rds = record rds { spec = record spec { backuprestoretime = "2022-04-20T22:08:41+00:00" } };
}

abbrev updated : State full_world
updated = (update_status full_world (cleared full_world asked)).1

status_saved : update_status full_world (cleared full_world asked) ≡ (done tt, updated)
unfolding update_status ◌>>=◌ get_provider reply open_client rds_update_status rds_get_by_name
    status_eq
status_saved = refl

restore-requests_example :
    restore full_world asked
    ≡ (perform full_world (restore_backup updated.rds.status.id (unix_milli (meant written)))
          >>= after_restore full_world)
        updated
unfolding bytes
restore-requests_example =
    restore-requests full_world asked written updated written-IsWritten refl status_saved

-- The same without a zone.
abbrev asked_local : State full_world
asked_local = record (start full_world tt) {
  rds = record rds { spec = record spec { backuprestoretime = "2022-04-20T22:08:41" } };
}

restore-without_zone_example : restore full_world asked_local ≡ (
  fail (
      "can't parse rds restore time: "
      <> problem_text (print_local written) (cannot_parse [] "Z07:00")),
  announced full_world asked_local,
)
unfolding bytes
restore-without_zone_example =
    restore-without_zone full_world asked_local written written-IsWritten refl

-- From the last of February of a leap year.
day_number-next_day_example : number_of (next_day 2024 2 29) ≡ day_number 2024 2 29 + 1
unfolding days_in
day_number-next_day_example = day_number-next_day 2024 2 29 (omega arith) (omega arith)
