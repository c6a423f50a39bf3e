-- ===== src/Instance/Update/Restored.antt =====
-- pkg/controller/resource.go: the restore of a backup in rdsUpdate.
use otc_rds_operator.Prelude.{
  String, ◌≡◌, ◌≢◌, refl, ◌∙◌, false, ◌==◌, ◌<>◌, eq_iff, sym, inl, inr, Bool-cases, [], ap,
}
use otc_rds_operator.Cloud.{Env, Reply, ok, failed, record_event, restore_backup}
use otc_rds_operator.Exec.{
  State, Exec, done, fail, pure, gets, modify, try_as, wrap_error, perform, ◌>>=◌,
}
use otc_rds_operator.Exec.Run.{otherwise, bind-done, wrap_error-done}
use otc_rds_operator.Instance.Status.{update_status}
use otc_rds_operator.Instance.Update.Parts.{clear_restore_time, after_restore, restore_to, restore}
use otc_rds_operator.Time.Civil.{Stamp, unix_milli}
use otc_rds_operator.Time.Scan.{Bytes, bytes}
use otc_rds_operator.Time.Rfc3339.{cannot_parse, problem_text, parse_rfc3339}
use otc_rds_operator.Time.Printed.{
  print_local, stamp-print_local, Written, IsWritten, meant, print, stamp-print,
}

parse_rfc3339-print :
    (text : String) (w : Written)
    → IsWritten w
    → bytes text ≡ print w
    → parse_rfc3339 text ≡ ok (meant w)
unfolding parse_rfc3339
parse_rfc3339-print text w h e = rw (e, stamp-print w h) refl

parse_rfc3339-print_local :
    (text : String) (w : Written)
    → IsWritten w
    → bytes text ≡ print_local w
    → parse_rfc3339 text ≡ failed (problem_text (print_local w) (cannot_parse [] "Z07:00"))
unfolding parse_rfc3339
parse_rfc3339-print_local text w h e = rw (e, stamp-print_local w h) refl

not_empty : (text : String) (b : Bytes) → bytes text ≡ b → b ≢ [] → (text == "") ≡ false
unfolding bytes
not_empty text b e ne = elim (Bool-cases (text == "")) [
  | inl empty ↦ absurd (ne (sym e ∙ ap bytes ((eq_iff text "").0 empty)))
  | inr full ↦ full
]

module _ (E : Env) (s : State E) where
  -- After the event that announces the restore.
  abbrev pub announced : State E
  announced =
      (perform E
        (record_event "Update" ("This instance is restoring to " <> s.rds.spec.backuprestoretime))
        s).1

  -- After the text of the time has been cleared.
  abbrev pub cleared : State E
  cleared = (modify clear_restore_time announced).1

  restore_to-requests :
      (u : State E) (time : Stamp)
      → update_status E cleared ≡ (done tt, u)
      → restore_to E time announced
        ≡ (perform E (restore_backup u.rds.status.id (unix_milli time)) >>= after_restore E) u
  unfolding restore_to modify gets
  restore_to-requests u time h =
      bind-done (modify clear_restore_time) _ announced cleared tt refl
      ∙ (bind-done (wrap_error status_error (update_status E)) _ cleared u tt
            (wrap_error-done status_error (update_status E) cleared u tt h)
          ∙ bind-done (gets (λ t. t.rds))
              (λ r. perform E (restore_backup r.status.id (unix_milli time)) >>= after_restore E) u
              u u.rds refl)
    where
      status_error : String
      status_error = "error update rds status: "

  -- `restore` up to the parse.
  restore-parsed :
      (p : Reply Stamp)
      → (s.rds.spec.backuprestoretime == "") ≡ false
      → parse_rfc3339 s.rds.spec.backuprestoretime ≡ p
      → restore E s ≡ (try_as "can't parse rds restore time: " p >>= restore_to E) announced
  unfolding restore gets perform
  restore-parsed p wanted e =
      bind-done (gets (λ t. t.rds)) _ s s s.rds refl
      ∙ (otherwise (s.rds.spec.backuprestoretime == "") (pure tt)
            (announce >>= λ _. parse_and_restore (parse_rfc3339 s.rds.spec.backuprestoretime)) s
            wanted
          ∙ (bind-done announce
                (λ _. parse_and_restore (parse_rfc3339 s.rds.spec.backuprestoretime)) s announced tt
                refl
              ∙ ap (λ q. parse_and_restore q announced) e))
    where
      announce : Exec E Unit
      announce =
          perform E (
            record_event "Update"
              ("This instance is restoring to " <> s.rds.spec.backuprestoretime))

      parse_and_restore : Reply Stamp → Exec E Unit
      parse_and_restore q = try_as "can't parse rds restore time: " q >>= restore_to E

  -- A restore whose time is a text in the form of RFC 3339 asks the cloud, once the cleared time has
  -- been written back, for the moment that the text means, in milliseconds since 1970, for the
  -- instance of the resource.
  pub restore-requests :
      (w : Written) (u : State E)
      → IsWritten w
      → bytes s.rds.spec.backuprestoretime ≡ print w
      → update_status E cleared ≡ (done tt, u)
      → restore E s
        ≡ (perform E (restore_backup u.rds.status.id (unix_milli (meant w))) >>= after_restore E) u
  unfolding ◌>>=◌ try_as
  restore-requests w u valid text updated =
      restore-parsed (ok (meant w))
        (not_empty s.rds.spec.backuprestoretime (print w) text (λ e. cc))
        (parse_rfc3339-print s.rds.spec.backuprestoretime w valid text)
      ∙ restore_to-requests u (meant w) updated

  -- A restore whose time has no zone fails, whatever its date and its time of the day, and neither
  -- writes the resource nor asks the cloud for anything: it records the event that announces the
  -- restore, and the text stays.
  pub restore-without_zone :
      (w : Written)
      → IsWritten w
      → bytes s.rds.spec.backuprestoretime ≡ print_local w
      → restore E s ≡ (
        fail (
            "can't parse rds restore time: "
            <> problem_text (print_local w) (cannot_parse [] "Z07:00")),
        announced,
      )
  unfolding ◌>>=◌ try_as
  restore-without_zone w valid text =
      restore-parsed (failed (problem_text (print_local w) (cannot_parse [] "Z07:00")))
        (not_empty s.rds.spec.backuprestoretime (print_local w) text (λ e. cc))
        (parse_rfc3339-print_local s.rds.spec.backuprestoretime w valid text)
      ∙ refl
