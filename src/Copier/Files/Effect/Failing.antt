-- ===== src/Copier/Files/Effect/Failing.antt =====
-- The stages after a failed copy: they stop the run, or enter the failure.
use gdrive_turbo_copy.Prelude.{
  ℕ, ◌+◌, ◌≡◌, refl, true, false, Option, String, arith, length, leb, leb→le, Bool-cases, inl, inr,
  or_else,
}
use gdrive_turbo_copy.Models.DriveFile.{DriveFile}
use gdrive_turbo_copy.Models.Config.{CopyConfig}
use gdrive_turbo_copy.Retry.Errors.{Exc, classify_error, is_rate_limit, parse_http_error}
use gdrive_turbo_copy.Copier.Drive.{Drive}
use gdrive_turbo_copy.Copier.Engine.{Engine, done, modify, ◌>>◌}
use gdrive_turbo_copy.Copier.Book.{stop_with}
use gdrive_turbo_copy.Copier.Book.Frame.{books, save_log-books, record_failed-books}
use gdrive_turbo_copy.Copier.Checks.{is_fatal_quota}
use gdrive_turbo_copy.Copier.Failure.{
  stop_run, raise_if_fatal_quota, count_rate_failure, trip, handle_copy_exception, save_before_stop,
  note_failure,
}
use gdrive_turbo_copy.Copier.Files.Effect.Step.{Site, Steps, fails, stops}

module _ (drive : Drive) (config : CopyConfig) (src : DriveFile) (shortcut_id : Option String)
    (site : Site drive) where
  abbrev eff : String
  eff = or_else shortcut_id src.id

  save_before_stop-books :
      (e : Engine drive.World) → books (save_before_stop drive config e) ≡ books e
  save_before_stop-books e = ground (arith, save_log-books drive config true e)

  trip_stops :
      (text : String) (e : Engine drive.World)
      → leb 8 e.consec_rate_fail ≡ true
      → trip drive config text e ≡ stop_run drive config text e
  unfolding trip
  trip_stops text e h = rw h

  trip_passes :
      (text : String) (e : Engine drive.World)
      → leb 8 e.consec_rate_fail ≡ false
      → trip drive config text e ≡ (done tt, e)
  unfolding trip
  trip_passes text e h = rw h

  trip-Steps :
      (text : String) (f : Engine drive.World → Engine drive.World) (n : ℕ) (e : Engine drive.World)
      → config.dry_run ≡ false
      → e.consec_rate_fail ≡ n + 1
      → books (f e) ≡ record (books e) { failed = length e.result.failed_items + 1 }
      → Steps drive config src shortcut_id site
          (record (books e) { streak = n })
          ((trip drive config text >> modify f) e)
  unfolding stop_run stop_with
  trip-Steps text f n e real next entry = elim (Bool-cases (leb 8 e.consec_rate_fail)) [
    | inl eighth ↦
        rw (trip_stops text e eighth, ◌>>◌)
          (stops e.consec_rate_fail text real (inr (next, leb→le 8 e.consec_rate_fail eighth))
            (save_before_stop-books (stop_with text e)))
    | inr early ↦
        rw (trip_passes text e early, ◌>>◌)
          (fails e.consec_rate_fail (inr (inr (next, ground arith))) entry)
  ]

  -- The streak after a failure, and then the entry of the failure itself.
  count_rate_failure-Steps :
      (exc : Exc) (f : Engine drive.World → Engine drive.World) (e : Engine drive.World)
      → config.dry_run ≡ false
      → ((e' : Engine drive.World)
          → books (f e') ≡ record (books e') { failed = length e'.result.failed_items + 1 })
      → Steps drive config src shortcut_id site
          (books e)
          ((count_rate_failure drive config exc >> modify f) e)
  unfolding count_rate_failure
  count_rate_failure-Steps exc f e real entry =
      let limited = is_rate_limit (parse_http_error exc).2 (parse_http_error exc).0 in
      let longer : Engine drive.World = record e { consec_rate_fail = e.consec_rate_fail + 1 } in
      elim (Bool-cases limited) [
        | inr other ↦
            rw other (fails 0 (inr (inl refl)) (entry (record e { consec_rate_fail = 0 })))
        | inl rate ↦ rw rate (trip-Steps _ f e.consec_rate_fail longer real refl (entry longer))
      ]

  module _ (parent : String) where
    note_failure-books :
        (exc : Exc) (e : Engine drive.World)
        → books (note_failure drive config exc src parent shortcut_id eff e)
          ≡ record (books e) { failed = length e.result.failed_items + 1 }
    note_failure-books exc e = record_failed-books drive config src _ _ _ e

    pub handle_copy_exception-Steps :
        (exc : Exc) (e : Engine drive.World)
        → config.dry_run ≡ false
        → Steps drive config src shortcut_id site
            (books e)
            (handle_copy_exception drive config exc src parent shortcut_id eff e)
    unfolding handle_copy_exception raise_if_fatal_quota stop_run stop_with
    handle_copy_exception-Steps exc e real =
        elim (Bool-cases (is_fatal_quota (classify_error exc))) [
          | inl fatal ↦
              rw fatal (
                stops e.consec_rate_fail _ real (inl refl) (save_before_stop-books (stop_with _ e)))
          | inr other ↦ rw other (
              count_rate_failure-Steps exc
                (note_failure drive config exc src parent shortcut_id eff) e real
                (note_failure-books exc))
        ]
