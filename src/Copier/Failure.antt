-- ===== src/Copier/Failure.antt =====
-- `_raise_if_fatal_quota` and `_handle_copy_exception`: what a failed call of Drive does to the run.
use gdrive_turbo_copy.Prelude.{
  ◌+◌, String, ◌<>◌, Bool, true, not, ◌&&◌, Option, none, some, leb, is_set, or_text, option_eq,
  string_eq, number_eq, if◌then◌else◌,
}
use gdrive_turbo_copy.Models.DriveFile.{DriveFile}
use gdrive_turbo_copy.Models.Config.{CopyConfig}
use gdrive_turbo_copy.Retry.Errors.{
  Exc, quota_stopped, classify_error, is_rate_limit, parse_http_error, text_of,
}
use gdrive_turbo_copy.Copier.Drive.{Drive}
use gdrive_turbo_copy.Copier.Engine.{Engine, Action, pure, raise, modify, ◌>>◌}
use gdrive_turbo_copy.Copier.Book.{record_failed, save_log, stop_with}
use gdrive_turbo_copy.Copier.Checks.{is_fatal_quota, rate_limit_stop_threshold}

module _ (drive : Drive) (config : CopyConfig) where
  abbrev pub Act : Type 0 → Type 0
  Act = Action drive.World

  abbrev pub change : (Engine drive.World → Engine drive.World) → Act (Unit {0})
  change = modify

  -- `try: self._save_log(force=True)` before a stop.
  abbrev pub save_before_stop : Engine drive.World → Engine drive.World
  save_before_stop e =
      if is_set e.resume_state.dest_root_id && not config.dry_run
      then save_log drive config true e
      else e

  abbrev pub quota_text : Exc → String → String
  quota_text exc context =
      let (reason, message, _) = parse_http_error exc in
      "Daily Drive copy/upload quota hit while "
      <> context
      <> ": "
      <> or_text reason "quotaExceeded"
      <> " — "
      <> message
      <> ". Re-run after the quota resets (~24h); the resume log preserves progress."

  abbrev pub rate_text : String → String
  rate_text reason =
      "8 consecutive copy operations were rate-limited (reason="
      <> or_text reason "rateLimitExceeded"
      <> "); likely the daily/server-side-copy cap. Stopping gracefully — re-run after the quota "
      <> "resets (~24h); the resume log preserves progress."

  -- A stop that saves the log and unwinds the run.
  unfoldable pub stop_run : String → Act (Unit {0})
  stop_run text = do
    change (stop_with text)
    change save_before_stop
    raise (quota_stopped (some text))

  unfoldable pub raise_if_fatal_quota : Exc → String → Act (Unit {0})
  raise_if_fatal_quota exc context =
      if is_fatal_quota (classify_error exc) then stop_run (quota_text exc context) else pure tt

  abbrev pub reset_streak : Engine drive.World → Engine drive.World
  reset_streak e = record e { consec_rate_fail = 0 }

  abbrev pub extend_streak : Engine drive.World → Engine drive.World
  extend_streak e = record e { consec_rate_fail = e.consec_rate_fail + 1 }

  abbrev pub tripped : Engine drive.World → Bool
  tripped e = leb rate_limit_stop_threshold e.consec_rate_fail

  unfoldable pub trip : String → Act (Unit {0})
  trip text e = if tripped e then stop_run text e else pure tt e

  -- The circuit breaker: the eighth copy in a row that ends in a rate limit stops the run.
  unfoldable pub count_rate_failure : Exc → Act (Unit {0})
  count_rate_failure exc =
      let (reason, message, status) = parse_http_error exc in
      if is_rate_limit status reason
      then (do change extend_streak; trip (rate_text reason))
      else change reset_streak

  -- The entry of a failed copy.
  abbrev pub note_failure :
      Exc → DriveFile → String → Option String → String → Engine drive.World → Engine drive.World
  note_failure exc src parent shortcut_id eff =
      let (reason, message, status) = parse_http_error exc in
      record_failed drive config src (or_text reason "copyFailed") (or_text message (text_of exc))
        (record {
          parent_source_id = some parent;
          shortcut_target_id = if is_set shortcut_id then some src.id else none;
          source_shortcut_id = shortcut_id;
          effective_source_id = some eff;
        })

  unfoldable pub handle_copy_exception :
      Exc → DriveFile → String → Option String → String → Act (Unit {0})
  handle_copy_exception exc src parent shortcut_id eff = do
    raise_if_fatal_quota exc ("copying '" <> src.name <> "'")
    count_rate_failure exc
    change (note_failure exc src parent shortcut_id eff)
