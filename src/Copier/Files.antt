-- ===== src/Copier/Files.antt =====
-- `_verify_copy` and `_copy_file`. An index is
-- handed on from call to call; Python changes it in place.

pub mod Effect
pub mod Laws
use gdrive_turbo_copy.Prelude.{
  ℕ, suc, ◌+◌, ◌*◌, ◌^◌, String, ◌<>◌, Bool, true, false, not, ◌&&◌, ◌||◌, Option, none, some, List,
  [], ◌∷◌, ltb, leb, is_set, is_some, truthy, or_else, or_text, option_eq, string_eq, number_eq,
  ◌==◌, if◌then◌else◌,
}
use gdrive_turbo_copy.Prelude.Dict.{Dict, lookup}
use gdrive_turbo_copy.Prelude.Text.{show}
use gdrive_turbo_copy.Prelude.Sets.{contains, discard}
use gdrive_turbo_copy.Prelude.Int.{Float, pos, pos_part, ltb_ℤ}
use gdrive_turbo_copy.Models.DriveFile.{FileReply, DriveFile, from_api, is_google_native, tool_tag}
use gdrive_turbo_copy.Models.AppProperties.{validate_app_properties}
use gdrive_turbo_copy.Models.Config.{CopyConfig, gib}
use gdrive_turbo_copy.Retry.Errors.{
  Exc, quota_stopped, value_error, classify_error, fatal_quota, is_rate_limit, parse_http_error,
  text_of, ErrorClass,
}
use gdrive_turbo_copy.Retry.Loop.{Reply, reply, failed}
use gdrive_turbo_copy.Index.{DestinationIndex, Item, Popped, pop_by_app_prop, pop_match}
use gdrive_turbo_copy.Copier.Drive.{Drive, CopyBody}
use gdrive_turbo_copy.Copier.Engine.{
  Engine, done, Action, pure, raise, modify, get, call, when, ◌>>=◌, ◌>>◌,
}
use gdrive_turbo_copy.Copier.Book.{
  Links, record_failed, save_log, mark_copied, record_existing, reconcile_failed,
  release_reservation, stop_with,
}
use gdrive_turbo_copy.Copier.Checks.{
  or_zero, compare_copy, over_budget, max_single_file, copy_properties,
}
use gdrive_turbo_copy.Copier.Failure.{reset_streak, handle_copy_exception}

module _ (drive : Drive) (config : CopyConfig) where
  abbrev pub Act : Type 0 → Type 0
  Act = Action drive.World

  abbrev pub change : (Engine drive.World → Engine drive.World) → Act (Unit {0})
  change = modify

  -- What the copy's metadata says; `none` when the copy is right.
  abbrev pub judge : DriveFile → Option String → Reply FileReply → Act (Option String)
  judge src shortcut_id (reply meta) = pure (compare_copy src shortcut_id (from_api meta))
  judge src shortcut_id (failed x) =
      pure (some ("could not fetch copied file metadata: " <> text_of x))

  -- `_verify_copy` on the id that the copy returned.
  unfoldable pub verify_copy : Option String → DriveFile → Option String → Act (Option String)
  verify_copy new_id src shortcut_id =
      if is_set new_id
      then call (drive.get_metadata (or_else new_id "")) >>= judge src shortcut_id
      else pure (some "copy returned no file id")

  abbrev pub file_links : DriveFile → String → Option String → Links
  file_links src parent shortcut_id = record {
    parent_source_id = some parent;
    shortcut_target_id = none;
    source_shortcut_id = shortcut_id;
    effective_source_id = some (or_else shortcut_id src.id);
  }

  -- What follows the verification: the copy counts, or is reported and its bytes released.
  unfoldable pub settle : DriveFile → String → Option String → Option String → Act (Unit {0})
  settle src parent shortcut_id none = do
    change (mark_copied drive config (or_else shortcut_id src.id) (or_zero src.size))
    change (reconcile_failed (or_else shortcut_id src.id) src)
  settle src parent shortcut_id (some detail) = do
    change (release_reservation (or_zero src.size))
    change (reset_streak drive config)
    change (
        record_failed drive config src "verificationFailed" detail
          (file_links src parent shortcut_id))

  abbrev pub if_set : Option String → Option String
  if_set o = if is_set o then o else none

  unfoldable pub copy_body : Option String → DriveFile → Option String → CopyBody
  copy_body dest src shortcut_id = record {
    name = src.name;
    parent = dest;
    app_properties = copy_properties src shortcut_id;
    modified_time = if config.preserve_metadata then if_set src.modified_time else none;
    created_time = if config.preserve_metadata then if_set src.created_time else none;
    description = if config.preserve_metadata then if_set src.description else none;
  }

  -- The answer to the copy request.
  unfoldable pub finish_copy :
      DriveFile → String → Option String → Reply (Option String) → Act (Unit {0})
  finish_copy src parent shortcut_id (reply new_id) = do
    verdict ← verify_copy new_id src shortcut_id
    settle src parent shortcut_id verdict
  finish_copy src parent shortcut_id (failed (quota_stopped reason)) = raise (quota_stopped reason)
  finish_copy src parent shortcut_id (failed exc) = do
    change (release_reservation (or_zero src.size))
    handle_copy_exception drive config exc src parent shortcut_id (or_else shortcut_id src.id)

  -- Step 4, with the bytes reserved.
  unfoldable pub send_copy : Option String → DriveFile → String → Option String → Act (Unit {0})
  send_copy dest src parent shortcut_id =
      elim (validate_app_properties (copy_properties src shortcut_id)) [
        | some message ↦ raise (value_error message)
        | none ↦ do
          answer ← call (
              drive.copy_file src.id (copy_body dest src shortcut_id)
                config.ignore_default_visibility config.keep_revision_forever)
          finish_copy src parent shortcut_id answer
      ]

  abbrev pub budget_text : DriveFile → String
  budget_text src =
      "Reached max copy size "
      <> drive.show_float config.max_copy_size_gb
      <> " GB before copying '"
      <> src.name
      <> "' ("
      <> drive.show_gb 2 (or_zero src.size)
      <> " GB). Re-run later to continue from the resume log."

  -- Step 3: the size guard, which reserves the bytes before the copy.
  unfoldable pub reserve : DriveFile → Act (Unit {0})
  reserve src e =
      if over_budget config.max_copy_size_gb (e.run_bytes + or_zero src.size)
      then (change (stop_with (budget_text src)) >> raise (quota_stopped (some (budget_text src))))
          e
      else (done tt, record e { run_bytes = e.run_bytes + or_zero src.size })

  abbrev pub too_large_text : DriveFile → String
  too_large_text src =
      "File is "
      <> drive.show_gb 1 (or_zero src.size)
      <> " GB, exceeds the ~750 GB single-file copy limit."

  -- A file that is not at the destination yet.
  unfoldable pub copy_new : Option String → DriveFile → String → Option String → Act (Unit {0})
  copy_new dest src parent shortcut_id =
      if ltb max_single_file (or_zero src.size)
      then change (
          record_failed drive config src "fileTooLargeToCopy" (too_large_text src)
            (file_links src parent shortcut_id))
      else if config.dry_run
      then change (λ e. record e {
        result = record (e.result) {
          would_copy_count = e.result.would_copy_count + 1;
          would_copy_bytes = e.result.would_copy_bytes + or_zero src.size;
        };
      })
      else do reserve src; send_copy dest src parent shortcut_id

  abbrev pub settle_match :
      Option String → DriveFile → String → Option String → Popped → Act DestinationIndex
  settle_match dest src parent shortcut_id (some item, index) = do
    change (record_existing drive config (or_else shortcut_id src.id))
    change (reconcile_failed (or_else shortcut_id src.id) src)
    pure index
  settle_match dest src parent shortcut_id (none, index) = do
    copy_new dest src parent shortcut_id
    pure index

  -- Step 2: a matching file already at the destination.
  unfoldable pub match_or_copy :
      Option String → DriveFile → DestinationIndex → String → Option String → Act DestinationIndex
  match_or_copy dest src index parent shortcut_id =
      settle_match dest src parent shortcut_id
        (pop_match src config.verify_mode config.allow_name_only (or_else shortcut_id src.id) index)

  -- A file that the log names was found by its key, or the log was wrong about it.
  abbrev pub settle_trusted :
      Option String → DriveFile → String → Option String → Popped → Act DestinationIndex
  settle_trusted dest src parent shortcut_id (some item, index) = do
    change (λ e. record e {
      result = record (e.result) { skipped_count = e.result.skipped_count + 1 };
    })
    change (reconcile_failed (or_else shortcut_id src.id) src)
    pure index
  settle_trusted dest src parent shortcut_id (none, index) = do
    change (λ e. record e {
      resume_state = record (e.resume_state) {
        copied_ids = discard (or_else shortcut_id src.id) e.resume_state.copied_ids;
      };
    })
    match_or_copy dest src index parent shortcut_id

  -- `_copy_file`. Step 1: an id in the log is trusted if the destination confirms it.
  unfoldable pub copy_file :
      Option String → DriveFile → DestinationIndex → String → Option String → Act DestinationIndex
  copy_file dest src index parent shortcut_id e =
      if e.stop
      then (done index, e)
      else if contains (or_else shortcut_id src.id) e.resume_state.copied_ids
      then settle_trusted dest src parent shortcut_id
          (pop_by_app_prop (or_else shortcut_id src.id) index) e
      else match_or_copy dest src index parent shortcut_id e
