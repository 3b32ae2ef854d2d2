-- ===== src/Copier/Book.antt =====
-- The bookkeeping of the engine: what an event changes in the state, and when the log is saved. The
-- log lines, such as the progress line after every 25 copies, are left out.
pub mod Frame
use gdrive_turbo_copy.Prelude.{
  ℕ, ◌+◌, ◌-◌, String, Bool, true, false, not, ◌&&◌, ◌||◌, Option, none, some, List, [], ◌∷◌, ◌++◌,
  leb, is_set, truthy, option_eq, string_eq, ◌==◌, keep, if◌then◌else◌,
}
use gdrive_turbo_copy.Prelude.Sets.{add}
use gdrive_turbo_copy.Models.DriveFile.{DriveFile}
use gdrive_turbo_copy.Models.Config.{CopyConfig}
use gdrive_turbo_copy.Models.Records.{FailedItem, is_nonempty}
use gdrive_turbo_copy.Retry.Errors.{Exc, text_of}
use gdrive_turbo_copy.Retry.Loop.{Reply, reply, failed}
use gdrive_turbo_copy.Resume.Store.{save}
use gdrive_turbo_copy.Copier.Drive.{Drive}
use gdrive_turbo_copy.Copier.Engine.{Engine, Outcome, done, raised, Action}

abbrev pub flush_every : ℕ
flush_every = 50

module _ {W : Type 0} where
  unfoldable pub release_reservation : ℕ → Engine W → Engine W
  release_reservation size e = record e { run_bytes = e.run_bytes - size }

  unfoldable pub count_copied : String → ℕ → Engine W → Engine W
  count_copied eff size e = record e {
    resume_state = record (e.resume_state) {
      copied_ids = add eff e.resume_state.copied_ids;
      copied_bytes = e.resume_state.copied_bytes + size;
    };
    result = record (e.result) {
      copied_count = e.result.copied_count + 1;
      copied_bytes = e.result.copied_bytes + size;
    };
    dirty = e.dirty + 1;
    copied_session = e.copied_session + 1;
    consec_rate_fail = 0;
  }

  unfoldable pub count_existing : String → Engine W → Engine W
  count_existing eff e = record e {
    resume_state = record (e.resume_state) { copied_ids = add eff e.resume_state.copied_ids };
    result = record (e.result) { skipped_count = e.result.skipped_count + 1 };
    dirty = e.dirty + 1;
  }

  unfoldable pub record_item : FailedItem → Engine W → Engine W
  record_item item e = record e {
    resume_state = record (e.resume_state) {
      failed_items = e.resume_state.failed_items ++ (item ∷ []);
    };
    result = record (e.result) { failed_items = e.result.failed_items ++ (item ∷ []) };
  }

  unfoldable pub stop_with : String → Engine W → Engine W
  stop_with reason e = record e {
    stop = true;
    result = record (e.result) { stop_reason = some reason };
  }

-- The keyword arguments of `_record_failed`.
pub record Links : Type 0 where
  pub parent_source_id : Option String
  pub shortcut_target_id : Option String
  pub source_shortcut_id : Option String
  pub effective_source_id : Option String

-- `x in keys`, for the texts of `keys` that are not empty.
abbrev pub in_keys : List String → Option String → Bool
in_keys [] x = false
in_keys (k ∷ keys) x = (truthy k && x == some k) || in_keys keys x

-- The item speaks of one of the keys.
abbrev pub concerns : List String → FailedItem → Bool
concerns keys f =
    in_keys keys f.effective_source_id
    || in_keys keys (some f.source_id)
    || in_keys keys f.source_shortcut_id
    || in_keys keys f.shortcut_target_id

-- The `==` of the dataclass.
unfoldable pub equal_items : FailedItem → FailedItem → Bool
equal_items a b =
    a.source_id == b.source_id
    && a.name == b.name
    && a.mime_type == b.mime_type
    && a.reason == b.reason
    && a.error_message == b.error_message
    && a.timestamp == b.timestamp
    && a.parent_source_id == b.parent_source_id
    && a.shortcut_target_id == b.shortcut_target_id
    && a.source_shortcut_id == b.source_shortcut_id
    && a.effective_source_id == b.effective_source_id

unfoldable pub item_in : List FailedItem → FailedItem → Bool
item_in [] f = false
item_in (g ∷ items) f = equal_items f g || item_in items f

module _ {W : Type 0} where
  -- `_reconcile_failed`: an item that is there now is no failure of an earlier run any more.
  unfoldable pub reconcile_failed : String → DriveFile → Engine W → Engine W
  reconcile_failed eff src e =
      let keys = eff ∷ src.id ∷ [] in
      let left = keep (λ f. not (concerns keys f)) e.result.previous_failed_items in
      if is_nonempty e.result.previous_failed_items
      then record e {
        resume_state = record (e.resume_state) {
          failed_items = left ++ keep (λ f. not (item_in left f)) e.resume_state.failed_items;
        };
        result = record (e.result) { previous_failed_items = left };
      }
      else e

module _ (drive : Drive) (config : CopyConfig) where
  unfoldable pub record_failed :
      DriveFile → String → String → Links → Engine drive.World → Engine drive.World
  record_failed src reason message links e =
      record_item
        (record {
          source_id = src.id;
          name = src.name;
          mime_type = src.mime_type;
          reason = reason;
          error_message = message;
          timestamp = drive.now e.world;
          parent_source_id = links.parent_source_id;
          shortcut_target_id = links.shortcut_target_id;
          source_shortcut_id = links.source_shortcut_id;
          effective_source_id = links.effective_source_id;
        })
        e

  -- What a failed save leaves in the result.
  abbrev pub note_save : Reply (Unit {0}) × Engine drive.World → Engine drive.World
  note_save (reply _, e) = e
  note_save (failed x, e) = record e {
    result = record (e.result) { log_save_failed = true; log_save_error = some (text_of x) };
  }

  -- `_save_log`: a failure to save is noted and never raised.
  unfoldable pub save_log : Bool → Engine drive.World → Engine drive.World
  save_log force e =
      if config.dry_run || not (is_set e.resume_state.dest_root_id)
      then e
      else if not force && not (leb flush_every e.dirty)
      then e
      else note_save (save drive (record e { dirty = 0 }))

  unfoldable pub maybe_flush : Engine drive.World → Engine drive.World
  maybe_flush e =
      if config.dry_run then e else if leb flush_every e.dirty then save_log false e else e

  -- `_mark_copied` and `_record_existing`
  unfoldable pub mark_copied : String → ℕ → Engine drive.World → Engine drive.World
  mark_copied eff size e = maybe_flush (count_copied eff size e)

  unfoldable pub record_existing : String → Engine drive.World → Engine drive.World
  record_existing eff e = maybe_flush (count_existing eff e)
