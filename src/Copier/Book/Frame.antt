-- ===== src/Copier/Book/Frame.antt =====
-- What saving the log leaves alone, and what each entry of the books changes.
use gdrive_turbo_copy.Prelude.{
  ℕ, ◌+◌, ◌≡◌, refl, Bool, false, Option, List, String, [], ◌∷◌, arith, length, length-append,
}
use gdrive_turbo_copy.Prelude.Sets.{add}
use gdrive_turbo_copy.Models.DriveFile.{DriveFile}
use gdrive_turbo_copy.Models.Config.{CopyConfig}
use gdrive_turbo_copy.Models.Records.{FailedItem}
use gdrive_turbo_copy.Retry.Loop.{Reply, reply, failed}
use gdrive_turbo_copy.Resume.Store.{save}
use gdrive_turbo_copy.Copier.Drive.{Drive}
use gdrive_turbo_copy.Copier.Engine.{Engine}
use gdrive_turbo_copy.Copier.Book.{
  note_save, save_log, maybe_flush, mark_copied, record_existing, count_copied, count_existing,
  reconcile_failed, record_failed, record_item, Links,
}

-- The part of the state that the copying itself goes by.
pub record Books : Type 0 where
  pub stop : Bool
  pub run_bytes : ℕ
  pub streak : ℕ
  pub copied : ℕ
  pub skipped : ℕ
  pub failed : ℕ
  pub would_copy : ℕ
  pub copied_bytes : ℕ
  pub stop_reason : Option String
  pub copied_ids : List String

abbrev pub books : {W : Type 0} → Engine W → Books
books e = record {
  stop = e.stop;
  run_bytes = e.run_bytes;
  streak = e.consec_rate_fail;
  copied = e.result.copied_count;
  skipped = e.result.skipped_count;
  failed = length e.result.failed_items;
  would_copy = e.result.would_copy_count;
  copied_bytes = e.result.copied_bytes;
  stop_reason = e.result.stop_reason;
  copied_ids = e.resume_state.copied_ids;
}

record_item-books :
    {W : Type 0} (item : FailedItem) (e : Engine W)
    → books (record_item item e) ≡ record (books e) { failed = length e.result.failed_items + 1 }
unfolding record_item
record_item-books item e = ground (arith, length-append e.result.failed_items (item ∷ []))

module _ (drive : Drive) where
  save-books : (e : Engine drive.World) → books (save drive e).1 ≡ books e
  unfolding save
  save-books e = ground arith

  note_save-books :
      (config : CopyConfig) (p : Reply (Unit {0}) × Engine drive.World)
      → books (note_save drive config p) ≡ books p.1
  note_save-books config (reply u, e) = refl
  note_save-books config (failed x, e) = refl

module _ (drive : Drive) (config : CopyConfig) where
  -- Saving the log, whether it succeeds or not, changes none of the books.
  pub save_log-books :
      (force : Bool) (e : Engine drive.World) → books (save_log drive config force e) ≡ books e
  unfolding save_log
  save_log-books force e =
      let e0 : Engine drive.World = record e { dirty = 0 } in
      ground (arith, note_save-books drive config (save drive e0), save-books drive e0)

  maybe_flush-books : (e : Engine drive.World) → books (maybe_flush drive config e) ≡ books e
  unfolding maybe_flush
  maybe_flush-books e = ground (arith, save_log-books false e)

  pub mark_copied-books :
      (eff : String) (size : ℕ) (e : Engine drive.World)
      → books (mark_copied drive config eff size e) ≡ record (books e) {
        streak = 0;
        copied = e.result.copied_count + 1;
        copied_bytes = e.result.copied_bytes + size;
        copied_ids = add eff e.resume_state.copied_ids;
      }
  unfolding mark_copied count_copied
  mark_copied-books eff size e = maybe_flush-books (count_copied eff size e)

  pub record_existing-books :
      (eff : String) (e : Engine drive.World)
      → books (record_existing drive config eff e) ≡ record (books e) {
        skipped = e.result.skipped_count + 1;
        copied_ids = add eff e.resume_state.copied_ids;
      }
  unfolding record_existing count_existing
  record_existing-books eff e = maybe_flush-books (count_existing eff e)

  pub record_failed-books :
      (src : DriveFile) (reason message : String) (links : Links) (e : Engine drive.World)
      → books (record_failed drive config src reason message links e)
        ≡ record (books e) { failed = length e.result.failed_items + 1 }
  unfolding record_failed
  record_failed-books src reason message links e = record_item-books _ e

pub reconcile_failed-books :
    {W : Type 0} (eff : String) (src : DriveFile) (e : Engine W)
    → books (reconcile_failed eff src e) ≡ books e
unfolding reconcile_failed
reconcile_failed-books eff src e = ground arith
