-- ===== src/Copier/Submit.antt =====
-- `_submit_file` and `_copy_file_worker`. With more than one worker a file goes to a thread pool. Here
-- a pool runs each file when it is submitted. An exception leaves the index as it was, since only a
-- match takes a file from it.
use gdrive_turbo_copy.Prelude.{String, not, Option, none, some, or_text, if◌then◌else◌}
use gdrive_turbo_copy.Prelude.Int.{pos, ltb_ℤ}
use gdrive_turbo_copy.Models.DriveFile.{DriveFile}
use gdrive_turbo_copy.Models.Config.{CopyConfig}
use gdrive_turbo_copy.Retry.Errors.{Exc, quota_stopped, text_of, parse_http_error}
use gdrive_turbo_copy.Index.{DestinationIndex}
use gdrive_turbo_copy.Copier.Drive.{Drive}
use gdrive_turbo_copy.Copier.Engine.{Engine, Outcome, done, raised, out_of_fuel, Action}
use gdrive_turbo_copy.Copier.Book.{record_failed}
use gdrive_turbo_copy.Copier.Files.{copy_file}

module _ (drive : Drive) (config : CopyConfig) where
  abbrev pub Act : Type 0 → Type 0
  Act = Action drive.World

  abbrev pub worker_failed : Exc → DriveFile → String → Engine drive.World → Engine drive.World
  worker_failed exc src parent =
      let (reason, message, _) = parse_http_error exc in
      record_failed drive config src (or_text reason "workerError") (or_text message (text_of exc))
        (record {
          parent_source_id = some parent;
          shortcut_target_id = none;
          source_shortcut_id = none;
          effective_source_id = some src.id;
        })

  -- The `except` clauses of a worker.
  unfoldable pub recover :
      DriveFile
      → DestinationIndex
      → String
      → Outcome DestinationIndex × Engine drive.World
      → Outcome DestinationIndex × Engine drive.World
  recover src index parent (done index', e) = (done index', e)
  recover src index parent (raised (quota_stopped reason), e) = (done index, e)
  recover src index parent (raised exc, e) = (done index, worker_failed exc src parent e)
  recover src index parent (out_of_fuel, e) = (out_of_fuel, e)

  unfoldable pub copy_file_worker :
      Option String → DriveFile → DestinationIndex → String → Act DestinationIndex
  copy_file_worker dest src index parent e =
      if e.stop
      then (done index, e)
      else recover src index parent (copy_file drive config dest src index parent none e)

  unfoldable pub submit_file :
      Option String → DriveFile → DestinationIndex → String → Act DestinationIndex
  submit_file dest src index parent e =
      if not (ltb_ℤ (pos 1) config.workers)
      then copy_file drive config dest src index parent none e
      else if e.stop
      then (done index, e)
      else copy_file_worker dest src index parent e
