-- ===== src/Copier/Run/Laws.antt =====
-- What holds of a whole run, whatever Drive answers.
use gdrive_turbo_copy.Prelude.{
  List, [], ◌∷◌, ℕ, ◌≡◌, refl, String, ◌<>◌, true, Option, some, List, is_set, string_eq, ==_refl,
}
use gdrive_turbo_copy.Prelude.Text.{join}
use gdrive_turbo_copy.Urls.{extract_folder_id}
use gdrive_turbo_copy.Models.DriveFile.{DriveFile}
use gdrive_turbo_copy.Models.Config.{CopyConfig, validate}
use gdrive_turbo_copy.Models.Config.Laws.{IsValid, validate_iff}
use gdrive_turbo_copy.Models.Records.{is_nonempty}
use gdrive_turbo_copy.Retry.Loop.{Reply, reply, failed}
use gdrive_turbo_copy.Copier.Drive.{Drive}
use gdrive_turbo_copy.Copier.Engine.{Engine, done, pure}
use gdrive_turbo_copy.Copier.Book.Frame.{books}
use gdrive_turbo_copy.Copier.Files.Effect.Budget.{InBudget}
use gdrive_turbo_copy.Copier.Levels.{process_level}
use gdrive_turbo_copy.Copier.Kept.{Kept, Kept-continue, Kept-if, Kept-fork}
use gdrive_turbo_copy.Copier.Moves.Laws.{Untouched, Dry, Moves-InBudget, Moves-stopped, Moves-Dry}
use gdrive_turbo_copy.Copier.Moves.Levels.{Moving-process_level}
use gdrive_turbo_copy.Copier.Run.{
  explain, refuse, account_id, or_root, with_account, with_place, start, run,
}
use gdrive_turbo_copy.Copier.Run.Moving.{Moving-run}

pub nonempty_of : (l : List String) → (l ≡ [] → ⊥) → is_nonempty l ≡ true
nonempty_of [] h = absurd (h refl)
nonempty_of (x ∷ l) h = refl

module _ (drive : Drive) (config : CopyConfig) (pages depth : ℕ) where
  -- A run that starts within its budget ends within it, however Drive answers and however the run ends:
  -- the bytes reserved fit the configured maximum, the bytes copied are among those reserved, a run
  -- with eight rate-limit failures in a row has been stopped, and a run that is stopped says why.
  pub run-InBudget :
      (e : Engine drive.World)
      → InBudget config (books e)
      → InBudget config (books (run drive config pages depth e).1)
  run-InBudget e = Moves-InBudget drive config ((Moving-run drive config pages depth).at e)

  -- A dry run copies nothing, however Drive answers and however it ends: the number of copied files,
  -- the copied bytes and the bytes reserved are what they were before it.
  pub run-Dry :
      (e : Engine drive.World)
      → config.dry_run ≡ true
      → Dry drive config (books e) (books (run drive config pages depth e).1)
  run-Dry e = Moves-Dry drive config ((Moving-run drive config pages depth).at e)

  -- A walk through a tree that is entered when the run has been stopped leaves it stopped, and handles
  -- no file: nothing is copied, skipped, counted for a dry run or reserved.
  pub process_level-stopped :
      (dest : Option String) (children : List DriveFile) (visited : List String) (parent : String)
      (e : Engine drive.World)
      → e.stop ≡ true
      → ((process_level drive config pages depth dest children visited parent e).1.stop ≡ true)
        × Untouched
            (books e)
            (books (process_level drive config pages depth dest children visited parent e).1)
  process_level-stopped dest children visited parent e =
      Moves-stopped drive config
        ((Moving-process_level drive config pages depth dest children visited parent).at e)

  -- A configuration that is not valid ends the run at once: Drive is not called, the result is returned
  -- with a reason, and nothing else changes.
  pub run-invalid :
      (e : Engine drive.World)
      → (IsValid config → ⊥)
      → (reason : String) × (run drive config pages depth e
          ≡ (done (record (e.result) { stop_reason = some reason }), explain reason e))
  unfolding run refuse
  run-invalid e invalid = (
    "Invalid input: " <> join "; " (validate drive.show_float config),
    rw
        (nonempty_of (validate drive.show_float config)
          (λ h. invalid ((validate_iff drive.show_float config).0 h)))
        refl,
  )

  module _ (P : drive.World → Type 0) (asked : (w : drive.World) → P w → P (drive.about_user w).1)
      (looked : (id : String) (w : drive.World) → P w → P (drive.get_metadata id w).1) where
    Kept-or_root :
        (r : Reply (Option String)) (e : Engine drive.World)
        → P e.world
        → Kept P (or_root drive r e)
    Kept-or_root (failed exc) e p = looked "root" e.world p
    Kept-or_root (reply email) e p =
        Kept-fork P (is_set email) (pure email) _ e p (looked "root" e.world p)

    Kept-account_id : (e : Engine drive.World) → P e.world → Kept P (account_id drive e)
    unfolding account_id
    Kept-account_id e p =
        Kept-or_root (drive.about_user e.world).0
          (record e { world = (drive.about_user e.world).1 }) (asked e.world p)

    Kept-with_account :
        (id : String) (account : Option String) (e : Engine drive.World)
        → P e.world
        → Kept P (with_account drive config pages depth id id account e)
    unfolding with_account with_place refuse
    Kept-with_account id account e p = rw (==_refl id) p

    -- Whatever of Drive stays the same when the account is asked for and when metadata is read stays
    -- the same in a run whose two links name one folder: such a run makes no folder, copies no file
    -- and writes no log.
    pub run-same :
        (id : String) (e : Engine drive.World)
        → extract_folder_id config.source_link ≡ some id
        → extract_folder_id config.dest_link ≡ some id
        → P e.world
        → P (run drive config pages depth e).1.world
    unfolding run refuse start
    run-same id e source dest p =
        Kept-if P (is_nonempty (validate drive.show_float config)) _ _ (λ t. p)
          (rw (source, dest)
            (Kept-continue P (account_id drive e) _ (Kept-account_id e p) (Kept-with_account id)))
