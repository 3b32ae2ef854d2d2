-- ===== src/Copier/Files/Effect/Step.antt =====
-- The step that one call of `_copy_file` takes on the books.
use gdrive_turbo_copy.Prelude.{
  ℕ, ◌+◌, ◌≤◌, ◌<◌, ◌≡◌, ◌⊎◌, true, false, Option, none, some, String, or_else, is_set,
}
use gdrive_turbo_copy.Prelude.Sets.{add}
use gdrive_turbo_copy.Models.DriveFile.{DriveFile, FileReply, from_api}
use gdrive_turbo_copy.Models.Config.{CopyConfig}
use gdrive_turbo_copy.Retry.Errors.{Exc, quota_stopped}
use gdrive_turbo_copy.Retry.Loop.{Reply, reply}
use gdrive_turbo_copy.Copier.Drive.{Drive}
use gdrive_turbo_copy.Copier.Engine.{Engine, Outcome, done, raised, out_of_fuel}
use gdrive_turbo_copy.Copier.Book.Frame.{Books, books}
use gdrive_turbo_copy.Index.{DestinationIndex, Item, pop_match}
use gdrive_turbo_copy.Copier.Files.{copy_body}
use gdrive_turbo_copy.Copier.Checks.{or_zero, over_budget, compare_copy}

-- How a call ends.
pub data End : Type 0 where
  returns : End
  raises : Exc → End

-- What a failed copy makes of the streak of rate limits: a rate limit extends it, short of the
-- eighth, anything else about the copy ends it, and a file that is too large leaves it.
abbrev pub Streak : ℕ → ℕ → Type 0
Streak before after = (after ≡ before) ⊎ (after ≡ 0) ⊎ ((after ≡ before + 1) × (before + 1 < 8))

-- Where and when a file is copied: the folder, its index, and the state of Drive as the call starts.
pub record Site (drive : Drive) : Type 0 where
  pub dest : Option String
  pub index : DestinationIndex
  pub world : drive.World

module _ (drive : Drive) (config : CopyConfig) (src : DriveFile) (shortcut_id : Option String)
    (site : Site drive) where
  abbrev pub size : ℕ
  size = or_zero src.size

  abbrev pub eff : String
  eff = or_else shortcut_id src.id

  -- The answer to the copy request for this file, and Drive after it.
  abbrev pub copy_answer : Reply (Option String) × drive.World
  copy_answer =
      drive.copy_file src.id (copy_body drive config site.dest src shortcut_id)
        config.ignore_default_visibility config.keep_revision_forever site.world

  -- The request gave the id of a copy; asked for that very id right after it, Drive described a
  -- file that agrees with the source.
  abbrev pub Verified : Type 0
  Verified =
      (new_id : Option String) × (meta : FileReply) × (copy_answer.0 ≡ reply new_id)
      × (is_set new_id ≡ true)
      × ((drive.get_metadata (or_else new_id "") copy_answer.1).0 ≡ reply meta)
      × (compare_copy src shortcut_id (from_api meta) ≡ none)

  -- The index has a file that matches the source.
  abbrev pub Present : Type 0
  Present =
      (item : Item) × ((pop_match src config.verify_mode config.allow_name_only eff site.index).0
        ≡ some item)

  -- One file, on the books.
  pub data CopyStep (b b' : Books) : End → Type 0 where
    skips :
        Present
        → b' ≡ record b { skipped = b.skipped + 1; copied_ids = add eff b.copied_ids }
        → CopyStep b b' returns
    fails :
        (streak : ℕ)
        → Streak b.streak streak
        → b' ≡ record b { failed = b.failed + 1; streak = streak }
        → CopyStep b b' returns
    previews :
        config.dry_run ≡ true
        → b' ≡ record b { would_copy = b.would_copy + 1 }
        → CopyStep b b' returns
    copies :
        config.dry_run ≡ false
        → over_budget config.max_copy_size_gb (b.run_bytes + size) ≡ false
        → Verified
        → b' ≡ record b {
          run_bytes = b.run_bytes + size;
          streak = 0;
          copied = b.copied + 1;
          copied_bytes = b.copied_bytes + size;
          copied_ids = add eff b.copied_ids;
        }
        → CopyStep b b' returns
    stops :
        (streak : ℕ) (reason : String)
        → config.dry_run ≡ false
        → (streak ≡ b.streak) ⊎ ((streak ≡ b.streak + 1) × (8 ≤ streak))
        → b' ≡ record b { stop = true; stop_reason = some reason; streak = streak }
        → CopyStep b b' (raises (quota_stopped (some reason)))
    unwinds :
        (x : Exc)
        → config.dry_run ≡ false
        → over_budget config.max_copy_size_gb (b.run_bytes + size) ≡ false
        → b' ≡ record b { run_bytes = b.run_bytes + size }
        → CopyStep b b' (raises x)

  abbrev pub Steps : {A : Type 0} → Books → Outcome A × Engine drive.World → Type 0
  Steps b (done _, e') = CopyStep b (books e') returns
  Steps b (raised x, e') = CopyStep b (books e') (raises x)
  Steps b (out_of_fuel, e') = ⊥

  -- The call returned, having counted the file as skipped and entered it in the log, and no more.
  abbrev pub Skipped : {A : Type 0} → Books → Outcome A × Engine drive.World → Type 0
  Skipped b (done _, e') =
      books e' ≡ record b { skipped = b.skipped + 1; copied_ids = add eff b.copied_ids }
  Skipped b (raised x, e') = ⊥
  Skipped b (out_of_fuel, e') = ⊥
