-- ===== src/Copier/Moves/Laws.antt =====
-- What every sequence of moves keeps.
use gdrive_turbo_copy.Prelude.{◌≤◌, ◌≡◌, ◌∙◌, refl, sym, true, Option, String, arith, inr}
use mathlib.Core.Bool.{false≢true}
use gdrive_turbo_copy.Models.Config.{CopyConfig}
use gdrive_turbo_copy.Models.DriveFile.{DriveFile}
use gdrive_turbo_copy.Copier.Drive.{Drive}
use gdrive_turbo_copy.Copier.Book.Frame.{Books}
use gdrive_turbo_copy.Copier.Files.Effect.Step.{
  CopyStep, Site, End, skips, previews, copies, stops, unwinds,
}
use gdrive_turbo_copy.Copier.Files.Effect.Budget.{InBudget, CopyStep-InBudget, CopyStep-dry}
use gdrive_turbo_copy.Copier.Moves.{Move, Moves, halts, explains, learns, handles, rests, goes_on}

-- No file has been handled between two states of the books.
pub record Untouched (b b' : Books) : Type 0 where
  pub copied : b'.copied ≡ b.copied
  pub skipped : b'.skipped ≡ b.skipped
  pub would_copy : b'.would_copy ≡ b.would_copy
  pub run_bytes : b'.run_bytes ≡ b.run_bytes
  pub copied_bytes : b'.copied_bytes ≡ b.copied_bytes

-- The counts only grow.
pub record Grown (b b' : Books) : Type 0 where
  pub copied : b.copied ≤ b'.copied
  pub skipped : b.skipped ≤ b'.skipped
  pub failed : b.failed ≤ b'.failed
  pub would_copy : b.would_copy ≤ b'.would_copy
  pub copied_bytes : b.copied_bytes ≤ b'.copied_bytes

module _ (drive : Drive) (config : CopyConfig) where
  Move-InBudget : {b b' : Books} → Move drive config b b' → InBudget config b → InBudget config b'
  Move-InBudget (Move.fails e) v =
      rw e (record { fits = v.fits; paid = v.paid; calm = v.calm; explained = v.explained })
  Move-InBudget (halts reason e) v =
      rw e (record { fits = v.fits; paid = v.paid; calm = inr refl; explained = λ _. refl })
  Move-InBudget (explains reason e) v =
      rw e (record { fits = v.fits; paid = v.paid; calm = v.calm; explained = λ _. refl })
  Move-InBudget (learns ids e) v =
      rw e (record { fits = v.fits; paid = v.paid; calm = v.calm; explained = v.explained })
  Move-InBudget (handles src shortcut_id site end running s) v =
      CopyStep-InBudget drive config src shortcut_id site s v

  pub Moves-InBudget :
      {b b' : Books} → Moves drive config b b' → InBudget config b → InBudget config b'
  Moves-InBudget rests v = v
  Moves-InBudget (goes_on m s) v = Move-InBudget s (Moves-InBudget m v)

  Move-stopped :
      {b b' : Books} → Move drive config b b' → b.stop ≡ true → (b'.stop ≡ true) × Untouched b b'
  Move-stopped (Move.fails e) h = rw e (
    h,
    record {
      copied = refl;
      skipped = refl;
      would_copy = refl;
      run_bytes = refl;
      copied_bytes = refl;
    },
  )
  Move-stopped (halts reason e) h = rw e (
    refl,
    record {
      copied = refl;
      skipped = refl;
      would_copy = refl;
      run_bytes = refl;
      copied_bytes = refl;
    },
  )
  Move-stopped (explains reason e) h = rw e (
    h,
    record {
      copied = refl;
      skipped = refl;
      would_copy = refl;
      run_bytes = refl;
      copied_bytes = refl;
    },
  )
  Move-stopped (learns ids e) h = rw e (
    h,
    record {
      copied = refl;
      skipped = refl;
      would_copy = refl;
      run_bytes = refl;
      copied_bytes = refl;
    },
  )
  Move-stopped (handles src shortcut_id site end running s) h =
      absurd (false≢true (sym running ∙ h))

  Untouched-trans : {a b c : Books} → Untouched a b → Untouched b c → Untouched a c
  Untouched-trans u v = record {
    copied = v.copied ∙ u.copied;
    skipped = v.skipped ∙ u.skipped;
    would_copy = v.would_copy ∙ u.would_copy;
    run_bytes = v.run_bytes ∙ u.run_bytes;
    copied_bytes = v.copied_bytes ∙ u.copied_bytes;
  }

  -- Once stopped, a run stays stopped and handles no file any more.
  pub Moves-stopped :
      {b b' : Books} → Moves drive config b b' → b.stop ≡ true → (b'.stop ≡ true) × Untouched b b'
  Moves-stopped rests h = (
    h,
    record {
      copied = refl;
      skipped = refl;
      would_copy = refl;
      run_bytes = refl;
      copied_bytes = refl;
    },
  )
  Moves-stopped (goes_on m s) h =
      let (still, u) = Moves-stopped m h in
      let (still', u') = Move-stopped s still in (still', Untouched-trans u u')

  -- What a dry run leaves alone.
  abbrev pub Dry : Books → Books → Type 0
  Dry b b' =
      (b'.copied ≡ b.copied) × (b'.run_bytes ≡ b.run_bytes) × (b'.copied_bytes ≡ b.copied_bytes)

  Move-Dry : {b b' : Books} → Move drive config b b' → config.dry_run ≡ true → Dry b b'
  Move-Dry (Move.fails e) h = rw e (refl, refl, refl)
  Move-Dry (halts reason e) h = rw e (refl, refl, refl)
  Move-Dry (explains reason e) h = rw e (refl, refl, refl)
  Move-Dry (learns ids e) h = rw e (refl, refl, refl)
  Move-Dry (handles src shortcut_id site end running s) h =
      let (_, copied, run, bytes, _) = CopyStep-dry drive config src shortcut_id site s h in
      (copied, run, bytes)

  pub Moves-Dry : {b b' : Books} → Moves drive config b b' → config.dry_run ≡ true → Dry b b'
  Moves-Dry rests h = (refl, refl, refl)
  Moves-Dry (goes_on m s) h =
      let (copied, run, bytes) = Moves-Dry m h in
      let (copied', run', bytes') = Move-Dry s h in (copied' ∙ copied, run' ∙ run, bytes' ∙ bytes)

  CopyStep-Grown :
      {b b' : Books} {end : End} (src : DriveFile) (shortcut_id : Option String) (site : Site drive)
      → CopyStep drive config src shortcut_id site b b' end
      → Grown b b'
  CopyStep-Grown src shortcut_id site (skips present e) = rw e (omega arith)
  CopyStep-Grown src shortcut_id site (CopyStep.fails n s e) = rw e (omega arith)
  CopyStep-Grown src shortcut_id site (previews dry e) = rw e (omega arith)
  CopyStep-Grown src shortcut_id site (copies real within verified e) = rw e (omega arith)
  CopyStep-Grown src shortcut_id site (stops n reason real s e) = rw e (omega arith)
  CopyStep-Grown src shortcut_id site (unwinds x real within e) = rw e (omega arith)

  Move-Grown : {b b' : Books} → Move drive config b b' → Grown b b'
  Move-Grown (Move.fails e) = rw e (omega arith)
  Move-Grown (halts reason e) = rw e (omega arith)
  Move-Grown (explains reason e) = rw e (omega arith)
  Move-Grown (learns ids e) = rw e (omega arith)
  Move-Grown (handles src shortcut_id site end running s) = CopyStep-Grown src shortcut_id site s

  Grown-trans : {a b c : Books} → Grown a b → Grown b c → Grown a c
  Grown-trans u v = omega (
    arith, u.copied, v.copied, u.skipped, v.skipped, u.failed, v.failed, u.would_copy, v.would_copy,
    u.copied_bytes, v.copied_bytes,
  )

  -- No move takes back a count.
  pub Moves-Grown : {b b' : Books} → Moves drive config b b' → Grown b b'
  Moves-Grown rests = omega arith
  Moves-Grown (goes_on m s) = Grown-trans (Moves-Grown m) (Move-Grown s)
