-- ===== src/Copier/Files/Effect/Budget.antt =====
-- The invariant of the books under the abstract step: bytes stay within the budget, the bytes copied
-- are among those reserved, and a stop has its reason.
use gdrive_turbo_copy.Prelude.{
  ℕ, ◌+◌, ◌≤◌, ◌<◌, ◌≡◌, ◌⊎◌, ◌∙◌, sym, ap, refl, true, false, Option, String, arith, is_some, inl,
  inr,
}
use mathlib.Core.Bool.{false≢true}
use gdrive_turbo_copy.Models.DriveFile.{DriveFile}
use gdrive_turbo_copy.Models.Config.{CopyConfig}
use gdrive_turbo_copy.Copier.Drive.{Drive}
use gdrive_turbo_copy.Copier.Book.Frame.{Books}
use gdrive_turbo_copy.Copier.Checks.{over_budget}
use gdrive_turbo_copy.Copier.Files.Effect.Step.{
  CopyStep, Site, End, returns, skips, fails, previews, copies, stops, unwinds, Streak, Verified,
}

-- What holds of the books between two files, and after a raise.
pub record InBudget (config : CopyConfig) (b : Books) : Type 0 where
  pub fits : over_budget config.max_copy_size_gb b.run_bytes ≡ false
  pub paid : b.copied_bytes ≤ b.run_bytes
  pub calm : (b.streak < 8) ⊎ (b.stop ≡ true)
  pub explained : b.stop ≡ true → is_some b.stop_reason ≡ true

-- The files that the run has dealt with, in one way or another.
abbrev pub handled : Books → ℕ
handled b = b.copied + b.skipped + b.failed + b.would_copy

module _ (drive : Drive) (config : CopyConfig) (src : DriveFile) (shortcut_id : Option String)
    (site : Site drive) where
  Streak-calm :
      (b : Books) (n : ℕ)
      → Streak b.streak n
      → (b.streak < 8) ⊎ (b.stop ≡ true)
      → (n < 8) ⊎ (b.stop ≡ true)
  Streak-calm b n s calm = ground arith

  -- Every step keeps the invariant.
  pub CopyStep-InBudget :
      {b b' : Books} {end : End}
      → CopyStep drive config src shortcut_id site b b' end
      → InBudget config b
      → InBudget config b'
  CopyStep-InBudget {b} (skips present e) v =
      rw e (record { fits = v.fits; paid = v.paid; calm = v.calm; explained = v.explained })
  CopyStep-InBudget {b} (fails n s e) v = rw e (record {
    fits = v.fits;
    paid = v.paid;
    calm = Streak-calm b n s v.calm;
    explained = v.explained;
  })
  CopyStep-InBudget (previews dry e) v =
      rw e (record { fits = v.fits; paid = v.paid; calm = v.calm; explained = v.explained })
  CopyStep-InBudget (copies real within verified e) v = rw e (record {
    fits = within;
    paid = omega (arith, v.paid);
    calm = inl (omega arith);
    explained = v.explained;
  })
  CopyStep-InBudget (stops n reason real s e) v =
      rw e (record { fits = v.fits; paid = v.paid; calm = inr refl; explained = λ _. refl })
  CopyStep-InBudget (unwinds x real within e) v = rw e (record {
    fits = within;
    paid = omega (arith, v.paid);
    calm = v.calm;
    explained = v.explained;
  })

  -- A step that returns deals with exactly one file, copies what it reserves, and stops nothing.
  pub CopyStep-handled :
      {b b' : Books}
      → CopyStep drive config src shortcut_id site b b' returns
      → (handled b' ≡ handled b + 1)
        × (b'.run_bytes + b.copied_bytes ≡ b.run_bytes + b'.copied_bytes)
        × (b'.stop ≡ b.stop)
  CopyStep-handled (skips present e) = rw e (omega arith, omega arith, refl)
  CopyStep-handled (fails n s e) = rw e (omega arith, omega arith, refl)
  CopyStep-handled (previews dry e) = rw e (omega arith, omega arith, refl)
  CopyStep-handled (copies real within verified e) = rw e (omega arith, omega arith, refl)

  -- In a dry run every step returns, and no byte is reserved and no copy counted.
  pub CopyStep-dry :
      {b b' : Books} {end : End}
      → CopyStep drive config src shortcut_id site b b' end
      → config.dry_run ≡ true
      → (end ≡ returns)
        × (b'.copied ≡ b.copied)
        × (b'.run_bytes ≡ b.run_bytes)
        × (b'.copied_bytes ≡ b.copied_bytes)
        × (b'.stop ≡ b.stop)
  CopyStep-dry (skips present e) dry = rw e (refl, refl, refl, refl, refl)
  CopyStep-dry (fails n s e) dry = rw e (refl, refl, refl, refl, refl)
  CopyStep-dry (previews _ e) dry = rw e (refl, refl, refl, refl, refl)
  CopyStep-dry (copies real within verified e) dry = absurd (false≢true (sym real ∙ dry))
  CopyStep-dry (stops n reason real s e) dry = absurd (false≢true (sym real ∙ dry))
  CopyStep-dry (unwinds x real within e) dry = absurd (false≢true (sym real ∙ dry))

  -- Where the count of copies grows, the copy was verified.
  pub CopyStep-Verified :
      {b b' : Books} {end : End}
      → CopyStep drive config src shortcut_id site b b' end
      → b.copied < b'.copied
      → Verified drive config src shortcut_id site
  CopyStep-Verified (copies real within verified e) more = verified
  CopyStep-Verified (skips present e) more = absurd (omega (arith, ap (λ b. b.copied) e))
  CopyStep-Verified (fails n s e) more = absurd (omega (arith, ap (λ b. b.copied) e))
  CopyStep-Verified (previews _ e) more = absurd (omega (arith, ap (λ b. b.copied) e))
  CopyStep-Verified (stops n reason real s e) more = absurd (omega (arith, ap (λ b. b.copied) e))
  CopyStep-Verified (unwinds x real within e) more = absurd (omega (arith, ap (λ b. b.copied) e))
