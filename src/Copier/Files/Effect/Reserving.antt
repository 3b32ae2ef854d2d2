-- ===== src/Copier/Files/Effect/Reserving.antt =====
-- The stages before the request: the largest file, the preview, the reservation.
use gdrive_turbo_copy.Prelude.{
  ℕ, ◌+◌, ◌≡◌, refl, true, false, Option, some, String, ltb, Bool-cases, inl, inr,
}
use gdrive_turbo_copy.Models.DriveFile.{DriveFile}
use gdrive_turbo_copy.Models.Config.{CopyConfig}
use gdrive_turbo_copy.Retry.Errors.{quota_stopped}
use gdrive_turbo_copy.Copier.Drive.{Drive}
use gdrive_turbo_copy.Copier.Engine.{Engine, Outcome, done, raised, continue}
use gdrive_turbo_copy.Copier.Book.{stop_with}
use gdrive_turbo_copy.Copier.Book.Frame.{Books, books, record_failed-books}
use gdrive_turbo_copy.Copier.Checks.{or_zero, over_budget, max_single_file}
use gdrive_turbo_copy.Copier.Files.{send_copy, reserve, copy_new, budget_text}
use gdrive_turbo_copy.Copier.Files.Effect.Step.{Site, Steps, fails, previews, stops}
use gdrive_turbo_copy.Copier.Files.Effect.Sending.{send_copy-Steps}

module _ (drive : Drive) (config : CopyConfig) (src : DriveFile) (shortcut_id : Option String)
    (site : Site drive) where
  abbrev size : ℕ
  size = or_zero src.size

  abbrev Stepped : {A : Type 0} → Books → Outcome A × Engine drive.World → Type 0
  Stepped = Steps drive config src shortcut_id site

  module _ (parent : String) where
    reserve_over :
        (e : Engine drive.World)
        → over_budget config.max_copy_size_gb (e.run_bytes + size) ≡ true
        → reserve drive config src e ≡ (
          raised (quota_stopped (some (budget_text drive config src))),
          stop_with (budget_text drive config src) e,
        )
    unfolding reserve
    reserve_over e h = rw h

    reserve_fits :
        (e : Engine drive.World)
        → over_budget config.max_copy_size_gb (e.run_bytes + size) ≡ false
        → reserve drive config src e ≡ (done tt, record e { run_bytes = e.run_bytes + size })
    unfolding reserve
    reserve_fits e h = rw h

    reserve-Steps :
        (e : Engine drive.World)
        → e.world ≡ site.world
        → config.dry_run ≡ false
        → Stepped (books e) (
            continue
              (reserve drive config src e)
              (λ _. send_copy drive config site.dest src parent shortcut_id))
    unfolding stop_with
    reserve-Steps e same real =
        elim (Bool-cases (over_budget config.max_copy_size_gb (e.run_bytes + size))) [
          | inl over ↦ rw (reserve_over e over) (stops e.consec_rate_fail _ real (inl refl) refl)
          | inr fits ↦
              rw (reserve_fits e fits)
                (send_copy-Steps drive config src shortcut_id site parent e same real fits)
        ]

    pub copy_new-Steps :
        (e : Engine drive.World)
        → e.world ≡ site.world
        → Stepped (books e) (copy_new drive config site.dest src parent shortcut_id e)
    unfolding copy_new
    copy_new-Steps e same = elim (Bool-cases (ltb max_single_file size)) [
      | inl large ↦
          rw large
            (fails e.consec_rate_fail (inl refl) (record_failed-books drive config src _ _ _ e))
      | inr fits ↦ elim (Bool-cases config.dry_run) [
        | inl dry ↦ rw fits (simp dry (previews dry refl))
        | inr real ↦ rw fits (simp real (reserve-Steps e same real))
      ]
    ]
