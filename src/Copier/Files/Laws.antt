-- ===== src/Copier/Files/Laws.antt =====
-- What `_copy_file` does to the run, read off its step on the books.
use gdrive_turbo_copy.Prelude.{
  ◌+◌, ◌<◌, ◌≡◌, ◌∙◌, refl, sym, ap, subst, true, false, Option, String, arith, inl, inr, or_else,
}
use mathlib.Core.Bool.{false≢true}
use gdrive_turbo_copy.Models.DriveFile.{DriveFile}
use gdrive_turbo_copy.Models.Config.{CopyConfig}
use gdrive_turbo_copy.Retry.Errors.{Exc}
use gdrive_turbo_copy.Index.{DestinationIndex}
use gdrive_turbo_copy.Copier.Drive.{Drive}
use gdrive_turbo_copy.Copier.Engine.{Engine, Outcome, done, raised, out_of_fuel}
use gdrive_turbo_copy.Copier.Book.Frame.{Books, books}
use gdrive_turbo_copy.Copier.Files.{copy_file}
use gdrive_turbo_copy.Copier.Files.Effect.{Forgets, copy_file-Takes, site_of}
use gdrive_turbo_copy.Copier.Files.Effect.Step.{CopyStep, Site, Steps, returns, raises, Verified}
use gdrive_turbo_copy.Copier.Files.Effect.Budget.{
  InBudget, handled, CopyStep-InBudget, CopyStep-handled, CopyStep-dry, CopyStep-Verified,
}

-- The call returned; it was not ended by an exception.
abbrev pub Returned : {A : Type 0} → Outcome A → Type 0
Returned (done _) = Unit {0}
Returned _ = ⊥

Forgets-InBudget :
    (config : CopyConfig) (eff : String) (b b' : Books)
    → Forgets eff b b'
    → InBudget config b
    → InBudget config b'
Forgets-InBudget config eff b b' (inl same) v = subst (InBudget config) (sym same) v
Forgets-InBudget config eff b b' (inr less) v =
    rw less (record { fits = v.fits; paid = v.paid; calm = v.calm; explained = v.explained })

Forgets-kept :
    (eff : String) (b b' : Books)
    → Forgets eff b b'
    → (b'.copied ≡ b.copied)
      × (b'.run_bytes ≡ b.run_bytes)
      × (b'.copied_bytes ≡ b.copied_bytes)
      × (b'.stop ≡ b.stop)
      × (handled b' ≡ handled b)
Forgets-kept eff b b' (inl same) = rw same (refl, refl, refl, refl, refl)
Forgets-kept eff b b' (inr less) = rw less (refl, refl, refl, refl, refl)

raises-ne-returns : {x : Exc} → ¬ (raises x ≡ returns)
raises-ne-returns p = cc

module _ (drive : Drive) (config : CopyConfig) (src : DriveFile) (shortcut_id : Option String)
    (site : Site drive) where
  Steps-InBudget :
      {A : Type 0} (b : Books) (out : Outcome A × Engine drive.World)
      → Steps drive config src shortcut_id site b out
      → InBudget config b
      → InBudget config (books out.1)
  Steps-InBudget b (done a, e) s v = CopyStep-InBudget drive config src shortcut_id site s v
  Steps-InBudget b (raised x, e) s v = CopyStep-InBudget drive config src shortcut_id site s v
  Steps-InBudget b (out_of_fuel, e) s v = absurd s

  Steps-handled :
      {A : Type 0} (b : Books) (out : Outcome A × Engine drive.World)
      → Steps drive config src shortcut_id site b out
      → Returned out.0
      → CopyStep drive config src shortcut_id site b (books out.1) returns
  Steps-handled b (done a, e) s r = s
  Steps-handled b (raised x, e) s r = absurd r
  Steps-handled b (out_of_fuel, e) s r = absurd s

  Steps-dry :
      {A : Type 0} (b : Books) (out : Outcome A × Engine drive.World)
      → Steps drive config src shortcut_id site b out
      → config.dry_run ≡ true
      → Returned out.0
        × ((books out.1).copied ≡ b.copied)
        × ((books out.1).run_bytes ≡ b.run_bytes)
        × ((books out.1).copied_bytes ≡ b.copied_bytes)
        × ((books out.1).stop ≡ b.stop)
  Steps-dry b (done a, e) s dry =
      let (_, copied, run, bytes, stop) = CopyStep-dry drive config src shortcut_id site s dry in
      (tt, copied, run, bytes, stop)
  Steps-dry b (raised x, e) s dry =
      absurd (raises-ne-returns (CopyStep-dry drive config src shortcut_id site s dry).0)
  Steps-dry b (out_of_fuel, e) s dry = absurd s

  Steps-Verified :
      {A : Type 0} (b : Books) (out : Outcome A × Engine drive.World)
      → Steps drive config src shortcut_id site b out
      → b.copied < (books out.1).copied
      → Verified drive config src shortcut_id site
  Steps-Verified b (done a, e) s more = CopyStep-Verified drive config src shortcut_id site s more
  Steps-Verified b (raised x, e) s more = CopyStep-Verified drive config src shortcut_id site s more
  Steps-Verified b (out_of_fuel, e) s more = absurd s

module _ (drive : Drive) (config : CopyConfig) (src : DriveFile) (shortcut_id : Option String) where
  module _ (dest : Option String) (parent : String) (index : DestinationIndex) where
    abbrev here : Engine drive.World → Site drive
    here e = site_of drive config src shortcut_id dest parent index e

    -- Whatever Drive answers, and however the call ends, `_copy_file` keeps the books in order: the
    -- bytes reserved stay within the budget, the bytes copied are among them, eight rate limits in
    -- a row leave the run stopped, and a stopped run has its reason.
    pub copy_file-InBudget :
        (e : Engine drive.World)
        → InBudget config (books e)
        → InBudget config (books (copy_file drive config dest src index parent shortcut_id e).1)
    copy_file-InBudget e v =
        elim (copy_file-Takes drive config src shortcut_id dest parent index e) [
          | inl (stopped, same) ↦ subst (λ out. InBudget config (books out.1)) (sym same) v
          | inr (running, (b, forgets, (steps, _))) ↦
              Steps-InBudget drive config src shortcut_id (here e) b
                (copy_file drive config dest src index parent shortcut_id e) steps
                (Forgets-InBudget config (or_else shortcut_id src.id) (books e) b forgets v)
        ]

    -- A call that returns, on an engine that runs, deals with exactly one file: it counts as copied,
    -- skipped, failed or previewed. The bytes it leaves reserved are the bytes it counts as copied,
    -- and the engine still runs.
    pub copy_file-handled :
        (e : Engine drive.World)
        → e.stop ≡ false
        → let out = copy_file drive config dest src index parent shortcut_id e in
          Returned out.0
          → (handled (books out.1) ≡ handled (books e) + 1)
            × (out.1.run_bytes + e.result.copied_bytes ≡ e.run_bytes + out.1.result.copied_bytes)
            × (out.1.stop ≡ false)
    copy_file-handled e running returned =
        elim (copy_file-Takes drive config src shortcut_id dest parent index e) [
          | inl (stopped, same) ↦ absurd (false≢true (sym running ∙ stopped))
          | inr (_, (b, forgets, (steps, _))) ↦
              let (same_copied, same_run, same_bytes, same_stop, same_handled) =
                Forgets-kept (or_else shortcut_id src.id) (books e) b forgets in
              let (more, paid, still) = CopyStep-handled drive config src shortcut_id (here e) (
                Steps-handled drive config src shortcut_id (here e) b
                  (copy_file drive config dest src index parent shortcut_id e) steps returned) in
              (
                more ∙ ap (λ n. n + 1) same_handled,
                omega (arith, paid, same_run, same_bytes),
                still ∙ same_stop ∙ running,
              )
        ]

    -- In a dry run `_copy_file` returns, whatever Drive answers; it reserves no byte, counts no copy
    -- and stops nothing.
    pub copy_file_dry :
        (e : Engine drive.World)
        → config.dry_run ≡ true
        → let out = copy_file drive config dest src index parent shortcut_id e in
          Returned out.0
          × (out.1.result.copied_count ≡ e.result.copied_count)
          × (out.1.run_bytes ≡ e.run_bytes)
          × (out.1.result.copied_bytes ≡ e.result.copied_bytes)
          × (out.1.stop ≡ e.stop)
    copy_file_dry e dry = elim (copy_file-Takes drive config src shortcut_id dest parent index e) [
      | inl (stopped, same) ↦ rw same (tt, refl, refl, refl, refl)
      | inr (_, (b, forgets, (steps, _))) ↦
          let (same_copied, same_run, same_bytes, same_stop, same_handled) =
            Forgets-kept (or_else shortcut_id src.id) (books e) b forgets in
          let (returned, copied, run, bytes, stop) =
            Steps-dry drive config src shortcut_id (here e) b
              (copy_file drive config dest src index parent shortcut_id e) steps dry in
          (returned, copied ∙ same_copied, run ∙ same_run, bytes ∙ same_bytes, stop ∙ same_stop)
    ]

    -- Where `_copy_file` counts one more copy, its request for a copy of the file, made on Drive as
    -- the call found it, gave an id, and Drive, asked for that very id right after the request,
    -- described a file that agrees with the source.
    pub copy_file-Verified :
        (e : Engine drive.World)
        → e.result.copied_count
          < (copy_file drive config dest src index parent shortcut_id e).1.result.copied_count
        → Verified drive config src shortcut_id
            (record { dest = dest; index = index; world = e.world })
    copy_file-Verified e more =
        elim (copy_file-Takes drive config src shortcut_id dest parent index e) [
          | inl (stopped, same) ↦
              absurd (omega (arith, more, ap (λ out. out.1.result.copied_count) same))
          | inr (_, (b, forgets, (steps, _))) ↦
              let (same_copied, same_run, same_bytes, same_stop, same_handled) =
                Forgets-kept (or_else shortcut_id src.id) (books e) b forgets in
              Steps-Verified drive config src shortcut_id (here e) b
                (copy_file drive config dest src index parent shortcut_id e) steps
                (omega (arith, more, same_copied))
        ]
