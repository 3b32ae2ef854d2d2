-- ===== src/Copier/Files/Effect.antt =====
-- `_copy_file` takes one step of the abstract books, whatever Drive answers.
pub mod Step
mod Failing
mod Sending
mod Reserving
pub mod Budget
use gdrive_turbo_copy.Prelude.{
  ℕ, ◌+◌, ◌≡◌, ◌⊎◌, ◌∙◌, refl, sym, ap, subst, Bool, true, false, Option, none, some, List, String,
  arith, length, ltb, Bool-cases, inl, inr, or_else, if◌then◌else◌,
}
use gdrive_turbo_copy.Prelude.Sets.{add, discard, contains}
use gdrive_turbo_copy.Models.DriveFile.{DriveFile}
use gdrive_turbo_copy.Models.Config.{CopyConfig}
use gdrive_turbo_copy.Retry.Errors.{quota_stopped}
use gdrive_turbo_copy.Index.{DestinationIndex, Popped, pop_by_app_prop, pop_match}
use mathlib.Core.Option.{none-ne-some}
use gdrive_turbo_copy.Index.Match.{pop_by_app_prop-none, pop_match_keyed}
use gdrive_turbo_copy.Copier.Drive.{Drive}
use gdrive_turbo_copy.Copier.Engine.{
  Engine, Outcome, done, raised, out_of_fuel, Action, continue, ◌>>=◌, ◌>>◌, modify,
}
use gdrive_turbo_copy.Copier.Book.{reconcile_failed, record_existing, stop_with}
use gdrive_turbo_copy.Copier.Book.Frame.{
  Books, books, record_existing-books, record_failed-books, reconcile_failed-books,
}
use gdrive_turbo_copy.Copier.Checks.{or_zero, over_budget, max_single_file}
use gdrive_turbo_copy.Copier.Files.{
  send_copy, reserve, copy_new, settle_match, match_or_copy, settle_trusted, copy_file, budget_text,
}
use gdrive_turbo_copy.Copier.Files.Effect.Step.{
  Site, Present, Skipped, Steps, CopyStep, returns, skips, fails, previews, stops,
}
use gdrive_turbo_copy.Copier.Files.Effect.Reserving.{copy_new-Steps}

-- The log may have forgotten the file first, when it named one that the destination does not have.
abbrev pub Forgets : String → Books → Books → Type 0
Forgets eff b b' = (b' ≡ b) ⊎ (b' ≡ record b { copied_ids = discard eff b.copied_ids })

module _ (drive : Drive) (config : CopyConfig) (src : DriveFile) (shortcut_id : Option String)
    (site : Site drive) where
  abbrev eff : String
  eff = or_else shortcut_id src.id

  abbrev Stepped : {A : Type 0} → Books → Outcome A × Engine drive.World → Type 0
  Stepped = Steps drive config src shortcut_id site

  -- A result that is handed on keeps the step.
  Steps-pure :
      {A B : Type 0} (b : Books) (out : Outcome A × Engine drive.World) (result : B)
      → Stepped b out
      → Stepped b (continue out (λ _ e. (done result, e)))
  Steps-pure b (done a, e) result s = s
  Steps-pure b (raised x, e) result s = s
  Steps-pure b (out_of_fuel, e) result s = s

  module _ (parent : String) where
    matched-books :
        (e : Engine drive.World)
        → books (reconcile_failed eff src (record_existing drive config eff e)) ≡ record (books e) {
          skipped = e.result.skipped_count + 1;
          copied_ids = add eff e.resume_state.copied_ids;
        }
    matched-books e = reconcile_failed-books eff src _ ∙ record_existing-books drive config eff e

    abbrev popped : Popped
    popped = pop_match src config.verify_mode config.allow_name_only eff site.index

    -- A step of the books, which skips the file if it is there.
    abbrev Finishes : {A : Type 0} → Books → Outcome A × Engine drive.World → Type 0
    Finishes b out =
        Stepped b out
        × (Present drive config src shortcut_id site
            → Skipped drive config src shortcut_id site b out)

    settle_match-Finishes :
        (p : Popped) (e : Engine drive.World)
        → popped ≡ p
        → e.world ≡ site.world
        → Finishes (books e) (settle_match drive config site.dest src parent shortcut_id p e)
    settle_match-Finishes (some item, index) e q same =
        (skips (item, ap (λ p. p.0) q) (matched-books e), λ present. matched-books e)
    settle_match-Finishes (none, index) e q same = (
      Steps-pure (books e) (copy_new drive config site.dest src parent shortcut_id e) index
          (copy_new-Steps drive config src shortcut_id site parent e same),
      λ (item, there). absurd (none-ne-some _ (sym (ap (λ p. p.0) q) ∙ there)),
    )

    match_or_copy-Finishes :
        (e : Engine drive.World)
        → e.world ≡ site.world
        → Finishes
            (books e)
            (match_or_copy drive config site.dest src site.index parent shortcut_id e)
    unfolding match_or_copy
    match_or_copy-Finishes e same = settle_match-Finishes popped e refl same

    -- The books from which the step is taken, with the step. A file that is there is skipped.
    abbrev pub Takes : {A : Type 0} → Books → Outcome A × Engine drive.World → Type 0
    Takes b out = (b' : Books) × Forgets eff b b' × Finishes b' out

    skip_trusted : Engine drive.World → Engine drive.World
    skip_trusted e =
        reconcile_failed eff src
          (record e { result = record (e.result) { skipped_count = e.result.skipped_count + 1 } })

    trusted-books :
        (e : Engine drive.World)
        → contains eff e.resume_state.copied_ids ≡ true
        → books (skip_trusted e) ≡ record (books e) {
          skipped = e.result.skipped_count + 1;
          copied_ids = add eff e.resume_state.copied_ids;
        }
    unfolding skip_trusted add
    trusted-books e known = reconcile_failed-books eff src _ ∙ rw known

    settle_trusted-Takes :
        (p : Popped) (e : Engine drive.World)
        → pop_by_app_prop eff site.index ≡ p
        → e.world ≡ site.world
        → contains eff e.resume_state.copied_ids ≡ true
        → Takes (books e) (settle_trusted drive config site.dest src parent shortcut_id p e)
    unfolding skip_trusted
    settle_trusted-Takes (some item, index) e q same known =
        let there =
          pop_match_keyed src config.verify_mode config.allow_name_only eff site.index item
            (ap (λ p. p.0) q) in
        (
          books e,
          inl refl,
          (skips (item, there) (trusted-books e known), λ present. trusted-books e known),
        )
    settle_trusted-Takes (none, index) e q same known =
        let left : index ≡ site.index =
          sym (ap (λ p. p.1) q) ∙ pop_by_app_prop-none eff site.index (ap (λ p. p.0) q) in
        rw left (_, inr refl, match_or_copy-Finishes _ same)

    copy_file_known :
        (e : Engine drive.World)
        → e.stop ≡ false
        → contains eff e.resume_state.copied_ids ≡ true
        → copy_file drive config site.dest src site.index parent shortcut_id e
          ≡ settle_trusted drive config site.dest src parent shortcut_id
              (pop_by_app_prop eff site.index)
              e
    unfolding copy_file
    copy_file_known e running known = simp (running, known)

    copy_file_new :
        (e : Engine drive.World)
        → e.stop ≡ false
        → contains eff e.resume_state.copied_ids ≡ false
        → copy_file drive config site.dest src site.index parent shortcut_id e
          ≡ match_or_copy drive config site.dest src site.index parent shortcut_id e
    unfolding copy_file
    copy_file_new e running new = simp (running, new)

    copy_file-Takes_running :
        (e : Engine drive.World)
        → e.world ≡ site.world
        → e.stop ≡ false
        → Takes (books e) (copy_file drive config site.dest src site.index parent shortcut_id e)
    copy_file-Takes_running e same running =
        elim (Bool-cases (contains eff e.resume_state.copied_ids)) [
          | inl known ↦
              subst (Takes (books e)) (sym (copy_file_known e running known))
                (settle_trusted-Takes (pop_by_app_prop eff site.index) e refl same known)
          | inr new ↦
              subst (Takes (books e)) (sym (copy_file_new e running new))
                (books e, inl refl, match_or_copy-Finishes e same)
        ]

module _ (drive : Drive) (config : CopyConfig) (src : DriveFile) (shortcut_id : Option String)
    (dest : Option String) (parent : String) where
  -- The site of a call: its folder, its index, and Drive as the call finds it.
  abbrev pub site_of : DestinationIndex → Engine drive.World → Site drive
  site_of index e = record { dest = dest; index = index; world = e.world }

  -- A stopped engine is left alone. Otherwise `_copy_file` ends, whatever Drive answers, in one step
  -- of the abstract books, taken once the log has forgotten the file or right away: it skips a file
  -- that has a match in the index, enters a failure, counts a preview, counts a copy that was within
  -- the budget and whose own metadata agree with the source, stops the run with a reason, or hands
  -- an exception on. An engine that runs skips a file that has a match.
  pub copy_file-Takes :
      (index : DestinationIndex) (e : Engine drive.World)
      → let out = copy_file drive config dest src index parent shortcut_id e in
        ((e.stop ≡ true) × (out ≡ (done index, e)))
        ⊎ ((e.stop ≡ false)
            × Takes drive config src shortcut_id (site_of index e) parent (books e) out)
  unfolding copy_file
  copy_file-Takes index e = elim (Bool-cases e.stop) [
    | inl stopped ↦ inl (stopped, simp stopped)
    | inr running ↦ inr (
      running,
      copy_file-Takes_running drive config src shortcut_id (site_of index e) parent e refl running,
    )
  ]
