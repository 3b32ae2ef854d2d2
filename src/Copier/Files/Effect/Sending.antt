-- ===== src/Copier/Files/Effect/Sending.antt =====
-- The stages after the reservation: the request, its answer, the verification.
use gdrive_turbo_copy.Prelude.{
  ℕ, ◌+◌, ◌≡◌, ◌∙◌, refl, subst, true, false, Option, none, some, String, arith, Bool-cases, inl,
  inr, or_else, is_set, ◌<>◌,
}
use mathlib.Core.Option.{some-ne-none}
use gdrive_turbo_copy.Models.DriveFile.{DriveFile, FileReply, from_api}
use gdrive_turbo_copy.Models.AppProperties.{validate_app_properties}
use gdrive_turbo_copy.Models.Config.{CopyConfig}
use gdrive_turbo_copy.Retry.Errors.{Exc, quota_stopped, value_error, text_of, http, runtime_error}
use gdrive_turbo_copy.Retry.Loop.{Reply, reply, failed}
use gdrive_turbo_copy.Copier.Drive.{Drive}
use gdrive_turbo_copy.Copier.Engine.{Engine, Outcome, done, continue, ◌>>=◌, call}
use gdrive_turbo_copy.Copier.Book.{release_reservation}
use gdrive_turbo_copy.Copier.Book.Frame.{
  books, mark_copied-books, record_failed-books, reconcile_failed-books,
}
use gdrive_turbo_copy.Copier.Checks.{or_zero, over_budget, compare_copy, copy_properties}
use gdrive_turbo_copy.Copier.Failure.{handle_copy_exception}
use gdrive_turbo_copy.Copier.Files.{judge, verify_copy, settle, finish_copy, send_copy}
use gdrive_turbo_copy.Copier.Files.Effect.Failing.{handle_copy_exception-Steps}
use gdrive_turbo_copy.Copier.Files.Effect.Step.{
  Site, Steps, Verified, copy_answer, fails, copies, unwinds,
}

module _ (drive : Drive) (config : CopyConfig) (src : DriveFile) (shortcut_id : Option String)
    (site : Site drive) where
  abbrev eff : String
  eff = or_else shortcut_id src.id

  abbrev size : ℕ
  size = or_zero src.size

  module _ (parent : String) where
    -- The books with the bytes of this file reserved, and given back.
    abbrev reserved : Engine drive.World → Engine drive.World
    reserved e = record e { run_bytes = e.run_bytes + size }

    released :
        (e : Engine drive.World) (w : drive.World)
        → books (release_reservation size (record (reserved e) { world = w })) ≡ books e
    unfolding release_reservation
    released e w = ground arith

    settle-Steps :
        (e : Engine drive.World) (w : drive.World) (verdict : Option String)
        → config.dry_run ≡ false
        → over_budget config.max_copy_size_gb (e.run_bytes + size) ≡ false
        → (verdict ≡ none → Verified drive config src shortcut_id site)
        → Steps drive config src shortcut_id site
            (books e)
            (settle drive config src parent shortcut_id verdict (record (reserved e) { world = w }))
    unfolding settle release_reservation
    settle-Steps e w none real fits v =
        copies real fits (v refl)
          (reconcile_failed-books eff src _ ∙ mark_copied-books drive config eff size _)
    settle-Steps e w (some detail) real fits v =
        fails 0 (inr (inl refl)) (record_failed-books drive config src _ _ _ _ ∙ ground arith)

    -- Asked for the id, Drive describes a file that agrees with the source.
    abbrev Fine : Option String → drive.World → Type 0
    Fine new_id w =
        (meta : FileReply) × (is_set new_id ≡ true)
        × ((drive.get_metadata (or_else new_id "") w).0 ≡ reply meta)
        × (compare_copy src shortcut_id (from_api meta) ≡ none)

    -- The verification changes the world alone.
    abbrev Checked :
        Option String → Engine drive.World → Outcome (Option String) × Engine drive.World → Type 0
    Checked new_id e out =
        (w : drive.World) × (verdict : Option String) × (out
          ≡ (done verdict, record e { world = w }))
        × (verdict ≡ none → Fine new_id e.world)

    described :
        (new_id : Option String) (e : Engine drive.World) (r : Reply FileReply)
        → is_set new_id ≡ true
        → (drive.get_metadata (or_else new_id "") e.world).0 ≡ r
        → Checked new_id e (
            continue
              (call (drive.get_metadata (or_else new_id "")) e)
              (judge drive config src shortcut_id))
    described new_id e (reply meta) set q = (
      (drive.get_metadata (or_else new_id "") e.world).1,
      compare_copy src shortcut_id (from_api meta),
      rw q,
      λ same. (meta, set, q, same),
    )
    described new_id e (failed x) set q = (
      (drive.get_metadata (or_else new_id "") e.world).1,
      some ("could not fetch copied file metadata: " <> text_of x),
      rw q,
      λ given. absurd (some-ne-none _ given),
    )

    verify_copy_set :
        (new_id : Option String) (e : Engine drive.World)
        → is_set new_id ≡ true
        → verify_copy drive config new_id src shortcut_id e
          ≡ continue
              (call (drive.get_metadata (or_else new_id "")) e)
              (judge drive config src shortcut_id)
    unfolding verify_copy
    verify_copy_set new_id e set = rw (set, ◌>>=◌) refl

    verify_copy_unset :
        (new_id : Option String) (e : Engine drive.World)
        → is_set new_id ≡ false
        → verify_copy drive config new_id src shortcut_id e
          ≡ (done (some "copy returned no file id"), e)
    unfolding verify_copy
    verify_copy_unset new_id e unset = rw unset refl

    verify_copy-Checked :
        (new_id : Option String) (e : Engine drive.World)
        → Checked new_id e (verify_copy drive config new_id src shortcut_id e)
    verify_copy-Checked new_id e = elim (Bool-cases (is_set new_id)) [
      | inl set ↦ rw (verify_copy_set new_id e set) (described new_id e _ set refl)
      | inr unset ↦
          rw (verify_copy_unset new_id e unset)
            (e.world, some "copy returned no file id", refl, λ given. absurd (some-ne-none _ given))
    ]

    -- Drive after the request for the copy.
    abbrev sent : drive.World
    sent = (copy_answer drive config src shortcut_id site).1

    copied-Steps :
        (e : Engine drive.World) (new_id : Option String)
        → (copy_answer drive config src shortcut_id site).0 ≡ reply new_id
        → config.dry_run ≡ false
        → over_budget config.max_copy_size_gb (e.run_bytes + size) ≡ false
        → Steps drive config src shortcut_id site (books e) (
            finish_copy drive config src parent shortcut_id
              (reply new_id)
              (record (reserved e) { world = sent }))
    unfolding finish_copy
    copied-Steps e new_id answered real fits =
        let (w', verdict, ends, fine) =
          verify_copy-Checked new_id (record (reserved e) { world = sent }) in
        rw (ends, ◌>>=◌)
          (settle-Steps e w' verdict real fits (λ none_left.
            let (meta, set, asked, agrees) = fine none_left in
            (new_id, meta, answered, set, asked, agrees)))

    abbrev freed : Engine drive.World → drive.World → Engine drive.World
    freed e w = release_reservation size (record (reserved e) { world = w })

    refused-Steps :
        (exc : Exc) (e : Engine drive.World) (w : drive.World)
        → config.dry_run ≡ false
        → Steps drive config src shortcut_id site
            (books e)
            (handle_copy_exception drive config exc src parent shortcut_id eff (freed e w))
    refused-Steps exc e w real =
        subst
          (λ b.
            Steps drive config src shortcut_id site b
              (handle_copy_exception drive config exc src parent shortcut_id eff (freed e w)))
          (released e w)
          (handle_copy_exception-Steps drive config src shortcut_id site parent exc (freed e w)
            real)

    failed-Steps :
        (e : Engine drive.World) (w : drive.World) (x : Exc)
        → config.dry_run ≡ false
        → over_budget config.max_copy_size_gb (e.run_bytes + size) ≡ false
        → Steps drive config src shortcut_id site (books e) (
            finish_copy drive config src parent shortcut_id
              (failed x)
              (record (reserved e) { world = w }))
    unfolding finish_copy
    failed-Steps e w (quota_stopped reason) real fits =
        unwinds (quota_stopped reason) real fits refl
    failed-Steps e w (http h) real fits = refused-Steps (http h) e w real
    failed-Steps e w (runtime_error m) real fits = refused-Steps (runtime_error m) e w real
    failed-Steps e w (value_error m) real fits = refused-Steps (value_error m) e w real

    finish_copy-Steps :
        (e : Engine drive.World) (r : Reply (Option String))
        → (copy_answer drive config src shortcut_id site).0 ≡ r
        → config.dry_run ≡ false
        → over_budget config.max_copy_size_gb (e.run_bytes + size) ≡ false
        → Steps drive config src shortcut_id site (books e) (
            finish_copy drive config src parent shortcut_id r
              (record (reserved e) { world = sent }))
    finish_copy-Steps e (reply new_id) answered real fits = copied-Steps e new_id answered real fits
    finish_copy-Steps e (failed x) answered real fits = failed-Steps e sent x real fits

    -- Step 4 of the source, from the engine in which the bytes are reserved.
    pub send_copy-Steps :
        (e : Engine drive.World)
        → e.world ≡ site.world
        → config.dry_run ≡ false
        → over_budget config.max_copy_size_gb (e.run_bytes + size) ≡ false
        → Steps drive config src shortcut_id site
            (books e)
            (send_copy drive config site.dest src parent shortcut_id (reserved e))
    unfolding send_copy
    send_copy-Steps e same real fits =
        checked (validate_app_properties (copy_properties src shortcut_id)) refl
      where
        checked :
            (o : Option String)
            → validate_app_properties (copy_properties src shortcut_id) ≡ o
            → Steps drive config src shortcut_id site
                (books e)
                (send_copy drive config site.dest src parent shortcut_id (reserved e))
        checked (some message) q = rw (q, send_copy) (unwinds (value_error message) real fits refl)
        checked none q = rw (q, send_copy, same) (finish_copy-Steps e _ refl real fits)
