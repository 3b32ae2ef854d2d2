-- ===== src/Copier/Folders/Laws.antt =====
-- What `_get_or_create_folder` leaves in the run.
use gdrive_turbo_copy.Prelude.{
  ◌≡◌, ◌⊎◌, ◌∙◌, refl, sym, ap, subst, String, true, false, ◌&&◌, Option, none, some, arith, inl,
  inr, is_set, or_else, Bool-cases, Option-cases, string_eq, ==_refl,
}
use mathlib.Core.Bool.{false≢true}
use gdrive_turbo_copy.Prelude.Dict.{lookup, lookup-insert}
use gdrive_turbo_copy.Models.Config.{CopyConfig}
use gdrive_turbo_copy.Models.AppProperties.{validate_app_properties}
use gdrive_turbo_copy.Retry.Errors.{Exc, quota_stopped, runtime_error, value_error, http}
use gdrive_turbo_copy.Retry.Loop.{Reply, reply, failed}
use gdrive_turbo_copy.Index.{first_set}
use gdrive_turbo_copy.Resume.Store.{save}
use gdrive_turbo_copy.Copier.Drive.{Drive}
use gdrive_turbo_copy.Copier.Engine.{
  Engine, Outcome, done, raised, out_of_fuel, Action, continue, ◌>>◌, raise,
}
use gdrive_turbo_copy.Copier.Book.{save_log, note_save}
use gdrive_turbo_copy.Copier.Book.Frame.{Books, books, save_log-books}
use gdrive_turbo_copy.Copier.Failure.{raise_if_fatal_quota}
use gdrive_turbo_copy.Copier.Folders.{
  map_folder, place, created_folder, make_folder, or_make, find_or_make, or_find, from_cache,
  get_or_create_folder, folder_properties,
}
use gdrive_turbo_copy.Copier.Folders.Quiet.{
  Stopped, quota_cases, Quiet, find_dest_folder-Quiet, verify_dest_folder-Quiet,
}

module _ (drive : Drive) (config : CopyConfig) where
  saved-map :
      (e : Engine drive.World)
      → (save drive e).1.resume_state.folder_map ≡ e.resume_state.folder_map
  unfolding save
  saved-map e = ground arith

  noted-map :
      (p : Reply (Unit {0}) × Engine drive.World)
      → (note_save drive config p).resume_state.folder_map ≡ p.1.resume_state.folder_map
  noted-map (reply u, e) = refl
  noted-map (failed x, e) = refl

  save_log-map :
      (e : Engine drive.World)
      → (save_log drive config false e).resume_state.folder_map ≡ e.resume_state.folder_map
  unfolding save_log
  save_log-map e =
      let e0 : Engine drive.World = record e { dirty = 0 } in
      ground (arith, noted-map (save drive e0), saved-map e0)

  module _ (name : String) (source shortcut : Option String) where
    abbrev key : Option String
    key = first_set shortcut source

    -- A folder that is returned is the one that the log has under the key; the books are as before,
    -- unless the run has been stopped.
    abbrev pub Settled : Books → Outcome (Option String) × Engine drive.World → Type 0
    Settled b (done o, e) =
        (books e ≡ b)
        × (is_set key ≡ true
            → is_set o ≡ true
            → lookup (or_else key "") e.resume_state.folder_map ≡ o)
    Settled b (raised x, e) = (books e ≡ b) ⊎ (e.stop ≡ true)
    Settled b (out_of_fuel, e) = ⊥

    Quiet-Settled :
        {A : Type 0} (e : Engine drive.World) (out : Outcome A × Engine drive.World)
        (k : A → Action drive.World (Option String))
        → Quiet drive config e out
        → ((a : A) (w : drive.World) → Settled (books e) (k a (record e { world = w })))
        → Settled (books e) (continue out k)
    Quiet-Settled e (done a, e') k (w, same) later = rw same (later a w)
    Quiet-Settled e (raised x, e') k stopped later = inr stopped
    Quiet-Settled e (out_of_fuel, e') k x later = absurd x

    Stopped-Settled :
        (b : Books) (out : Outcome (Option String) × Engine drive.World)
        → Stopped drive config out
        → Settled b out
    Stopped-Settled b (done a, e') s = absurd s
    Stopped-Settled b (raised x, e') s = inr s
    Stopped-Settled b (out_of_fuel, e') s = s

    some_text : (o : Option String) → is_set o ≡ true → some (or_else o "") ≡ o
    some_text none h = absurd (false≢true h)
    some_text (some t) h = ground arith

    mapped :
        (k id : String) (e : Engine drive.World)
        → lookup k (map_folder drive config k id e).resume_state.folder_map ≡ some id
    unfolding map_folder
    mapped k id e = lookup-insert k k id e.resume_state.folder_map ∙ rw (==_refl k) refl

    place-Settled :
        (existing : Option String) (e : Engine drive.World)
        → is_set existing ≡ true
        → Settled (books e) (place drive config name source shortcut (or_else existing "") e)
    unfolding map_folder
    place-Settled existing e h = (refl, λ _ _. mapped (or_else key "") (or_else existing "") e)

    failed_creation-Settled :
        (exc : Exc) (context text : String) (e : Engine drive.World)
        → Settled
            (books e)
            ((raise_if_fatal_quota drive config exc context >> raise (runtime_error text)) e)
    failed_creation-Settled exc context text e =
        elim (quota_cases drive config exc context (raise (runtime_error text)) e) [
          | inl same ↦ subst (Settled (books e)) (sym same) (inl refl)
          | inr stopped ↦ Stopped-Settled (books e) _ stopped
        ]

    created-Settled :
        (new_id : Option String) (e : Engine drive.World)
        → Settled (books e) (created_folder drive config name source shortcut (reply new_id) e)
    unfolding created_folder map_folder
    created-Settled new_id e = elim (Bool-cases (is_set key && is_set new_id)) [
      | inl both ↦
          let e1 = map_folder drive config (or_else key "") (or_else new_id "") e in
          rw both (
            save_log-books drive config false e1,
            λ _ some_id.
                ap (λ d. lookup (or_else key "") d) (save_log-map e1)
                ∙ mapped (or_else key "") (or_else new_id "") e
                ∙ some_text new_id some_id,
          )
      | inr not_both ↦ rw not_both (refl, λ k o. absurd (false≢true (sym not_both ∙ rw k o)))
    ]

    created_folder-Settled :
        (answer : Reply (Option String)) (e : Engine drive.World)
        → Settled (books e) (created_folder drive config name source shortcut answer e)
    unfolding created_folder
    created_folder-Settled (reply new_id) e = created-Settled new_id e
    created_folder-Settled (failed (quota_stopped reason)) e = inl refl
    created_folder-Settled (failed (runtime_error t)) e = failed_creation-Settled _ _ _ e
    created_folder-Settled (failed (value_error t)) e = failed_creation-Settled _ _ _ e
    created_folder-Settled (failed (http x)) e = failed_creation-Settled _ _ _ e

    make_folder-Settled :
        (parent_id : String) (e : Engine drive.World)
        → Settled (books e) (make_folder drive config name source shortcut parent_id e)
    unfolding make_folder
    make_folder-Settled parent_id e = elim (Bool-cases config.dry_run) [
      | inl dry ↦ simp dry (refl, λ k o. absurd (false≢true o))
      | inr real ↦
          elim (Option-cases (validate_app_properties (folder_properties source shortcut))) [
            | inl fits ↦ simp real (rw fits (created_folder-Settled _ (record e { world = _ })))
            | inr (message, bad) ↦ simp real (rw bad (inl refl))
          ]
    ]

    find_or_make-Settled :
        (parent_id : String) (e : Engine drive.World)
        → Settled (books e) (find_or_make drive config name source shortcut parent_id e)
    unfolding find_or_make
    find_or_make-Settled parent_id e =
        Quiet-Settled e _ (or_make drive config name source shortcut parent_id)
          (find_dest_folder-Quiet drive config parent_id source shortcut e)
          (λ existing w. elim (Bool-cases (is_set existing)) [
            | inl there ↦ rw there (place-Settled existing (record e { world = w }) there)
            | inr missing ↦ rw missing (make_folder-Settled parent_id (record e { world = w }))
          ])

    from_cache-Settled :
        (parent_id : String) (cached : Option String) (e : Engine drive.World)
        → (is_set key ≡ true → lookup (or_else key "") e.resume_state.folder_map ≡ cached)
        → Settled (books e) (from_cache drive config name source shortcut parent_id cached e)
    unfolding from_cache
    from_cache-Settled parent_id cached e known = elim (Bool-cases (is_set cached)) [
      | inl set ↦ rw set (
          Quiet-Settled e _
            (or_find drive config name source shortcut parent_id (or_else cached ""))
            (verify_dest_folder-Quiet drive config (or_else cached "") _ (or_else key "") e)
            (λ verified w. elim (Bool-cases verified) [
              | inl right ↦ rw right (refl, λ k _. known k ∙ sym (some_text cached set))
              | inr wrong ↦ rw wrong (find_or_make-Settled parent_id (record e { world = w }))
            ]))
      | inr unset ↦ rw unset (find_or_make-Settled parent_id e)
    ]

    -- `_get_or_create_folder` leaves the books of the copying as they were, unless it stops the run.
    -- A folder that it returns for a key is the one that the resume log will have under that key,
    -- whether it was cached and checked, found by a search, or newly made.
    pub get_or_create_folder-Settled :
        (dest_parent_id : Option String) (e : Engine drive.World)
        → Settled
            (books e)
            (get_or_create_folder drive config name source shortcut dest_parent_id e)
    unfolding get_or_create_folder
    get_or_create_folder-Settled none e = (refl, λ k o. absurd (false≢true o))
    get_or_create_folder-Settled (some parent_id) e = elim (Bool-cases (is_set key)) [
      | inl set ↦ rw set (from_cache-Settled parent_id _ e (λ _. refl))
      | inr unset ↦ rw unset (make_folder-Settled parent_id e)
    ]
