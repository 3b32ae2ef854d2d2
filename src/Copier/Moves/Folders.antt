-- ===== src/Copier/Moves/Folders.antt =====
-- The moves of the methods that find and make folders of the destination.
use gdrive_turbo_copy.Prelude.{refl, String, false, ◌&&◌, Option, none, some, List, is_set, or_else}
use gdrive_turbo_copy.Prelude.Dict.{lookup}
use gdrive_turbo_copy.Models.DriveFile.{FileReply, DriveFile}
use gdrive_turbo_copy.Models.AppProperties.{validate_app_properties}
use gdrive_turbo_copy.Models.Config.{CopyConfig}
use gdrive_turbo_copy.Retry.Errors.{Exc, quota_stopped, runtime_error, value_error, http}
use gdrive_turbo_copy.Retry.Loop.{Reply, reply, failed}
use gdrive_turbo_copy.Index.{first_set}
use gdrive_turbo_copy.Copier.Drive.{Drive}
use gdrive_turbo_copy.Copier.Engine.{Action, raise, modify, call, ◌>>=◌, ◌>>◌}
use gdrive_turbo_copy.Copier.Book.{save_log}
use gdrive_turbo_copy.Copier.Book.Frame.{books, save_log-books}
use gdrive_turbo_copy.Copier.Failure.{raise_if_fatal_quota}
use gdrive_turbo_copy.Copier.Folders.{
  map_folder, find_answer, find_dest_folder, verify_answer, verify_dest_folder, created_folder,
  make_folder, or_make, find_or_make, from_cache, get_or_create_folder, resolve_shortcut,
  folder_properties, shortcut_target,
}
use gdrive_turbo_copy.Copier.Moves.{
  Moves-if, rests, Moving, Moving-pure, Moving-raise, Moving-call, Moving-if, Moving-bind,
  Moving-then,
}
use gdrive_turbo_copy.Copier.Moves.Calls.{Moving-quiet, Moving-raise_if_fatal_quota}

module _ (drive : Drive) (config : CopyConfig) where
  abbrev Mv : {A : Type 0} → Action drive.World A → Type 0
  Mv = Moving drive config

  Moving-find_answer : (answer : Reply (List String)) → Mv (find_answer drive config answer)
  unfolding find_answer
  Moving-find_answer (reply ids) = Moving-pure drive config _
  Moving-find_answer (failed exc) =
      Moving-then drive config _ _ (Moving-raise_if_fatal_quota drive config exc _)
        (Moving-pure drive config none)

  Moving-find_dest_folder :
      (parent_id : String) (source shortcut : Option String)
      → Mv (find_dest_folder drive config parent_id source shortcut)
  unfolding find_dest_folder
  Moving-find_dest_folder parent_id source shortcut =
      Moving-if drive config (is_set (first_set shortcut source)) _ _
        (Moving-bind drive config _ _ (Moving-call drive config _) Moving-find_answer)
        (Moving-pure drive config none)

  Moving-verify_answer :
      (name key : String) (answer : Reply FileReply)
      → Mv (verify_answer drive config name key answer)
  unfolding verify_answer
  Moving-verify_answer name key (reply item) = Moving-pure drive config _
  Moving-verify_answer name key (failed exc) =
      Moving-then drive config _ _ (Moving-raise_if_fatal_quota drive config exc _)
        (Moving-pure drive config false)

  Moving-verify_dest_folder :
      (folder_id name key : String) → Mv (verify_dest_folder drive config folder_id name key)
  unfolding verify_dest_folder
  Moving-verify_dest_folder folder_id name key =
      Moving-bind drive config _ _ (Moving-call drive config _) (Moving-verify_answer name key)

  module _ (name : String) (source shortcut : Option String) where
    Moving-map_folder : (key id : String) → Mv (modify (map_folder drive config key id))
    unfolding map_folder
    Moving-map_folder key id =
        Moving-quiet drive config (map_folder drive config key id) (λ e. refl)

    Moving-creation_failed :
        (exc : Exc) (context text : String)
        → Mv {A = Option String}
            (raise_if_fatal_quota drive config exc context >> raise (runtime_error text))
    Moving-creation_failed exc context text =
        Moving-then drive config _ _ (Moving-raise_if_fatal_quota drive config exc context)
          (Moving-raise drive config _)

    Moving-created_folder :
        (answer : Reply (Option String))
        → Mv (created_folder drive config name source shortcut answer)
    unfolding created_folder
    Moving-created_folder (reply new_id) =
        Moving-if drive config (is_set (first_set shortcut source) && is_set new_id) _ _
          (Moving-then drive config _ _ (Moving-map_folder _ _) (
            Moving-then drive config _ _
              (Moving-quiet drive config (save_log drive config false)
                (save_log-books drive config false))
              (Moving-pure drive config new_id)))
          (Moving-pure drive config new_id)
    Moving-created_folder (failed (quota_stopped reason)) = Moving-raise drive config _
    Moving-created_folder (failed (runtime_error t)) = Moving-creation_failed _ _ _
    Moving-created_folder (failed (value_error t)) = Moving-creation_failed _ _ _
    Moving-created_folder (failed (http x)) = Moving-creation_failed _ _ _

    Moving-make_checked :
        (parent_id : String) (o : Option String)
        → Mv {A = Option String} (elim o [
          | some message ↦ raise (value_error message)
          | none ↦
              call (drive.create_folder name parent_id (folder_properties source shortcut))
              >>= created_folder drive config name source shortcut
        ])
    Moving-make_checked parent_id (some message) = Moving-raise drive config _
    Moving-make_checked parent_id none =
        Moving-bind drive config _ _ (Moving-call drive config _) Moving-created_folder

    Moving-make_folder :
        (parent_id : String) → Mv (make_folder drive config name source shortcut parent_id)
    unfolding make_folder
    Moving-make_folder parent_id =
        Moving-if drive config config.dry_run _ _ (Moving-pure drive config none) (
          Moving-make_checked parent_id
            (validate_app_properties (folder_properties source shortcut)))

    Moving-or_make :
        (parent_id : String) (existing : Option String)
        → Mv (or_make drive config name source shortcut parent_id existing)
    Moving-or_make parent_id existing =
        Moving-if drive config (is_set existing) _ _
          (Moving-then drive config _ _ (Moving-map_folder _ _) (Moving-pure drive config _))
          (Moving-make_folder parent_id)

    Moving-find_or_make :
        (parent_id : String) → Mv (find_or_make drive config name source shortcut parent_id)
    unfolding find_or_make
    Moving-find_or_make parent_id =
        Moving-bind drive config _ _ (Moving-find_dest_folder parent_id source shortcut)
          (Moving-or_make parent_id)

    Moving-from_cache :
        (parent_id : String) (cached : Option String)
        → Mv (from_cache drive config name source shortcut parent_id cached)
    unfolding from_cache
    Moving-from_cache parent_id cached =
        Moving-if drive config (is_set cached) _ _
          (Moving-bind drive config _ _ (Moving-verify_dest_folder _ _ _) (λ verified.
            Moving-if drive config verified _ _ (Moving-pure drive config _)
              (Moving-find_or_make parent_id)))
          (Moving-find_or_make parent_id)

    pub Moving-get_or_create_folder :
        (dest : Option String) → Mv (get_or_create_folder drive config name source shortcut dest)
    unfolding get_or_create_folder
    Moving-get_or_create_folder none = record { at = λ e. rests }
    Moving-get_or_create_folder (some parent_id) = record {
      at = λ e.
          let cached = lookup (or_else (first_set shortcut source) "") e.resume_state.folder_map in
          Moves-if drive config (books e) (is_set (first_set shortcut source))
            (from_cache drive config name source shortcut parent_id cached e)
            (make_folder drive config name source shortcut parent_id e)
            ((Moving-from_cache parent_id cached).at e) ((Moving-make_folder parent_id).at e);
    }

  pub Moving-resolve_shortcut : (src : DriveFile) → Mv (resolve_shortcut drive config src)
  unfolding resolve_shortcut
  Moving-resolve_shortcut src =
      Moving-if drive config (is_set src.shortcut_target_id) _ _
        (Moving-bind drive config _ _
          (Moving-call drive config (drive.get_metadata (or_else src.shortcut_target_id "")))
          (λ answer. Moving-pure drive config (shortcut_target drive config src answer)))
        (Moving-pure drive config none)
