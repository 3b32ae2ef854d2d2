-- ===== src/Copier/Folders.antt =====
-- `_get_or_create_folder` with the search and the check behind it, and `_resolve_shortcut`.
mod Quiet
pub mod Laws
use gdrive_turbo_copy.Prelude.{
  ℕ, String, ◌<>◌, Bool, true, false, not, ◌&&◌, ◌||◌, Option, none, some, List, [], ◌∷◌, eqb,
  is_set, or_else, option_eq, string_eq, ◌==◌, if◌then◌else◌,
}
use Prim.Native.Char.{code}
use gdrive_turbo_copy.Prelude.Dict.{Dict, lookup, insert}
use gdrive_turbo_copy.Models.DriveFile.{FileReply, DriveFile, from_api, is_folder, tool_tag}
use gdrive_turbo_copy.Models.AppProperties.{validate_app_properties}
use gdrive_turbo_copy.Models.Config.{CopyConfig}
use gdrive_turbo_copy.Retry.Errors.{Exc, quota_stopped, runtime_error, value_error, text_of}
use gdrive_turbo_copy.Retry.Loop.{Reply, reply, failed}
use gdrive_turbo_copy.Index.{first_set}
use gdrive_turbo_copy.Resume.Payload.{sorted}
use gdrive_turbo_copy.Copier.Drive.{Drive}
use gdrive_turbo_copy.Copier.Engine.{Engine, Action, pure, raise, modify, call, ◌>>=◌, ◌>>◌}
use gdrive_turbo_copy.Copier.Book.{save_log}
use gdrive_turbo_copy.Copier.Failure.{raise_if_fatal_quota}

-- A backslash and a quote are written with a backslash before them.
unfoldable pub escape : String → String
escape String.[] = ""
escape (String.◌∷◌ c s) =
    let rest = String.◌∷◌ c (escape s) in
    if eqb (code c) 92 || eqb (code c) 39 then "\\" <> rest else rest

abbrev pub key_name : Option String → String
key_name shortcut_id = if is_set shortcut_id then "source_shortcut_id" else "source_folder_id"

abbrev pub first_text : List String → Option String
first_text [] = none
first_text (id ∷ ids) = some id

-- The only folder, or the first by id.
unfoldable pub pick : List String → Option String
pick [] = none
pick (id ∷ []) = some id
pick (id ∷ id' ∷ ids) = first_text (sorted (id ∷ id' ∷ ids))

unfoldable pub folder_query : String → String → String → String
folder_query parent_id name value =
    "'"
    <> parent_id
    <> "' in parents and trashed = false and mimeType = 'application/vnd.google-apps.folder' "
    <> "and appProperties has { key='"
    <> name
    <> "' and value='"
    <> escape value
    <> "' }"

unfoldable pub folder_properties : Option String → Option String → Dict String
folder_properties source_folder_id shortcut_id =
    if is_set shortcut_id
    then ("copied_by_tool", tool_tag)
      ∷ ("source_shortcut_id", or_else shortcut_id "")
      ∷ (if is_set source_folder_id
          then ("shortcut_target_id", or_else source_folder_id "") ∷ []
          else [])
    else if is_set source_folder_id
    then ("copied_by_tool", tool_tag) ∷ ("source_folder_id", or_else source_folder_id "") ∷ []
    else ("copied_by_tool", tool_tag) ∷ []

module _ (drive : Drive) (config : CopyConfig) where
  abbrev pub Act : Type 0 → Type 0
  Act = Action drive.World

  -- `self._state.folder_map[key] = id`
  unfoldable pub map_folder : String → String → Engine drive.World → Engine drive.World
  map_folder key id e = record e {
    resume_state = record (e.resume_state) { folder_map = insert key id e.resume_state.folder_map };
  }

  unfoldable pub find_answer : Reply (List String) → Act (Option String)
  find_answer (reply ids) = pure (pick ids)
  find_answer (failed exc) = do
    raise_if_fatal_quota drive config exc "searching for destination folder"
    pure none

  unfoldable pub find_dest_folder : String → Option String → Option String → Act (Option String)
  find_dest_folder parent_id source_folder_id shortcut_id =
      let key = first_set shortcut_id source_folder_id in
      if is_set key
      then call (drive.search (folder_query parent_id (key_name shortcut_id) (or_else key "")))
        >>= find_answer
      else pure none

  -- A folder is the right one if it is there and carries the key.
  abbrev pub is_right : String → String → DriveFile → Bool
  is_right name key df =
      if df.trashed || not (is_folder df) then false else lookup name df.app_properties == some key

  unfoldable pub verify_answer : String → String → Reply FileReply → Act Bool
  verify_answer name key (reply item) = pure (is_right name key (from_api item))
  verify_answer name key (failed exc) = do
    raise_if_fatal_quota drive config exc "verifying destination folder"
    pure false

  unfoldable pub verify_dest_folder : String → String → String → Act Bool
  verify_dest_folder folder_id name key =
      call (drive.get_metadata folder_id) >>= verify_answer name key

  module _ (name : String) (source_folder_id shortcut_id : Option String) where
    abbrev pub effective_key : Option String
    effective_key = first_set shortcut_id source_folder_id

    abbrev pub place : String → Act (Option String)
    place id = do modify (map_folder (or_else effective_key "") id); pure (some id)

    unfoldable pub created_folder : Reply (Option String) → Act (Option String)
    created_folder (reply new_id) =
        if is_set effective_key && is_set new_id
        then (do
          modify (map_folder (or_else effective_key "") (or_else new_id ""))
          modify (save_log drive config false)
          pure new_id)
        else pure new_id
    created_folder (failed (quota_stopped reason)) = raise (quota_stopped reason)
    created_folder (failed exc) = do
      raise_if_fatal_quota drive config exc ("creating folder '" <> name <> "'")
      raise (runtime_error ("Could not create folder '" <> name <> "': " <> text_of exc))

    unfoldable pub make_folder : String → Act (Option String)
    make_folder parent_id =
        if config.dry_run
        then pure none
        else elim (validate_app_properties (folder_properties source_folder_id shortcut_id)) [
          | some message ↦ raise (value_error message)
          | none ↦
              call (
                drive.create_folder name parent_id (folder_properties source_folder_id shortcut_id))
              >>= created_folder
        ]

    abbrev pub or_make : String → Option String → Act (Option String)
    or_make parent_id existing =
        if is_set existing then place (or_else existing "") else make_folder parent_id

    unfoldable pub find_or_make : String → Act (Option String)
    find_or_make parent_id =
        find_dest_folder parent_id source_folder_id shortcut_id >>= or_make parent_id

    abbrev pub or_find : String → String → Bool → Act (Option String)
    or_find parent_id cached verified =
        if verified then pure (some cached) else find_or_make parent_id

    unfoldable pub from_cache : String → Option String → Act (Option String)
    from_cache parent_id cached =
        if is_set cached
        then verify_dest_folder (or_else cached "") (key_name shortcut_id)
            (or_else effective_key "")
          >>= or_find parent_id (or_else cached "")
        else find_or_make parent_id

    unfoldable pub get_or_create_folder : Option String → Act (Option String)
    get_or_create_folder none e = pure none e
    get_or_create_folder (some parent_id) e =
        if is_set effective_key
        then from_cache parent_id (lookup (or_else effective_key "") e.resume_state.folder_map) e
        else make_folder parent_id e

  -- The target under the shortcut's name, if Drive shows it.
  abbrev pub shortcut_target : DriveFile → Reply FileReply → Option DriveFile
  shortcut_target src (reply meta) = some (record (from_api meta) { name = src.name })
  shortcut_target src (failed exc) = none

  unfoldable pub resolve_shortcut : DriveFile → Act (Option DriveFile)
  resolve_shortcut src =
      if is_set src.shortcut_target_id
      then call (drive.get_metadata (or_else src.shortcut_target_id ""))
        >>= (λ answer. pure (shortcut_target src answer))
      else pure none
