-- ===== src/Copier/Resuming.antt =====
-- `_merge_resume`, `request_stop` and `_preflight`: what a run takes from the log, and its early stops.
pub mod Laws
use gdrive_turbo_copy.Prelude.{
  ℕ, String, ◌<>◌, Bool, true, false, not, Option, none, some, List, [], ◌∷◌, max, is_set, truthy,
  string_eq, bool_eq, option_eq, ◌==◌, if◌then◌else◌,
}
use gdrive_turbo_copy.Prelude.Dict.{Dict, set_default}
use gdrive_turbo_copy.Prelude.Sets.{union}
use gdrive_turbo_copy.Models.DriveFile.{FileReply}
use gdrive_turbo_copy.Models.Records.{ResumeState}
use gdrive_turbo_copy.Retry.Errors.{text_of}
use gdrive_turbo_copy.Retry.Loop.{Reply, reply, failed}
use gdrive_turbo_copy.Copier.Drive.{Drive}
use gdrive_turbo_copy.Copier.Engine.{Engine, Action, pure, call, ◌>>=◌}

-- The loop of `setdefault`.
unfoldable pub merge_map : Dict String → Dict String → Dict String
merge_map own [] = own
merge_map own ((src, dst) ∷ loaded) = merge_map (set_default src dst own) loaded

unfoldable pub merge_resume : {W : Type 0} → ResumeState → Engine W → Engine W
merge_resume loaded e = record e {
  resume_state = record (e.resume_state) {
    copied_ids = union e.resume_state.copied_ids loaded.copied_ids;
    folder_map = merge_map e.resume_state.folder_map loaded.folder_map;
    completed_folders = union e.resume_state.completed_folders loaded.completed_folders;
    copied_bytes = max e.resume_state.copied_bytes loaded.copied_bytes;
    created_at = if truthy loaded.created_at then loaded.created_at else e.resume_state.created_at;
  };
  result = record (e.result) { previous_failed_items = loaded.failed_items };
}

abbrev pub stop_text : Option String → Option String
stop_text reason =
    if is_set reason then reason else some "Stop requested; progress saved to the resume log."

-- A reason that is there already stays.
unfoldable pub request_stop : {W : Type 0} → Option String → Engine W → Engine W
request_stop reason e = record e {
  stop = true;
  result = record (e.result) {
    stop_reason = if is_set e.result.stop_reason then e.result.stop_reason else stop_text reason;
  };
}

-- What the metadata of the destination's parent says against it.
unfoldable pub objection : Reply FileReply → Option String
objection (failed exc) = some ("Cannot access destination folder: " <> text_of exc)
objection (reply meta) =
    if meta.trashed == some true
    then some "Destination folder is in the trash."
    else if meta.can_add_children == some false
    then some "You do not have permission to add files to the destination folder."
    else none

unfoldable pub preflight : (drive : Drive) → String → Action drive.World (Option String)
preflight drive dest_parent_id =
    call (drive.get_metadata dest_parent_id) >>= (λ answer. pure (objection answer))
