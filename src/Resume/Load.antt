-- ===== src/Resume/Load.antt =====
-- `ResumeStore.load` and `_list_log_files`: the logs of all accounts are read and merged.
pub mod Laws
use text.Mathlib.Text.{starts_with}
use gdrive_turbo_copy.Prelude.{
  ℕ, zero, suc, String, ◌<>◌, Bool, Option, none, some, List, [], ◌∷◌, ◌++◌, keep, is_set, or_else,
  option_eq, string_eq, ◌==◌, if◌then◌else◌,
}
use gdrive_turbo_copy.Prelude.Sets.{union}
use gdrive_turbo_copy.Models.DriveFile.{FileReply}
use gdrive_turbo_copy.Models.Records.{ResumeState, new_state, is_nonempty}
use gdrive_turbo_copy.Retry.Errors.{Exc, runtime_error, value_error, text_of}
use gdrive_turbo_copy.Retry.Loop.{Reply, reply, failed}
use gdrive_turbo_copy.Resume.Payload.{log_prefix}
use gdrive_turbo_copy.Resume.Read.{Read, ok, bad, deserialize}
use gdrive_turbo_copy.Resume.Store.{log_name_for}
use gdrive_turbo_copy.Copier.Drive.{Drive, Page}
use gdrive_turbo_copy.Copier.Engine.{
  Engine, Outcome, done, raised, out_of_fuel, Action, pure, raise, modify, call, attempt, continue,
  ◌>>=◌, ◌>>◌,
}
use gdrive_turbo_copy.Copier.Resuming.{merge_map}

abbrev pub is_log : FileReply → Bool
is_log f = starts_with (or_else f.name "") log_prefix

-- A log that has been read, in the state that the logs make together.
unfoldable pub merge_log : ResumeState → ResumeState → ResumeState
merge_log merged state = record merged {
  copied_ids = union merged.copied_ids state.copied_ids;
  folder_map = merge_map merged.folder_map state.folder_map;
  completed_folders = union merged.completed_folders state.completed_folders;
  failed_items = merged.failed_items ++ state.failed_items;
}

-- What only the account's own log says.
unfoldable pub own_fields : ResumeState → ResumeState → ResumeState
own_fields merged state = record merged {
  run_id = state.run_id;
  copied_bytes = state.copied_bytes;
  created_at = state.created_at;
  source_root_id =
      if is_set state.source_root_id then state.source_root_id else merged.source_root_id;
}

module _ (drive : Drive) where
  abbrev pub Act : Type 0 → Type 0
  Act = Action drive.World

  unfoldable pub list_logs_answer :
      (Option String → List FileReply → Act (List FileReply))
      → List FileReply
      → Reply Page
      → Act (List FileReply)
  list_logs_answer rest out (failed exc) e = (raised exc, e)
  list_logs_answer rest out (reply (files, next)) e =
      if is_set next
      then rest next (out ++ keep is_log files) e
      else (done (out ++ keep is_log files), e)

  -- The fuel is the number of pages.
  unfoldable pub list_log_files : ℕ → String → Option String → List FileReply → Act (List FileReply)
  list_log_files zero parent token out e = (out_of_fuel, e)
  list_log_files (suc pages) parent token out e =
      let p = drive.list_children parent [] token e.world in
      list_logs_answer (λ next now. list_log_files pages parent next now) out p.0
        (record e { world = p.1 })

  abbrev pub parsed : Read ResumeState → Act ResumeState
  parsed (ok state) e = (done state, e)
  parsed (bad message) e = (raised (value_error message), e)

  -- `deserialize`, at the time of the world.
  abbrev pub parse_log : String → Act ResumeState
  parse_log text e = parsed (deserialize drive.codec (drive.now e.world) text) e

  abbrev pub parse_media : Reply String → Act ResumeState
  parse_media (failed exc) e = (raised exc, e)
  parse_media (reply text) e = parse_log text e

  abbrev pub read_id : Option String → Act ResumeState
  read_id none = raise (value_error "'id'")
  read_id (some id) = call (drive.get_media id) >>= parse_media

  unfoldable pub read_log : FileReply → Act ResumeState
  read_log entry = read_id entry.id

  abbrev pub is_own : FileReply → Engine drive.World → Bool
  is_own entry e = entry.name == e.own_log_name

  unfoldable pub unreadable : FileReply → Exc → Exc
  unreadable entry exc = runtime_error (
      "Could not read resume log "
      <> or_else entry.name ""
      <> ": "
      <> text_of exc
      <> ". Pass ignore_broken=True to skip it.")

  abbrev pub note_own : FileReply → Engine drive.World → Engine drive.World
  note_own entry e = if is_own entry e then record e { own_log_file_id = entry.id } else e

  abbrev pub absorbed : FileReply → Engine drive.World → ResumeState → ResumeState → ResumeState
  absorbed entry e merged state =
      if is_own entry e then own_fields (merge_log merged state) state else merge_log merged state

  unfoldable pub absorb_answer :
      Bool
      → FileReply
      → ResumeState
      → (ResumeState → Act ResumeState)
      → Reply ResumeState
      → Act ResumeState
  absorb_answer ignore_broken entry merged rest (failed exc) e =
      if ignore_broken then rest merged e else (raised (unreadable entry exc), e)
  absorb_answer ignore_broken entry merged rest (reply state) e =
      rest (absorbed entry e merged state) (note_own entry e)

  unfoldable pub absorb : Bool → List FileReply → ResumeState → Act ResumeState
  absorb ignore_broken [] merged e = (done merged, e)
  absorb ignore_broken (entry ∷ entries) merged e =
      continue (attempt (read_log entry) e)
        (absorb_answer ignore_broken entry merged (absorb ignore_broken entries))

  unfoldable pub load_listed : Bool → Bool → ResumeState → Reply (List FileReply) → Act ResumeState
  load_listed ignore_broken start_fresh merged (failed exc) e =
      if start_fresh then (done merged, e) else (
        raised (
            runtime_error (
              "Could not list resume logs ("
              <> text_of exc
              <> "); stopping to avoid duplicate copies. Pass start_fresh=True to ignore.")),
        e,
      )
  load_listed ignore_broken start_fresh merged (reply entries) e =
      absorb ignore_broken entries merged e

  unfoldable pub load : ℕ → String → Option String → Bool → Bool → Act ResumeState
  load pages parent account ignore_broken start_fresh e =
      let merged = new_state account (some parent) none (drive.now e.world) in
      continue
        (attempt (list_log_files pages parent none [])
          (record e { own_log_name = some (log_name_for drive account) }))
        (load_listed ignore_broken start_fresh merged)
