-- ===== src/Copier/Run.antt =====
-- `run` and `_finalize`: a whole run, from the check of the configuration to its result. Two fuels: the
-- pages that any loop over pages reads, and the depth of the source tree.
pub mod Parts
pub mod Moving
pub mod Climb
pub mod Laws
use gdrive_turbo_copy.Prelude.{
  ℕ, zero, suc, String, ◌<>◌, Bool, true, false, not, ◌&&◌, ◌||◌, Option, none, some, List, [], ◌∷◌,
  ◌++◌, is_set, or_else, truthy, string_eq, ◌==◌, if◌then◌else◌,
}
use gdrive_turbo_copy.Prelude.Text.{join}
use gdrive_turbo_copy.Prelude.Sets.{contains, union}
use gdrive_turbo_copy.Urls.{extract_folder_id}
use gdrive_turbo_copy.Models.DriveFile.{FileReply, DriveFile, from_api}
use gdrive_turbo_copy.Models.Config.{CopyConfig, validate}
use gdrive_turbo_copy.Models.Records.{CopyResult, ResumeState, fully_ok, is_nonempty}
use gdrive_turbo_copy.Retry.Errors.{Exc, quota_stopped, runtime_error, text_of}
use gdrive_turbo_copy.Retry.Loop.{Reply, reply, failed}
use gdrive_turbo_copy.Resume.Load.{load}
use gdrive_turbo_copy.Resume.Cleanup.{cleanup, export_failed_report}
use gdrive_turbo_copy.Copier.Drive.{Drive}
use gdrive_turbo_copy.Copier.Engine.{
  Engine, Outcome, done, raised, out_of_fuel, Action, pure, raise, modify, call, attempt, continue,
  ◌>>=◌, ◌>>◌,
}
use gdrive_turbo_copy.Copier.Book.{save_log}
use gdrive_turbo_copy.Copier.Folders.{get_or_create_folder}
use gdrive_turbo_copy.Copier.Listing.{list_children}
use gdrive_turbo_copy.Copier.Completed.{record_tree_node, compute_completed_folders}
use gdrive_turbo_copy.Copier.Resuming.{merge_resume, preflight}
use gdrive_turbo_copy.Copier.Levels.{process_level}

module _ {W : Type 0} where
  abbrev pub explain : String → Engine W → Engine W
  explain reason e = record e { result = record (e.result) { stop_reason = some reason } }

  -- `return self._result`
  abbrev pub answer : Action W CopyResult
  answer e = (done e.result, e)

  unfoldable pub refuse : String → Action W CopyResult
  refuse reason e = answer (explain reason e)

  abbrev pub set_account : String → Option String → Engine W → Engine W
  set_account source account e = record e {
    resume_state = record (e.resume_state) { account = account; source_root_id = some source };
  }

  abbrev pub set_dest : Option String → Engine W → Engine W
  set_dest dest e = record e { resume_state = record (e.resume_state) { dest_root_id = dest } }

  abbrev pub add_completed : List String → Engine W → Engine W
  add_completed folders e = record e {
    resume_state = record (e.resume_state) {
      completed_folders = union e.resume_state.completed_folders folders;
    };
  }

  abbrev pub set_completed : Bool → Engine W → Engine W
  set_completed completed e = record e { result = record (e.result) { completed = completed } }

-- The parents that have not been seen go onto the stack, the last on top.
unfoldable pub push_parents : List String → List String → List String → List String
push_parents [] seen stack = stack
push_parents (p ∷ parents) seen stack =
    push_parents parents seen (if contains p seen then stack else p ∷ stack)

abbrev pub parents_told : Reply FileReply → List String
parents_told (failed exc) = []
parents_told (reply meta) = elim meta.parents [ none ↦ [] | some parents ↦ parents ]

module _ (drive : Drive) where
  abbrev pub Act : Type 0 → Type 0
  Act = Action drive.World

  -- `fetch_account_identifier` of auth.py, and `_account_id`
  abbrev pub root_account : Reply FileReply → Option String
  root_account (failed exc) = none
  root_account (reply meta) = some ("root-" <> elim meta.id [ none ↦ "None" | some id ↦ id ])

  abbrev pub or_root : Reply (Option String) → Act (Option String)
  or_root (failed exc) = call (drive.get_metadata "root") >>= (λ r. pure (root_account r))
  or_root (reply email) =
      if is_set email
      then pure email
      else call (drive.get_metadata "root") >>= (λ r. pure (root_account r))

  unfoldable pub account_id : Act (Option String)
  account_id = call drive.about_user >>= or_root

  -- The loop of `_is_descendant_of`, with room for so many more nodes.
  unfoldable pub climb : ℕ → String → List String → List String → Act Bool
  climb zero ancestor seen stack e = (done false, e)
  climb (suc room) ancestor seen [] e = (done false, e)
  climb (suc room) ancestor seen (cur ∷ stack) e =
      if cur == ancestor
      then (done true, e)
      else if contains cur seen
      then climb (suc room) ancestor seen stack e
      else let p = drive.get_metadata cur e.world in
        climb room ancestor (cur ∷ seen) (push_parents (parents_told p.0) (cur ∷ seen) stack)
          (record e { world = p.1 })

  unfoldable pub is_descendant_of : String → String → Act Bool
  is_descendant_of candidate ancestor =
      if not (truthy candidate) || not (truthy ancestor)
      then pure false
      else climb 200 ancestor [] (candidate ∷ [])

  module _ (config : CopyConfig) (pages depth : ℕ) where
    -- What `cleanup` and `export_failed_report` raise is only logged.
    unfoldable pub tidy : Option String → Act (Unit {0})
    tidy dest e =
        if fully_ok e.result && is_set dest
        then (attempt (cleanup drive pages (or_else dest "") none) >>= (λ r. pure tt)) e
        else (done tt, e)

    unfoldable pub report : Option String → Act (Unit {0})
    report dest e =
        let all_failed = e.result.previous_failed_items ++ e.result.failed_items in
        if is_nonempty all_failed && is_set dest && not config.dry_run
        then (attempt (export_failed_report drive pages (or_else dest "") all_failed)
              >>= (λ r. pure tt))
            e
        else (done tt, e)

    unfoldable pub finalize : Option String → Bool → Act CopyResult
    finalize dest completed =
        modify (set_completed completed) >> (tidy dest >> (report dest >> answer))

    -- The `try` of `run`.
    unfoldable pub walk : String → Option String → Act (Unit {0})
    walk source dest = do
      children ← list_children drive config source source config.from_page config.to_page pages
      modify (record_tree_node config source children)
      process_level drive config pages depth dest children (source ∷ []) source

    -- Its `finally`.
    abbrev pub noted : Option (List String) → Act (Unit {0})
    noted none e = (out_of_fuel, e)
    noted (some folders) e = (done tt, add_completed folders e)

    unfoldable pub note_completed : Act (Unit {0})
    note_completed e =
        if config.skip_completed_folders
        then noted (compute_completed_folders e) e
        else (done tt, e)

    unfoldable pub save_last : Option String → Act (Unit {0})
    save_last dest e =
        if not config.dry_run && is_set dest
        then (done tt, save_log drive config true e)
        else (done tt, e)

    abbrev pub close : Option String → Act (Unit {0})
    close dest = note_completed >> save_last dest

    unfoldable pub end_walk :
        Option String
        → Outcome (Unit {0}) × Engine drive.World
        → Outcome CopyResult × Engine drive.World
    end_walk dest (done u, e) = (close dest >> finalize dest (not e.stop)) e
    end_walk dest (raised (quota_stopped reason), e) = (close dest >> finalize dest false) e
    end_walk dest (raised exc, e) = (close dest >> raise exc) e
    end_walk dest (out_of_fuel, e) = (out_of_fuel, e)

    abbrev pub walk_all : String → Option String → Act CopyResult
    walk_all source dest e = end_walk dest (walk source dest e)

    unfoldable pub resume_with : String → Option String → Reply ResumeState → Act CopyResult
    resume_with source dest (reply loaded) = modify (merge_resume loaded) >> walk_all source dest
    resume_with source dest (failed (runtime_error message)) = refuse message
    resume_with source dest (failed exc) = raise exc

    unfoldable pub with_root : String → Option String → Reply (Option String) → Act CopyResult
    with_root source account (reply dest) =
        modify (set_dest dest)
        >> (if is_set dest
            then attempt (load drive pages (or_else dest "") account false false)
              >>= resume_with source dest
            else walk_all source dest)
    with_root source account (failed (quota_stopped reason)) = finalize none false
    with_root source account (failed (runtime_error message)) =
        refuse ("Could not create destination root folder: " <> message)
    with_root source account (failed exc) = raise exc

    unfoldable pub with_source : String → String → Option String → Reply FileReply → Act CopyResult
    with_source source parent account (failed exc) =
        refuse ("Cannot access source folder: " <> text_of exc)
    with_source source parent account (reply meta) =
        attempt
          (get_or_create_folder drive config (from_api meta).name (some source) none (some parent))
        >>= with_root source account

    unfoldable pub with_preflight : String → String → Option String → Option String → Act CopyResult
    with_preflight source parent account problem =
        if is_set problem
        then refuse (or_else problem "")
        else call (drive.get_metadata source) >>= with_source source parent account

    unfoldable pub with_place : String → String → Option String → Bool → Act CopyResult
    with_place source parent account inside =
        if inside
        then refuse
            "Destination equals or is inside the source tree; this would recurse infinitely. Choose a destination outside the source."
        else preflight drive parent >>= with_preflight source parent account

    unfoldable pub with_account : String → String → Option String → Act CopyResult
    with_account source parent account =
        modify (set_account source account)
        >> ((if parent == source then pure true else is_descendant_of parent source)
            >>= with_place source parent account)

    -- Both links have an id: the configuration has been checked.
    unfoldable pub start : Option String → Option String → Act CopyResult
    start (some source) (some parent) = account_id >>= with_account source parent
    start source parent = raise (runtime_error "")

    unfoldable pub run : Act CopyResult
    run e =
        let errors = validate drive.show_float config in
        if is_nonempty errors
        then refuse ("Invalid input: " <> join "; " errors) e
        else start (extract_folder_id config.source_link) (extract_folder_id config.dest_link) e
