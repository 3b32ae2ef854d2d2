-- ===== src/Copier/Children.antt =====
-- `_handle_container` and `_copy_folder`: what is done with a child of a folder of the source. The
-- descent into a folder is an argument of the functions here.
use gdrive_turbo_copy.Prelude.{
  ℕ, ◌+◌, String, Bool, not, ◌&&◌, ◌||◌, Option, none, some, List, [], ◌∷◌, is_set, is_some,
  or_else, if◌then◌else◌,
}
use gdrive_turbo_copy.Prelude.Int.{pos}
use gdrive_turbo_copy.Prelude.Sets.{contains, add}
use gdrive_turbo_copy.Models.DriveFile.{DriveFile, is_folder, is_shortcut}
use gdrive_turbo_copy.Models.Config.{CopyConfig}
use gdrive_turbo_copy.Models.Records.{is_nonempty}
use gdrive_turbo_copy.Retry.Errors.{runtime_error}
use gdrive_turbo_copy.Index.{DestinationIndex}
use gdrive_turbo_copy.Copier.Drive.{Drive}
use gdrive_turbo_copy.Copier.Engine.{
  Engine, Outcome, done, raised, out_of_fuel, Action, pure, modify, ◌>>=◌, ◌>>◌,
}
use gdrive_turbo_copy.Copier.Book.{record_failed}
use gdrive_turbo_copy.Copier.Files.{copy_file}
use gdrive_turbo_copy.Copier.Folders.{get_or_create_folder, resolve_shortcut}
use gdrive_turbo_copy.Copier.Listing.{list_children}
use gdrive_turbo_copy.Copier.Completed.{record_tree_node}
use gdrive_turbo_copy.Copier.Submit.{submit_file}

module _ (drive : Drive) (config : CopyConfig) where
  abbrev pub Act : Type 0 → Type 0
  Act = Action drive.World

  abbrev pub inaccessible : DriveFile → String → Engine drive.World → Engine drive.World
  inaccessible src parent =
      record_failed drive config src "cannotAccessShortcutTarget" "Shortcut target is inaccessible."
        (record {
          parent_source_id = some parent;
          shortcut_target_id = src.shortcut_target_id;
          source_shortcut_id = some src.id;
          effective_source_id = some src.id;
        })

  abbrev pub creation_failed :
      DriveFile → Option String → String → String → Engine drive.World → Engine drive.World
  creation_failed folder shortcut_id parent message =
      record_failed drive config folder "createFolderFailed" message (record {
        parent_source_id = some parent;
        shortcut_target_id = none;
        source_shortcut_id = shortcut_id;
        effective_source_id = some (or_else shortcut_id folder.id);
      })

  -- The `try` around `_get_or_create_folder`: only a `RuntimeError` is caught.
  unfoldable pub made :
      {A : Type 0}
      → Outcome (Option String) × Engine drive.World
      → (Option String → Act A)
      → (String → Act A)
      → Outcome A × Engine drive.World
  made (done sub, e) ok bad = ok sub e
  made (raised (runtime_error message), e) ok bad = bad message e
  made (raised exc, e) ok bad = (raised exc, e)
  made (out_of_fuel, e) ok bad = (out_of_fuel, e)

  module _ (pages : ℕ) where
    -- The descent: destination, children, visited folders, and the source folder they are in.
    abbrev pub Descent : Type 0
    Descent = Option String → List DriveFile → List String → String → Act (Unit {0})

    abbrev pub worth_a_visit : Option String → List DriveFile → Bool
    worth_a_visit sub children = is_nonempty children && (is_set sub || config.dry_run)

    -- What `_copy_folder` does with the folder at the destination.
    unfoldable pub list_folder : Descent → DriveFile → List String → Option String → Act (Unit {0})
    list_folder down folder visited sub = do
      children ← list_children drive config folder.id folder.id (pos 0) (pos 0) pages
      modify (record_tree_node config folder.id children)
      if worth_a_visit sub children
          then down sub children (add folder.id visited) folder.id
          else pure tt

    -- The test of the fast resume.
    abbrev pub is_finished : DriveFile → Option String → Engine drive.World → Bool
    is_finished folder shortcut_id e =
        config.skip_completed_folders
        && not (is_some shortcut_id)
        && contains folder.id e.resume_state.completed_folders

    abbrev pub skip_folder : Engine drive.World → Engine drive.World
    skip_folder e = record e {
      result = record (e.result) {
        skipped_complete_folders = e.result.skipped_complete_folders + 1;
      };
    }

    unfoldable pub copy_folder :
        Descent → Option String → DriveFile → List String → String → Option String → Act (Unit {0})
    copy_folder down dest folder visited parent shortcut_id e =
        if contains folder.id visited
        then (done tt, e)
        else if is_finished folder shortcut_id e
        then (done tt, skip_folder e)
        else made
            (get_or_create_folder drive config folder.name (some folder.id) shortcut_id dest e)
            (list_folder down folder visited)
            (λ message. modify (creation_failed folder shortcut_id parent message))

    -- What a shortcut points at is handled in its place.
    unfoldable pub follow_shortcut :
        Descent
        → Option String
        → DriveFile
        → DestinationIndex
        → List String
        → String
        → Option DriveFile
        → Act DestinationIndex
    follow_shortcut down dest src index visited parent none =
        modify (inaccessible src parent) >> pure index
    follow_shortcut down dest src index visited parent (some target) =
        if is_folder target
        then (copy_folder down dest target visited parent (some src.id) >> pure index)
        else copy_file drive config dest target index parent (some src.id)

    unfoldable pub handle_container :
        Descent
        → Option String
        → DriveFile
        → DestinationIndex
        → List String
        → String
        → Act DestinationIndex
    handle_container down dest src index visited parent =
        if is_shortcut src
        then (resolve_shortcut drive config src
            >>= follow_shortcut down dest src index visited parent)
        else (copy_folder down dest src visited parent none >> pure index)

    unfoldable pub process_child :
        Descent
        → Option String
        → List String
        → String
        → DriveFile
        → DestinationIndex
        → Act DestinationIndex
    process_child down dest visited parent src index =
        if is_folder src || is_shortcut src
        then handle_container down dest src index visited parent
        else submit_file drive config dest src index parent

    unfoldable pub process_children :
        Descent
        → Option String
        → List String
        → String
        → List DriveFile
        → DestinationIndex
        → Act (Unit {0})
    process_children down dest visited parent [] index e = (done tt, e)
    process_children down dest visited parent (src ∷ children) index e =
        if e.stop
        then (done tt, e)
        else (process_child down dest visited parent src index
              >>= process_children down dest visited parent children)
            e
