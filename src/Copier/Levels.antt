-- ===== src/Copier/Levels.antt =====
-- `_process_level`, `_process_level_fast` and `_enqueue_folder`: the walk through the source. It goes
-- down on fuel for the depth of the tree.
use gdrive_turbo_copy.Prelude.{
  ℕ, zero, suc, String, not, ◌||◌, Option, none, some, List, [], ◌∷◌, ◌++◌, map, if◌then◌else◌,
}
use gdrive_turbo_copy.Prelude.Sets.{contains, add}
use gdrive_turbo_copy.Models.DriveFile.{DriveFile, is_folder, is_shortcut}
use gdrive_turbo_copy.Models.Config.{CopyConfig}
use gdrive_turbo_copy.Models.Records.{is_nonempty}
use gdrive_turbo_copy.Index.{DestinationIndex}
use gdrive_turbo_copy.Copier.Drive.{Drive}
use gdrive_turbo_copy.Copier.Engine.{done, out_of_fuel, Action, pure, modify, ◌>>=◌, ◌>>◌}
use gdrive_turbo_copy.Copier.Files.{copy_file}
use gdrive_turbo_copy.Copier.Folders.{get_or_create_folder, resolve_shortcut}
use gdrive_turbo_copy.Copier.Listing.{build_index}
use gdrive_turbo_copy.Copier.Batches.{Children, children_of, batched_list}
use gdrive_turbo_copy.Copier.Submit.{submit_file}
use gdrive_turbo_copy.Copier.Children.{
  inaccessible, creation_failed, made, Descent, worth_a_visit, process_children,
}

-- A folder that waits for its children, and its folder at the destination.
abbrev pub Pending : Type 0
Pending = DriveFile × Option String

module _ (drive : Drive) (config : CopyConfig) where
  abbrev pub Act : Type 0 → Type 0
  Act = Action drive.World

  unfoldable pub enqueue_folder :
      Option String
      → List String
      → String
      → DriveFile
      → Option String
      → List Pending
      → Act (List Pending)
  enqueue_folder dest visited parent folder shortcut_id pending e =
      if contains folder.id visited
      then (done pending, e)
      else made drive config
          (get_or_create_folder drive config folder.name (some folder.id) shortcut_id dest e)
          (λ sub. pure (pending ++ ((folder, sub) ∷ [])))
          (λ message.
            modify (creation_failed drive config folder shortcut_id parent message) >> pure pending)

  -- The index and the folders that wait, from child to child.
  abbrev pub Front : Type 0
  Front = DestinationIndex × List Pending

  -- What is done with the target of a shortcut.
  unfoldable pub follow_fast :
      Option String → List String → String → DriveFile → Front → Option DriveFile → Act Front
  follow_fast dest visited parent src (index, pending) none =
      modify (inaccessible drive config src parent) >> pure (index, pending)
  follow_fast dest visited parent src (index, pending) (some target) =
      if is_folder target
      then (enqueue_folder dest visited parent target (some src.id) pending >>= λ pending'.
          pure (index, pending'))
      else (copy_file drive config dest target index parent (some src.id) >>= λ index'.
          pure (index', pending))

  unfoldable pub fast_child : Option String → List String → String → DriveFile → Front → Act Front
  fast_child dest visited parent src (index, pending) =
      if is_shortcut src
      then (resolve_shortcut drive config src
          >>= follow_fast dest visited parent src (index, pending))
      else if is_folder src
      then (enqueue_folder dest visited parent src none pending >>= λ pending'.
          pure (index, pending'))
      else (submit_file drive config dest src index parent >>= λ index'. pure (index', pending))

  unfoldable pub fast_children :
      Option String → List String → String → List DriveFile → Front → Act (List Pending)
  fast_children dest visited parent [] front e = (done front.1, e)
  fast_children dest visited parent (src ∷ children) front e =
      if e.stop
      then (done front.1, e)
      else (fast_child dest visited parent src front >>= fast_children dest visited parent children)
          e

  module _ (pages : ℕ) where
    abbrev pub visit_folder :
        Descent drive config pages → Children → List String → Pending → Act (Unit {0})
    visit_folder down kids visited (folder, sub) =
        if worth_a_visit drive config pages sub (children_of folder.id kids)
        then down sub (children_of folder.id kids) (add folder.id visited) folder.id
        else pure tt

    unfoldable pub visit_pending :
        Descent drive config pages → List String → List Pending → Children → Act (Unit {0})
    visit_pending down visited [] kids e = (done tt, e)
    visit_pending down visited (p ∷ pending) kids e =
        if e.stop
        then (done tt, e)
        else (visit_folder down kids visited p >> visit_pending down visited pending kids) e

    unfoldable pub visit_batch :
        Descent drive config pages → List String → List Pending → Act (Unit {0})
    visit_batch down visited pending e =
        if not (is_nonempty pending) || e.stop
        then (done tt, e)
        else (batched_list drive config pages (map (λ p. p.0.id) pending)
              >>= visit_pending down visited pending)
            e

    unfoldable pub process_level_fast : Descent drive config pages → Descent drive config pages
    process_level_fast down dest children visited parent = do
      index ← build_index drive config dest pages
      pending ← fast_children dest visited parent children (index, [])
      visit_batch down visited pending

    unfoldable pub process_level_plain : Descent drive config pages → Descent drive config pages
    process_level_plain down dest children visited parent = do
      index ← build_index drive config dest pages
      process_children drive config pages down dest visited parent children index

    unfoldable pub process_level : ℕ → Descent drive config pages
    process_level zero dest children visited parent e = (out_of_fuel, e)
    process_level (suc depth) dest children visited parent e =
        if config.fast_list
        then process_level_fast (process_level depth) dest children visited parent e
        else process_level_plain (process_level depth) dest children visited parent e
