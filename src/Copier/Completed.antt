-- ===== src/Copier/Completed.antt =====
-- `_record_tree_node` and `_compute_completed_folders`: the folders of the source that a later run
-- need not list again.
pub mod Sound
mod Measure
pub mod Laws
use gdrive_turbo_copy.Prelude.{
  ℕ, zero, suc, ◌+◌, String, Bool, true, false, not, ◌&&◌, ◌||◌, Option, none, some, List, [], ◌∷◌,
  ◌++◌, all, length, truthy, map, if◌then◌else◌,
}
use gdrive_turbo_copy.Prelude.Dict.{Dict, lookup, insert}
use gdrive_turbo_copy.Prelude.Sets.{contains, add, union}
use gdrive_turbo_copy.Models.DriveFile.{DriveFile, is_folder, is_shortcut}
use gdrive_turbo_copy.Models.Config.{CopyConfig}
use gdrive_turbo_copy.Models.Records.{FailedItem}
use gdrive_turbo_copy.Copier.Engine.{Engine, FolderNode}

-- One child of the loop.
unfoldable pub add_child : DriveFile → FolderNode → FolderNode
add_child src node =
    if is_shortcut src
    then record node { eligible = false }
    else if is_folder src
    then record node { subfolder_ids = add src.id node.subfolder_ids }
    else record node { file_eff_ids = add src.id node.file_eff_ids }

unfoldable pub add_children : List DriveFile → FolderNode → FolderNode
add_children [] node = node
add_children (src ∷ children) node = add_children children (add_child src node)

unfoldable pub record_tree_node :
    {W : Type 0} → CopyConfig → String → List DriveFile → Engine W → Engine W
record_tree_node config folder_id children e =
    if not config.skip_completed_folders then e else record e {
      tree =
          insert folder_id
            (add_children children (record {
              listing_ok = not (contains folder_id e.listing_error_folders);
              eligible = true;
              file_eff_ids = [];
              subfolder_ids = [];
            }))
            e.tree;
    }

abbrev pub add_key : Option String → List String → List String
add_key none ids = ids
add_key (some key) ids = if truthy key then add key ids else ids

-- The ids under which an item failed, in this run or in one before.
unfoldable pub failed_ids : List FailedItem → List String
failed_ids [] = []
failed_ids (f ∷ items) = add_key f.effective_source_id (
    add_key (some f.source_id)
      (add_key f.source_shortcut_id (add_key f.shortcut_target_id (failed_ids items))))

-- A verdict and what is remembered after it; `none` is a search that has used up its fuel.
abbrev pub Verdict : Type 0
Verdict = Option (Bool × Dict Bool)

abbrev pub and_then : (Dict Bool → Verdict) → Verdict → Verdict
and_then rest none = none
and_then rest (some (b, memo)) = if b then rest memo else some (false, memo)

-- `all` over a search that remembers: it ends at the first folder that is not complete.
unfoldable pub all_complete : (String → Dict Bool → Verdict) → List String → Dict Bool → Verdict
all_complete visit [] memo = some (true, memo)
all_complete visit (sub ∷ subs) memo = and_then (all_complete visit subs) (visit sub memo)

abbrev pub remember : String → Verdict → Verdict
remember fid none = none
remember fid (some (b, memo)) = some (b, insert fid b memo)

module _ (known copied failed : List String) (tree : Dict FolderNode) where
  abbrev pub files_copied : FolderNode → Bool
  files_copied node =
      all (λ eid. contains eid copied && not (contains eid failed)) node.file_eff_ids

  -- The verdict on a folder by its node, with the search of its subfolders at hand.
  unfoldable pub judge_node :
      String → Dict Bool → (List String → Dict Bool → Verdict) → Option FolderNode → Verdict
  judge_node fid memo search none = some (false, insert fid false memo)
  judge_node fid memo search (some node) =
      if not node.listing_ok || not node.eligible
      then some (false, insert fid false memo)
      else if files_copied node
      then remember fid (search node.subfolder_ids memo)
      else some (false, insert fid false memo)

  abbrev pub recall : Option Bool → Dict Bool → Verdict → Verdict
  recall none memo v = v
  recall (some b) memo v = some (b, memo)

  unfoldable pub is_complete : ℕ → String → List String → Dict Bool → Verdict
  is_complete zero fid stack memo = none
  is_complete (suc fuel) fid stack memo =
      let searched =
        judge_node fid memo (all_complete (λ sub m. is_complete fuel sub (add fid stack) m))
          (lookup fid tree) in
      if contains fid known
      then some (true, memo)
      else recall (lookup fid memo) memo
          (if contains fid stack then some (false, memo) else searched)

  abbrev pub gather : String → Bool → Option (List String) → Option (List String)
  gather fid b none = none
  gather fid b (some rest) = some (if b then fid ∷ rest else rest)

  abbrev pub after_verdict :
      String → Verdict → (Dict Bool → Option (List String)) → Option (List String)
  after_verdict fid none rest = none
  after_verdict fid (some (b, memo)) rest = gather fid b (rest memo)

  -- The comprehension over the tree, which remembers from folder to folder.
  unfoldable pub completed_of : ℕ → List String → Dict Bool → Option (List String)
  completed_of fuel [] memo = some []
  completed_of fuel (fid ∷ fids) memo =
      after_verdict fid (is_complete fuel fid [] memo) (completed_of fuel fids)

-- The folders, with one unit of fuel more than the tree has.
unfoldable pub compute_completed_folders : {W : Type 0} → Engine W → Option (List String)
compute_completed_folders e =
    completed_of e.resume_state.completed_folders e.resume_state.copied_ids
      (failed_ids (e.result.failed_items ++ e.result.previous_failed_items)) e.tree
      (length e.tree + 1) (map (λ entry. entry.0) e.tree) []
