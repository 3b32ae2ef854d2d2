-- ===== src/Copier/Moves/Children.antt =====
-- The moves of the walk through one level, child by child.
use gdrive_turbo_copy.Prelude.{
  ◌≡◌, arith, ℕ, String, ◌||◌, Option, none, some, List, [], ◌∷◌, if◌then◌else◌,
}
use gdrive_turbo_copy.Prelude.Int.{pos}
use gdrive_turbo_copy.Prelude.Sets.{contains, add}
use gdrive_turbo_copy.Models.DriveFile.{DriveFile, is_folder, is_shortcut}
use gdrive_turbo_copy.Models.Config.{CopyConfig}
use gdrive_turbo_copy.Retry.Errors.{quota_stopped, runtime_error, value_error, http}
use gdrive_turbo_copy.Index.{DestinationIndex}
use gdrive_turbo_copy.Copier.Drive.{Drive}
use gdrive_turbo_copy.Copier.Engine.{Engine, Outcome, done, raised, out_of_fuel, Action, modify}
use gdrive_turbo_copy.Copier.Folders.{get_or_create_folder}
use gdrive_turbo_copy.Copier.Completed.{record_tree_node}
use gdrive_turbo_copy.Copier.Children.{
  creation_failed, made, Descent, worth_a_visit, process_children,
}
use gdrive_turbo_copy.Copier.Children.{
  list_folder, is_finished, skip_folder, copy_folder, follow_shortcut, handle_container,
  process_child,
}
use gdrive_turbo_copy.Copier.Book.Frame.{Books, books}
use gdrive_turbo_copy.Copier.Moves.{
  Moves, rests, Moves-trans, Moves-if, Moving, Moving-pure, Moving-if, Moving-bind, Moving-then,
  Moving-test,
}
use gdrive_turbo_copy.Copier.Moves.Calls.{Moving-quiet, Moving-record_failed, Moving-list_children}
use gdrive_turbo_copy.Copier.Moves.Folders.{Moving-get_or_create_folder, Moving-resolve_shortcut}
use gdrive_turbo_copy.Copier.Moves.Files.{Moving-copy_file, Moving-submit_file}

module _ (drive : Drive) (config : CopyConfig) where
  abbrev pub Mv : {A : Type 0} → Action drive.World A → Type 0
  Mv = Moving drive config

  record_tree_node-books :
      (folder_id : String) (children : List DriveFile) (e : Engine drive.World)
      → books (record_tree_node config folder_id children e) ≡ books e
  unfolding record_tree_node
  record_tree_node-books folder_id children e = ground arith

  pub Moving-record_tree_node :
      (folder_id : String) (children : List DriveFile)
      → Mv (modify (record_tree_node config folder_id children))
  Moving-record_tree_node folder_id children =
      Moving-quiet drive config (record_tree_node config folder_id children)
        (record_tree_node-books folder_id children)

  pub made-Moves :
      {A : Type 0} (b : Books) (out : Outcome (Option String) × Engine drive.World)
      (ok : Option String → Action drive.World A) (bad : String → Action drive.World A)
      → Moves drive config b (books out.1)
      → ((sub : Option String) → Mv (ok sub))
      → ((message : String) → Mv (bad message))
      → Moves drive config b (books (made drive config out ok bad).1)
  unfolding made
  made-Moves b (done sub, e) ok bad m k l = Moves-trans drive config m ((k sub).at e)
  made-Moves b (raised (runtime_error t), e) ok bad m k l = Moves-trans drive config m ((l t).at e)
  made-Moves b (raised (quota_stopped reason), e) ok bad m k l = m
  made-Moves b (raised (value_error t), e) ok bad m k l = m
  made-Moves b (raised (http x), e) ok bad m k l = m
  made-Moves b (out_of_fuel, e) ok bad m k l = m

  pub Moving-creation_failed :
      (folder : DriveFile) (shortcut_id : Option String) (parent message : String)
      → Mv (modify (creation_failed drive config folder shortcut_id parent message))
  Moving-creation_failed folder shortcut_id parent message =
      Moving-record_failed drive config folder _ _ _

  module _ (pages : ℕ) where
    -- A descent that makes moves, from whatever it is given.
    abbrev pub Descends : Descent drive config pages → Type 0
    Descends down =
        (dest : Option String) (children : List DriveFile) (visited : List String) (parent : String)
        → Mv (down dest children visited parent)

    module _ (down : Descent drive config pages) (deep : Descends down) where
      Moving-list_folder :
          (folder : DriveFile) (visited : List String) (sub : Option String)
          → Mv (list_folder drive config pages down folder visited sub)
      unfolding list_folder
      Moving-list_folder folder visited sub =
          Moving-bind drive config _ _
            (Moving-list_children drive config folder.id folder.id (pos 0) (pos 0) pages)
            (λ children. Moving-then drive config _ _ (Moving-record_tree_node folder.id children) (
              Moving-if drive config (worth_a_visit drive config pages sub children) _ _
                (deep sub children (add folder.id visited) folder.id)
                (Moving-pure drive config tt)))

      module _ (dest : Option String) (visited : List String) (parent : String) where
        Moving-copy_folder :
            (folder : DriveFile) (shortcut_id : Option String)
            → Mv (copy_folder drive config pages down dest folder visited parent shortcut_id)
        unfolding copy_folder
        Moving-copy_folder folder shortcut_id = record {
          at = λ e.
              let out =
                get_or_create_folder drive config folder.name (some folder.id) shortcut_id dest e in
              let entered =
                made drive config out (list_folder drive config pages down folder visited)
                  (λ message.
                    modify (creation_failed drive config folder shortcut_id parent message)) in
              Moves-if drive config (books e) (contains folder.id visited) (done tt, e)
                (if is_finished drive config pages folder shortcut_id e
                  then (done tt, skip_folder drive config pages e)
                  else entered)
                rests
                (Moves-if drive config (books e)
                  (is_finished drive config pages folder shortcut_id e)
                  (done tt, skip_folder drive config pages e) entered rests
                  (made-Moves (books e) out _ _
                    ((Moving-get_or_create_folder drive config folder.name (some folder.id)
                        shortcut_id dest).at
                      e)
                    (Moving-list_folder folder visited)
                    (Moving-creation_failed folder shortcut_id parent)));
        }

        Moving-follow_shortcut :
            (src : DriveFile) (index : DestinationIndex) (target : Option DriveFile)
            → Mv (follow_shortcut drive config pages down dest src index visited parent target)
        unfolding follow_shortcut
        Moving-follow_shortcut src index none =
            Moving-then drive config _ _ (Moving-record_failed drive config src _ _ _)
              (Moving-pure drive config index)
        Moving-follow_shortcut src index (some target) =
            Moving-if drive config (is_folder target) _ _
              (Moving-then drive config _ _ (Moving-copy_folder target (some src.id))
                (Moving-pure drive config index))
              (Moving-copy_file drive config dest target index parent (some src.id))

        Moving-handle_container :
            (src : DriveFile) (index : DestinationIndex)
            → Mv (handle_container drive config pages down dest src index visited parent)
        unfolding handle_container
        Moving-handle_container src index =
            Moving-if drive config (is_shortcut src) _ _
              (Moving-bind drive config _ _ (Moving-resolve_shortcut drive config src)
                (Moving-follow_shortcut src index))
              (Moving-then drive config _ _ (Moving-copy_folder src none)
                (Moving-pure drive config index))

        Moving-process_child :
            (src : DriveFile) (index : DestinationIndex)
            → Mv (process_child drive config pages down dest visited parent src index)
        unfolding process_child
        Moving-process_child src index =
            Moving-if drive config (is_folder src || is_shortcut src) _ _
              (Moving-handle_container src index)
              (Moving-submit_file drive config dest src index parent)

        pub Moving-process_children :
            (children : List DriveFile) (index : DestinationIndex)
            → Mv (process_children drive config pages down dest visited parent children index)
        unfolding process_children
        Moving-process_children [] index = record { at = λ e. rests }
        Moving-process_children (src ∷ children) index = record {
          at = λ e. Moving-test drive config e.stop e tt _ (
              Moving-bind drive config _ _ (Moving-process_child src index)
                (Moving-process_children children));
        }
