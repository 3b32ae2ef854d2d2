-- ===== src/Copier/Moves/Levels.antt =====
-- The moves of the fast walk, and of the walk as a whole.
use gdrive_turbo_copy.Prelude.{
  ℕ, zero, suc, String, not, ◌||◌, Option, none, some, List, [], ◌∷◌, ◌++◌, map,
}
use gdrive_turbo_copy.Prelude.Sets.{contains, add}
use gdrive_turbo_copy.Models.DriveFile.{DriveFile, is_folder, is_shortcut}
use gdrive_turbo_copy.Models.Config.{CopyConfig}
use gdrive_turbo_copy.Models.Records.{is_nonempty}
use gdrive_turbo_copy.Copier.Drive.{Drive}
use gdrive_turbo_copy.Copier.Engine.{done, Action, pure, modify, ◌>>◌}
use gdrive_turbo_copy.Copier.Folders.{get_or_create_folder}
use gdrive_turbo_copy.Copier.Batches.{Children, children_of}
use gdrive_turbo_copy.Copier.Children.{creation_failed, made, Descent, worth_a_visit}
use gdrive_turbo_copy.Copier.Levels.{
  Pending, Front, enqueue_folder, follow_fast, fast_child, fast_children, visit_pending,
  visit_batch, process_level_fast, process_level_plain, process_level,
}
use gdrive_turbo_copy.Copier.Book.Frame.{books}
use gdrive_turbo_copy.Copier.Moves.{
  rests, Moves-if, Moving, Moving-pure, Moving-if, Moving-bind, Moving-then, Moving-test,
}
use gdrive_turbo_copy.Copier.Moves.Calls.{Moving-record_failed, Moving-build_index}
use gdrive_turbo_copy.Copier.Moves.Folders.{Moving-get_or_create_folder, Moving-resolve_shortcut}
use gdrive_turbo_copy.Copier.Moves.Files.{Moving-copy_file, Moving-submit_file}
use gdrive_turbo_copy.Copier.Moves.Batches.{Moving-batched_list}
use gdrive_turbo_copy.Copier.Moves.Children.{
  made-Moves, Moving-creation_failed, Descends, Moving-process_children,
}

module _ (drive : Drive) (config : CopyConfig) where
  abbrev Mv : {A : Type 0} → Action drive.World A → Type 0
  Mv = Moving drive config

  module _ (dest : Option String) (visited : List String) (parent : String) where
    Moving-enqueue_folder :
        (folder : DriveFile) (shortcut_id : Option String) (pending : List Pending)
        → Mv (enqueue_folder drive config dest visited parent folder shortcut_id pending)
    unfolding enqueue_folder
    Moving-enqueue_folder folder shortcut_id pending = record {
      at = λ e.
          let out =
            get_or_create_folder drive config folder.name (some folder.id) shortcut_id dest e in
          Moves-if drive config (books e) (contains folder.id visited) (done pending, e)
            (made drive config out (λ sub. pure (pending ++ ((folder, sub) ∷ [])))
              (λ message.
                modify (creation_failed drive config folder shortcut_id parent message)
                >> pure pending))
            rests
            (made-Moves drive config (books e) out _ _
              ((Moving-get_or_create_folder drive config folder.name (some folder.id) shortcut_id
                  dest).at
                e)
              (λ sub. Moving-pure drive config _)
              (λ message.
                Moving-then drive config _ _
                  (Moving-creation_failed drive config folder shortcut_id parent message)
                  (Moving-pure drive config pending)));
    }

    Moving-follow_fast :
        (src : DriveFile) (front : Front drive config) (target : Option DriveFile)
        → Mv (follow_fast drive config dest visited parent src front target)
    unfolding follow_fast
    Moving-follow_fast src (index, pending) none =
        Moving-then drive config _ _ (Moving-record_failed drive config src _ _ _)
          (Moving-pure drive config _)
    Moving-follow_fast src (index, pending) (some target) =
        Moving-if drive config (is_folder target) _ _
          (Moving-bind drive config _ _ (Moving-enqueue_folder target (some src.id) pending)
            (λ pending'. Moving-pure drive config (index, pending')))
          (Moving-bind drive config _ _
            (Moving-copy_file drive config dest target index parent (some src.id))
            (λ index'. Moving-pure drive config (index', pending)))

    Moving-fast_child :
        (src : DriveFile) (front : Front drive config)
        → Mv (fast_child drive config dest visited parent src front)
    unfolding fast_child
    Moving-fast_child src (index, pending) =
        Moving-if drive config (is_shortcut src) _ _
          (Moving-bind drive config _ _ (Moving-resolve_shortcut drive config src)
            (Moving-follow_fast src (index, pending)))
          (Moving-if drive config (is_folder src) _ _
            (Moving-bind drive config _ _ (Moving-enqueue_folder src none pending)
              (λ pending'. Moving-pure drive config (index, pending')))
            (Moving-bind drive config _ _ (Moving-submit_file drive config dest src index parent)
              (λ index'. Moving-pure drive config (index', pending))))

    Moving-fast_children :
        (children : List DriveFile) (front : Front drive config)
        → Mv (fast_children drive config dest visited parent children front)
    unfolding fast_children
    Moving-fast_children [] front = record { at = λ e. rests }
    Moving-fast_children (src ∷ children) front = record {
      at = λ e. Moving-test drive config e.stop e front.1 _ (
          Moving-bind drive config _ _ (Moving-fast_child src front)
            (Moving-fast_children children));
    }

  module _ (pages : ℕ) (down : Descent drive config pages)
      (deep : Descends drive config pages down) where
    Moving-visit_pending :
        (visited : List String) (pending : List Pending) (kids : Children)
        → Mv (visit_pending drive config pages down visited pending kids)
    unfolding visit_pending
    Moving-visit_pending visited [] kids = record { at = λ e. rests }
    Moving-visit_pending visited ((folder, sub) ∷ pending) kids = record {
      at = λ e. Moving-test drive config e.stop e tt _ (
          Moving-then drive config _ _
            (Moving-if drive config
              (worth_a_visit drive config pages sub (children_of folder.id kids)) _ _
              (deep sub (children_of folder.id kids) (add folder.id visited) folder.id)
              (Moving-pure drive config tt))
            (Moving-visit_pending visited pending kids));
    }

    Moving-visit_batch :
        (visited : List String) (pending : List Pending)
        → Mv (visit_batch drive config pages down visited pending)
    unfolding visit_batch
    Moving-visit_batch visited pending = record {
      at = λ e. Moving-test drive config (not (is_nonempty pending) || e.stop) e tt _ (
          Moving-bind drive config _ _
            (Moving-batched_list drive config pages (map (λ p. p.0.id) pending))
            (Moving-visit_pending visited pending));
    }

    Moving-process_level_fast :
        Descends drive config pages (process_level_fast drive config pages down)
    unfolding process_level_fast
    Moving-process_level_fast dest children visited parent =
        Moving-bind drive config _ _ (Moving-build_index drive config dest pages) (λ index.
          Moving-bind drive config _ _
            (Moving-fast_children dest visited parent children (index, []))
            (Moving-visit_batch visited))

    Moving-process_level_plain :
        Descends drive config pages (process_level_plain drive config pages down)
    unfolding process_level_plain
    Moving-process_level_plain dest children visited parent =
        Moving-bind drive config _ _ (Moving-build_index drive config dest pages)
          (Moving-process_children drive config pages down deep dest visited parent children)

  -- Whatever Drive answers, however deep the tree is and however the walk ends, all that it does to
  -- the books is a sequence of moves.
  pub Moving-process_level :
      (pages depth : ℕ) (dest : Option String) (children : List DriveFile) (visited : List String)
      (parent : String)
      → Moving drive config (process_level drive config pages depth dest children visited parent)
  unfolding process_level
  Moving-process_level pages zero dest children visited parent = record { at = λ e. rests }
  Moving-process_level pages (suc depth) dest children visited parent = record {
    at = λ e.
        let down = process_level drive config pages depth in
        let deep = Moving-process_level pages depth in
        Moves-if drive config (books e) config.fast_list
          (process_level_fast drive config pages down dest children visited parent e)
          (process_level_plain drive config pages down dest children visited parent e)
          ((Moving-process_level_fast pages down deep dest children visited parent).at e)
          ((Moving-process_level_plain pages down deep dest children visited parent).at e);
  }
