-- ===== src/Copier/Run/Parts.antt =====
-- The moves of the checks before a run, of the walk, and of the end of a run.
use gdrive_turbo_copy.Prelude.{
  ℕ, zero, suc, refl, String, Bool, false, not, ◌||◌, ◌&&◌, Option, none, List, [], ◌∷◌, ◌++◌,
  is_set, or_else, truthy, string_eq, ◌==◌,
}
use gdrive_turbo_copy.Prelude.Sets.{contains}
use gdrive_turbo_copy.Models.Config.{CopyConfig}
use gdrive_turbo_copy.Models.Records.{fully_ok, is_nonempty}
use gdrive_turbo_copy.Retry.Loop.{Reply, reply, failed}
use gdrive_turbo_copy.Copier.Drive.{Drive}
use gdrive_turbo_copy.Copier.Engine.{Action, pure, call, attempt, ◌>>=◌}
use gdrive_turbo_copy.Copier.Book.Frame.{books}
use gdrive_turbo_copy.Copier.Resuming.{preflight, objection}
use gdrive_turbo_copy.Copier.Moves.{
  Moves-if, explains, rests, Moves-one, Moving, Moving-pure, Moving-call, Moving-if, Moving-bind,
  Moving-then,
}
use gdrive_turbo_copy.Copier.Moves.Calls.{Moving-quiet, Moving-list_children}
use gdrive_turbo_copy.Copier.Moves.Levels.{Moving-process_level}
use gdrive_turbo_copy.Copier.Moves.Children.{Moving-record_tree_node}
use gdrive_turbo_copy.Copier.Moves.Store.{Moving-attempt}
use gdrive_turbo_copy.Copier.Moves.Tidy.{Moving-cleanup, Moving-export_failed_report}
use gdrive_turbo_copy.Copier.Run.{
  answer, refuse, set_completed, push_parents, parents_told, root_account, or_root, account_id,
  climb, is_descendant_of, tidy, report, finalize, walk,
}

module _ (drive : Drive) (config : CopyConfig) where
  abbrev pub Mv : {A : Type 0} → Action drive.World A → Type 0
  Mv = Moving drive config

  -- A call, what is made of its answer, and what follows.
  pub Moving-ask :
      {A B : Type 0} (f : drive.World → Reply A × drive.World) (k : Reply A → Action drive.World B)
      → ((r : Reply A) → Mv (k r))
      → Mv (call f >>= k)
  Moving-ask f k h = Moving-bind drive config _ _ (Moving-call drive config f) h

  Moving-answer : Mv answer
  Moving-answer = record { at = λ e. rests }

  pub Moving-refuse : (reason : String) → Mv (refuse reason)
  unfolding refuse
  Moving-refuse reason = record { at = λ e. Moves-one drive config (explains reason refl) }

  Moving-or_root : (r : Reply (Option String)) → Mv (or_root drive r)
  Moving-or_root (failed exc) =
      Moving-ask (drive.get_metadata "root") _
        (λ r. Moving-pure drive config (root_account drive r))
  Moving-or_root (reply email) =
      Moving-if drive config (is_set email) _ _ (Moving-pure drive config email) (
        Moving-ask (drive.get_metadata "root") _
          (λ r. Moving-pure drive config (root_account drive r)))

  pub Moving-account_id : Mv (account_id drive)
  unfolding account_id
  Moving-account_id = Moving-ask drive.about_user _ Moving-or_root

  Moving-climb :
      (room : ℕ) (ancestor : String) (seen stack : List String)
      → Mv (climb drive room ancestor seen stack)
  unfolding climb
  Moving-climb zero ancestor seen stack = record { at = λ e. rests }
  Moving-climb (suc room) ancestor seen [] = record { at = λ e. rests }
  Moving-climb (suc room) ancestor seen (cur ∷ stack) = record {
    at = λ e.
        let p = drive.get_metadata cur e.world in
        Moves-if drive config (books e) (cur == ancestor) _ _ rests (
          Moves-if drive config (books e) (contains cur seen) _ _
            ((Moving-climb (suc room) ancestor seen stack).at e)
            ((Moving-climb room ancestor (cur ∷ seen)
                (push_parents (parents_told p.0) (cur ∷ seen) stack)).at
              (record e { world = p.1 })));
  }

  pub Moving-is_descendant_of :
      (candidate ancestor : String) → Mv (is_descendant_of drive candidate ancestor)
  unfolding is_descendant_of
  Moving-is_descendant_of candidate ancestor =
      Moving-if drive config (not (truthy candidate) || not (truthy ancestor)) _ _
        (Moving-pure drive config false) (Moving-climb 200 ancestor [] (candidate ∷ []))

  pub Moving-preflight : (parent : String) → Mv (preflight drive parent)
  unfolding preflight
  Moving-preflight parent =
      Moving-ask (drive.get_metadata parent) _ (λ r. Moving-pure drive config (objection r))

  module _ (pages depth : ℕ) where
    -- A method under `try`, what it raises being dropped.
    Moving-dropped :
        {A : Type 0} (m : Action drive.World A) → Mv m → Mv (attempt m >>= (λ r. pure tt))
    Moving-dropped m k =
        Moving-bind drive config _ _ (Moving-attempt drive config m k)
          (λ r. Moving-pure drive config tt)

    Moving-tidy : (dest : Option String) → Mv (tidy drive config pages depth dest)
    unfolding tidy
    Moving-tidy dest = record {
      at = λ e.
          Moves-if drive config (books e) (fully_ok e.result && is_set dest) _ _
            ((Moving-dropped _ (Moving-cleanup drive config pages (or_else dest "") none)).at e)
            rests;
    }

    Moving-report : (dest : Option String) → Mv (report drive config pages depth dest)
    unfolding report
    Moving-report dest = record {
      at = λ e.
          let all_failed = e.result.previous_failed_items ++ e.result.failed_items in
          Moves-if drive config (books e)
            (is_nonempty all_failed && is_set dest && not config.dry_run) _ _
            ((Moving-dropped _
                (Moving-export_failed_report drive config pages (or_else dest "") all_failed)).at
              e)
            rests;
    }

    pub Moving-finalize :
        (dest : Option String) (completed : Bool)
        → Mv (finalize drive config pages depth dest completed)
    unfolding finalize
    Moving-finalize dest completed =
        Moving-then drive config _ _
          (Moving-quiet drive config (set_completed completed) (λ e. refl))
          (Moving-then drive config _ _ (Moving-tidy dest)
            (Moving-then drive config _ _ (Moving-report dest) Moving-answer))

    pub Moving-walk :
        (source : String) (dest : Option String) → Mv (walk drive config pages depth source dest)
    unfolding walk
    Moving-walk source dest =
        Moving-bind drive config _ _
          (Moving-list_children drive config source source config.from_page config.to_page pages)
          (λ children.
            Moving-then drive config _ _ (Moving-record_tree_node drive config source children)
              (Moving-process_level drive config pages depth dest children (source ∷ []) source))
