-- ===== src/Copier/Run/Moving.antt =====
-- All that a run does to the books is a sequence of moves.
use gdrive_turbo_copy.Prelude.{
  ◌<>◌, ℕ, refl, String, Bool, true, false, not, ◌&&◌, Option, none, some, List, is_set, or_else,
  string_eq, ◌==◌,
}
use gdrive_turbo_copy.Prelude.Text.{join}
use gdrive_turbo_copy.Urls.{extract_folder_id}
use gdrive_turbo_copy.Models.DriveFile.{FileReply, from_api}
use gdrive_turbo_copy.Models.Config.{CopyConfig, validate}
use gdrive_turbo_copy.Models.Records.{ResumeState, CopyResult, is_nonempty}
use gdrive_turbo_copy.Retry.Errors.{quota_stopped, runtime_error, value_error, http, Exc}
use gdrive_turbo_copy.Retry.Loop.{Reply, reply, failed}
use gdrive_turbo_copy.Copier.Drive.{Drive}
use gdrive_turbo_copy.Copier.Engine.{
  Engine, Outcome, done, raised, out_of_fuel, Action, raise, modify, ◌>>◌,
}
use gdrive_turbo_copy.Copier.Book.{save_log}
use gdrive_turbo_copy.Copier.Book.Frame.{Books, save_log-books, books}
use gdrive_turbo_copy.Copier.Completed.{compute_completed_folders}
use gdrive_turbo_copy.Copier.Resuming.{merge_resume}
use gdrive_turbo_copy.Copier.Moves.{
  Moves-trans, Moves-same, learns, Moving-modify, Moving-raise, Moves, Moves-if, rests, Moves-one,
  Moving, Moving-pure, Moving-if, Moving-bind, Moving-then,
}
use gdrive_turbo_copy.Copier.Moves.Calls.{Moving-quiet}
use gdrive_turbo_copy.Copier.Moves.Folders.{Moving-get_or_create_folder}
use gdrive_turbo_copy.Copier.Moves.Store.{Moving-attempt, Moving-load}
use gdrive_turbo_copy.Copier.Run.{
  noted, save_last, close, end_walk, walk_all, resume_with, with_root, with_source, with_preflight,
  with_place, with_account, start, run, note_completed, set_account, set_dest, finalize, walk,
}
use gdrive_turbo_copy.Copier.Run.Parts.{
  Moving-ask, Moving-refuse, Moving-account_id, Moving-is_descendant_of, Moving-preflight,
  Moving-finalize, Moving-walk,
}

module _ (drive : Drive) (config : CopyConfig) where
  abbrev Mv : {A : Type 0} → Action drive.World A → Type 0
  Mv = Moving drive config

  module _ (pages depth : ℕ) where
    note_completed_of-books :
        (o : Option (List String)) (e : Engine drive.World)
        → Moves drive config (books e) (books (noted drive config pages depth o e).1)
    note_completed_of-books none e = rests
    note_completed_of-books (some folders) e = rests

    Moving-note_completed : Mv (note_completed drive config pages depth)
    unfolding note_completed
    Moving-note_completed = record {
      at = λ e.
          Moves-if drive config (books e) config.skip_completed_folders _ _
            (note_completed_of-books (compute_completed_folders e) e) rests;
    }

    Moving-save_last : (dest : Option String) → Mv (save_last drive config pages depth dest)
    unfolding save_last
    Moving-save_last dest = record {
      at = λ e.
          Moves-if drive config (books e) (not config.dry_run && is_set dest) _ _
            (Moves-same drive config (books e) (books (save_log drive config true e))
              (save_log-books drive config true e))
            rests;
    }

    Moving-close : (dest : Option String) → Mv (close drive config pages depth dest)
    Moving-close dest = Moving-then drive config _ _ Moving-note_completed (Moving-save_last dest)

    Moving-fail_walk :
        (dest : Option String) (exc : Exc)
        → Mv {A = CopyResult} (close drive config pages depth dest >> raise exc)
    Moving-fail_walk dest exc =
        Moving-then drive config _ _ (Moving-close dest) (Moving-raise drive config exc)

    Moving-end_done :
        (dest : Option String) (completed : Bool)
        → Mv (
            close drive config pages depth dest >> finalize drive config pages depth dest completed)
    Moving-end_done dest completed =
        Moving-then drive config _ _ (Moving-close dest)
          (Moving-finalize drive config pages depth dest completed)

    Moves-end_walk :
        (dest : Option String) (b : Books) (out : Outcome (Unit {0}) × Engine drive.World)
        → Moves drive config b (books out.1)
        → Moves drive config b (books (end_walk drive config pages depth dest out).1)
    unfolding end_walk
    Moves-end_walk dest b (done u, e) m =
        Moves-trans drive config m ((Moving-end_done dest (not e.stop)).at e)
    Moves-end_walk dest b (raised (quota_stopped reason), e) m =
        Moves-trans drive config m ((Moving-end_done dest false).at e)
    Moves-end_walk dest b (raised (runtime_error t), e) m =
        Moves-trans drive config m ((Moving-fail_walk dest (runtime_error t)).at e)
    Moves-end_walk dest b (raised (value_error t), e) m =
        Moves-trans drive config m ((Moving-fail_walk dest (value_error t)).at e)
    Moves-end_walk dest b (raised (http x), e) m =
        Moves-trans drive config m ((Moving-fail_walk dest (http x)).at e)
    Moves-end_walk dest b (out_of_fuel, e) m = m

    Moving-walk_all :
        (source : String) (dest : Option String)
        → Mv (walk_all drive config pages depth source dest)
    Moving-walk_all source dest = record {
      at = λ e.
          Moves-end_walk dest (books e) (walk drive config pages depth source dest e)
            ((Moving-walk drive config pages depth source dest).at e);
    }

    Moving-merge_resume : (loaded : ResumeState) → Mv (modify (merge_resume loaded))
    unfolding merge_resume
    Moving-merge_resume loaded =
        Moving-modify drive config _ (λ e. Moves-one drive config (learns _ refl))

    Moving-resume_with :
        (source : String) (dest : Option String) (r : Reply ResumeState)
        → Mv (resume_with drive config pages depth source dest r)
    unfolding resume_with
    Moving-resume_with source dest (reply loaded) =
        Moving-then drive config _ _ (Moving-merge_resume loaded) (Moving-walk_all source dest)
    Moving-resume_with source dest (failed (runtime_error message)) =
        Moving-refuse drive config message
    Moving-resume_with source dest (failed (quota_stopped o)) = Moving-raise drive config _
    Moving-resume_with source dest (failed (value_error t)) = Moving-raise drive config _
    Moving-resume_with source dest (failed (http x)) = Moving-raise drive config _

    Moving-with_root :
        (source : String) (account : Option String) (r : Reply (Option String))
        → Mv (with_root drive config pages depth source account r)
    unfolding with_root
    Moving-with_root source account (reply dest) =
        Moving-then drive config _ _ (Moving-quiet drive config (set_dest dest) (λ e. refl)) (
          Moving-if drive config (is_set dest) _ _
            (Moving-bind drive config _ _
              (Moving-attempt drive config _
                (Moving-load drive config pages (or_else dest "") account false false))
              (Moving-resume_with source dest))
            (Moving-walk_all source dest))
    Moving-with_root source account (failed (quota_stopped o)) =
        Moving-finalize drive config pages depth none false
    Moving-with_root source account (failed (runtime_error message)) = Moving-refuse drive config _
    Moving-with_root source account (failed (value_error t)) = Moving-raise drive config _
    Moving-with_root source account (failed (http x)) = Moving-raise drive config _

    Moving-with_source :
        (source parent : String) (account : Option String) (r : Reply FileReply)
        → Mv (with_source drive config pages depth source parent account r)
    unfolding with_source
    Moving-with_source source parent account (failed exc) = Moving-refuse drive config _
    Moving-with_source source parent account (reply meta) =
        Moving-bind drive config _ _
          (Moving-attempt drive config _ (
            Moving-get_or_create_folder drive config (from_api meta).name (some source) none
              (some parent)))
          (Moving-with_root source account)

    Moving-with_preflight :
        (source parent : String) (account problem : Option String)
        → Mv (with_preflight drive config pages depth source parent account problem)
    unfolding with_preflight
    Moving-with_preflight source parent account problem =
        Moving-if drive config (is_set problem) _ _
          (Moving-refuse drive config (or_else problem ""))
          (Moving-ask drive config (drive.get_metadata source) _
            (Moving-with_source source parent account))

    Moving-with_place :
        (source parent : String) (account : Option String) (inside : Bool)
        → Mv (with_place drive config pages depth source parent account inside)
    unfolding with_place
    Moving-with_place source parent account inside =
        Moving-if drive config inside _ _ (Moving-refuse drive config _) (
          Moving-bind drive config _ _ (Moving-preflight drive config parent)
            (Moving-with_preflight source parent account))

    Moving-with_account :
        (source parent : String) (account : Option String)
        → Mv (with_account drive config pages depth source parent account)
    unfolding with_account
    Moving-with_account source parent account =
        Moving-then drive config _ _
          (Moving-quiet drive config (set_account source account) (λ e. refl))
          (Moving-bind drive config _ _
            (Moving-if drive config (parent == source) _ _ (Moving-pure drive config true)
              (Moving-is_descendant_of drive config parent source))
            (Moving-with_place source parent account))

    Moving-start :
        (source parent : Option String) → Mv (start drive config pages depth source parent)
    unfolding start
    Moving-start (some source) (some parent) =
        Moving-bind drive config _ _ (Moving-account_id drive config)
          (Moving-with_account source parent)
    Moving-start none parent = Moving-raise drive config _
    Moving-start (some source) none = Moving-raise drive config _

    -- Whatever Drive answers and however the run ends, all that it does to the books is a sequence of
    -- moves: failures are entered, the log is read, the run is stopped or explained, and files are
    -- handled by single steps, none of them after a stop.
    pub Moving-run : Mv (run drive config pages depth)
    unfolding run
    Moving-run = record {
      at = λ e.
          Moves-if drive config (books e) (is_nonempty (validate drive.show_float config)) _ _
            ((Moving-refuse drive config
                ("Invalid input: " <> join "; " (validate drive.show_float config))).at
              e)
            ((Moving-start (extract_folder_id config.source_link)
                (extract_folder_id config.dest_link)).at
              e);
    }
