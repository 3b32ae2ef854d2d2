-- ===== src/Copier/Moves/Calls.antt =====
-- The moves of the listings and of what ends a run early.
use gdrive_turbo_copy.Prelude.{
  ℕ, zero, suc, ◌+◌, ◌≡◌, refl, String, true, [], ◌++◌, Option, none, List, arith, is_set, or_else,
}
use gdrive_turbo_copy.Prelude.Int.{ℤ}
use gdrive_turbo_copy.Models.DriveFile.{DriveFile}
use gdrive_turbo_copy.Models.Config.{CopyConfig}
use gdrive_turbo_copy.Retry.Errors.{Exc, classify_error}
use gdrive_turbo_copy.Retry.Loop.{Reply, reply, failed}
use gdrive_turbo_copy.Index.{DestinationIndex, build}
use gdrive_turbo_copy.Copier.Drive.{Drive, Page}
use gdrive_turbo_copy.Copier.Engine.{Engine, done, Action, modify}
use gdrive_turbo_copy.Copier.Book.{Links, record_failed, stop_with}
use gdrive_turbo_copy.Copier.Book.Frame.{books, save_log-books, record_failed-books}
use gdrive_turbo_copy.Copier.Checks.{is_fatal_quota}
use gdrive_turbo_copy.Copier.Failure.{raise_if_fatal_quota, stop_run, save_before_stop}
use gdrive_turbo_copy.Copier.Listing.{
  quota_while, mark_broken, list_failed, extend, is_last, files_of, list_answer, list_from,
  list_children, index_failed, index_answer, index_from, build_index,
}
use gdrive_turbo_copy.Copier.Moves.{
  Moves-if, fails, halts, rests, Moves-one, Moves-same, Moving, Moving-pure, Moving-raise,
  Moving-if, Moving-modify, Moving-then,
}

module _ (drive : Drive) (config : CopyConfig) where
  abbrev pub Mv : {A : Type 0} → Action drive.World A → Type 0
  Mv = Moving drive config

  -- A change that leaves the books alone.
  pub Moving-quiet :
      (f : Engine drive.World → Engine drive.World)
      → ((e : Engine drive.World) → books (f e) ≡ books e)
      → Mv (modify f)
  Moving-quiet f h =
      Moving-modify drive config f (λ e. Moves-same drive config (books e) (books (f e)) (h e))

  pub Moving-record_failed :
      (src : DriveFile) (reason message : String) (links : Links)
      → Mv (modify (record_failed drive config src reason message links))
  Moving-record_failed src reason message links = Moving-modify drive config _ (λ e.
      Moves-one drive config (fails (record_failed-books drive config src reason message links e)))

  Moving-stop_with : (reason : String) → Mv (modify (stop_with reason))
  unfolding stop_with
  Moving-stop_with reason =
      Moving-modify drive config _ (λ e. Moves-one drive config (halts reason refl))

  save_before_stop-books :
      (e : Engine drive.World) → books (save_before_stop drive config e) ≡ books e
  save_before_stop-books e = ground (arith, save_log-books drive config true e)

  pub Moving-raise_if_fatal_quota :
      (exc : Exc) (context : String) → Mv (raise_if_fatal_quota drive config exc context)
  unfolding raise_if_fatal_quota stop_run
  Moving-raise_if_fatal_quota exc context =
      Moving-if drive config (is_fatal_quota (classify_error exc)) _ _
        (Moving-then drive config _ _ (Moving-stop_with _) (
          Moving-then drive config _ _
            (Moving-quiet (save_before_stop drive config) save_before_stop-books)
            (Moving-raise drive config _)))
        (Moving-pure drive config tt)

  Moving-quota_while :
      {A : Type 0} (doing : String) (exc : Exc) → Mv (quota_while drive config {A = A} doing exc)
  unfolding quota_while
  Moving-quota_while doing exc =
      Moving-then drive config _ _ (Moving-stop_with _) (Moving-raise drive config _)

  module _ (folder_id parent : String) (from_page to_page : ℤ) where
    Moving-list_failed :
        (exc : Exc) (page : ℕ) (out : List DriveFile)
        → Mv (list_failed drive config folder_id parent from_page to_page exc page out)
    unfolding list_failed mark_broken
    Moving-list_failed exc page out =
        Moving-if drive config (is_fatal_quota (classify_error exc)) _ _ (Moving-quota_while _ exc)
          (Moving-then drive config _ _ (Moving-record_failed _ _ _ _) (
            Moving-then drive config _ _
              (Moving-quiet (mark_broken drive config folder_id parent from_page to_page)
                (λ e. refl))
              (Moving-pure drive config out)))

    Moving-list_answer :
        (rest : Option String → List DriveFile → Action drive.World (List DriveFile)) (page : ℕ)
        (out : List DriveFile) (answer : Reply Page)
        → ((next : Option String) (now : List DriveFile) → Mv (rest next now))
        → Mv (list_answer drive config folder_id parent from_page to_page rest page out answer)
    unfolding list_answer
    Moving-list_answer rest page out (failed exc) k = record {
      at = (Moving-list_failed exc page out).at;
    }
    Moving-list_answer rest page out (reply (files, next)) k = record {
      at = λ e.
          let now = extend drive config folder_id parent from_page to_page page files out in
          Moves-if drive config (books e)
            (is_last drive config folder_id parent from_page to_page page next) (done now, e)
            (rest next now e) rests ((k next now).at e);
    }

    Moving-list_from :
        (fuel : ℕ) (token : Option String) (page : ℕ) (out : List DriveFile)
        → Mv (list_from drive config folder_id parent from_page to_page fuel token page out)
    unfolding list_from
    Moving-list_from zero token page out = record { at = λ e. rests }
    Moving-list_from (suc fuel) token page out = record {
      at = λ e.
          let p = drive.list_children folder_id config.exclude_substrings token e.world in
          (Moving-list_answer _ (page + 1) out p.0
              (λ next now. Moving-list_from fuel next (page + 1) now)).at
            (record e { world = p.1 });
    }

    pub Moving-list_children :
        (fuel : ℕ) → Mv (list_children drive config folder_id parent from_page to_page fuel)
    unfolding list_children
    Moving-list_children fuel = Moving-list_from fuel none 0 []

  Moving-index_failed :
      (folder_id : String) (exc : Exc) (out : List DriveFile)
      → Mv (index_failed drive config folder_id exc out)
  unfolding index_failed
  Moving-index_failed folder_id exc out =
      Moving-if drive config (is_fatal_quota (classify_error exc)) _ _ (Moving-quota_while _ exc)
        (Moving-pure drive config (build out))

  Moving-index_answer :
      (folder_id : String)
      (rest : Option String → List DriveFile → Action drive.World DestinationIndex)
      (out : List DriveFile) (answer : Reply Page)
      → ((next : Option String) (now : List DriveFile) → Mv (rest next now))
      → Mv (index_answer drive config folder_id rest out answer)
  unfolding index_answer
  Moving-index_answer folder_id rest out (failed exc) k = record {
    at = (Moving-index_failed folder_id exc out).at;
  }
  Moving-index_answer folder_id rest out (reply (files, next)) k = record {
    at = λ e.
        let now = out ++ files_of files in
        Moves-if drive config (books e) (is_set next) (rest next now e) (done (build now), e)
          ((k next now).at e) rests;
  }

  Moving-index_from :
      (folder_id : String) (fuel : ℕ) (token : Option String) (out : List DriveFile)
      → Mv (index_from drive config folder_id fuel token out)
  unfolding index_from
  Moving-index_from folder_id zero token out = record { at = λ e. rests }
  Moving-index_from folder_id (suc fuel) token out = record {
    at = λ e.
        let p = drive.list_children folder_id [] token e.world in
        (Moving-index_answer folder_id _ out p.0
            (λ next now. Moving-index_from folder_id fuel next now)).at
          (record e { world = p.1 });
  }

  pub Moving-build_index :
      (dest : Option String) (fuel : ℕ) → Mv (build_index drive config dest fuel)
  unfolding build_index
  Moving-build_index dest fuel =
      Moving-if drive config (is_set dest) _ _ (Moving-index_from (or_else dest "") fuel none [])
        (Moving-pure drive config _)
