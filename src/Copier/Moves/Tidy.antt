-- ===== src/Copier/Moves/Tidy.antt =====
-- The tidying and the report of failures leave the books alone.
use gdrive_turbo_copy.Prelude.{
  ℕ, zero, suc, String, not, Option, ◌||◌, none, some, List, [], ◌∷◌, is_set, truthy, string_eq,
}
use gdrive_turbo_copy.Models.DriveFile.{FileReply}
use gdrive_turbo_copy.Models.Config.{CopyConfig}
use gdrive_turbo_copy.Models.Records.{FailedItem, is_nonempty}
use gdrive_turbo_copy.Retry.Errors.{value_error}
use gdrive_turbo_copy.Retry.Loop.{Reply, reply, failed}
use gdrive_turbo_copy.Resume.Cleanup.{
  is_trash, trash_id, trash_page, cleanup_answer, cleanup, owned_answer, first_owned, id_of,
  or_next, find_owned, or_raise, write_report, failed_report_name, report_text,
  export_failed_report,
}
use gdrive_turbo_copy.Copier.Drive.{Drive, Page}
use gdrive_turbo_copy.Copier.Engine.{done, Action}
use gdrive_turbo_copy.Copier.Book.Frame.{books}
use gdrive_turbo_copy.Copier.Moves.{
  Moves-if, rests, Moving, Moving-pure, Moving-raise, Moving-call, Moving-if, Moving-bind,
  Moving-then, Moving-test,
}

module _ (drive : Drive) (config : CopyConfig) where
  abbrev Mv : {A : Type 0} → Action drive.World A → Type 0
  Mv = Moving drive config

  Moving-trash_id : (o : Option String) → Mv (trash_id drive o)
  Moving-trash_id none = Moving-pure drive config tt
  Moving-trash_id (some id) =
      Moving-bind drive config _ _ (Moving-call drive config (drive.trash_file id))
        (λ r. Moving-pure drive config tt)

  Moving-trash_page : (files : List FileReply) → Mv (trash_page drive files)
  unfolding trash_page
  Moving-trash_page [] = record { at = λ e. rests }
  Moving-trash_page (f ∷ files) = record {
    at = λ e.
        Moves-if drive config (books e) (is_trash f) _ _
          ((Moving-then drive config _ _ (Moving-trash_id f.id) (Moving-trash_page files)).at e)
          ((Moving-trash_page files).at e);
  }

  Moving-cleanup_answer :
      (rest : Option String → Action drive.World (Unit {0}))
      → ((next : Option String) → Mv (rest next))
      → (r : Reply Page) → Mv (cleanup_answer drive rest r)
  unfolding cleanup_answer
  Moving-cleanup_answer rest k (failed exc) = Moving-raise drive config exc
  Moving-cleanup_answer rest k (reply (files, next)) =
      Moving-bind drive config _ _ (Moving-trash_page files) (λ u. record {
        at = λ e.
            Moves-if drive config (books e) (is_set next) (rest next e) (done tt, e) ((k next).at e)
              rests;
      })

  pub Moving-cleanup :
      (pages : ℕ) (parent : String) (token : Option String) → Mv (cleanup drive pages parent token)
  unfolding cleanup
  Moving-cleanup zero parent token = record { at = λ e. rests }
  Moving-cleanup (suc pages) parent token = record {
    at = λ e.
        let p = drive.list_children parent [] token e.world in
        (Moving-cleanup_answer _ (Moving-cleanup pages parent) p.0).at (record e { world = p.1 });
  }

  Moving-id_of : (o : Option String) → Mv (id_of drive o)
  Moving-id_of none = Moving-raise drive config (value_error "'id'")
  Moving-id_of (some id) = Moving-pure drive config (some id)

  Moving-or_next :
      (rest : Option String → Action drive.World (Option String))
      → ((next : Option String) → Mv (rest next))
      → (next : Option String) (o : Option FileReply) → Mv (or_next drive rest next o)
  Moving-or_next rest k next (some f) = record { at = λ e. (Moving-id_of f.id).at e }
  Moving-or_next rest k next none = record {
    at = λ e.
        Moves-if drive config (books e) (is_set next) (rest next e) (done none, e) ((k next).at e)
          rests;
  }

  Moving-owned_answer :
      (rest : Option String → Action drive.World (Option String))
      → ((next : Option String) → Mv (rest next))
      → (name : String) (r : Reply Page) → Mv (owned_answer drive rest name r)
  unfolding owned_answer
  Moving-owned_answer rest k name (failed exc) = Moving-raise drive config exc
  Moving-owned_answer rest k name (reply (files, next)) = record {
    at = (Moving-or_next rest k next (first_owned drive name files)).at;
  }

  Moving-find_owned :
      (pages : ℕ) (parent name : String) (token : Option String)
      → Mv (find_owned drive pages parent name token)
  unfolding find_owned
  Moving-find_owned zero parent name token = record { at = λ e. rests }
  Moving-find_owned (suc pages) parent name token = record {
    at = λ e.
        let p = drive.list_children parent [] token e.world in
        (Moving-owned_answer _ (Moving-find_owned pages parent name) name p.0).at
          (record e { world = p.1 });
  }

  Moving-or_raise : {A : Type 0} (r : Reply A) → Mv (or_raise drive r)
  Moving-or_raise (reply a) = Moving-pure drive config tt
  Moving-or_raise (failed exc) = Moving-raise drive config exc

  Moving-write_report :
      (parent text : String) (existing : Option String)
      → Mv (write_report drive parent text existing)
  Moving-write_report parent text existing =
      Moving-if drive config (is_set existing) _ _
        (Moving-bind drive config _ _ (Moving-call drive config _) Moving-or_raise)
        (Moving-bind drive config _ _ (Moving-call drive config _) Moving-or_raise)

  pub Moving-export_failed_report :
      (pages : ℕ) (parent : String) (items : List FailedItem)
      → Mv (export_failed_report drive pages parent items)
  unfolding export_failed_report
  Moving-export_failed_report pages parent items = record {
    at = λ e. Moving-test drive config (not (is_nonempty items) || not (truthy parent)) e tt _ (
        Moving-bind drive config _ _ (Moving-find_owned pages parent failed_report_name none)
          (Moving-write_report parent (report_text drive items (drive.now e.world))));
  }
