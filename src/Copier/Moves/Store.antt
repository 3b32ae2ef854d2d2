-- ===== src/Copier/Moves/Store.antt =====
-- The loading of the log leaves the books alone.
use gdrive_turbo_copy.Prelude.{
  arith, ℕ, zero, suc, ◌≡◌, String, Bool, Option, none, some, List, [], ◌∷◌, ◌++◌, keep, is_set,
  string_eq,
}
use gdrive_turbo_copy.Models.DriveFile.{FileReply}
use gdrive_turbo_copy.Models.Config.{CopyConfig}
use gdrive_turbo_copy.Models.Records.{new_state, ResumeState}
use gdrive_turbo_copy.Retry.Errors.{value_error}
use gdrive_turbo_copy.Retry.Loop.{Reply, reply, failed}
use gdrive_turbo_copy.Resume.Read.{Read, ok, bad, deserialize}
use gdrive_turbo_copy.Resume.Load.{
  is_log, list_logs_answer, list_log_files, parsed, parse_media, read_id, read_log, unreadable,
  absorbed, note_own, absorb_answer, absorb, load_listed, load,
}
use gdrive_turbo_copy.Resume.Store.{log_name_for}
use gdrive_turbo_copy.Copier.Drive.{Drive, Page}
use gdrive_turbo_copy.Copier.Engine.{
  Engine, Outcome, done, raised, out_of_fuel, Action, settle, attempt,
}
use gdrive_turbo_copy.Copier.Book.Frame.{Books, books}
use gdrive_turbo_copy.Copier.Moves.{
  Moves, Moves-if, Moves-trans, rests, Moves-same, Moving, Moving-pure, Moving-raise, Moving-call,
  Moving-bind, Moving-continue,
}

module _ (drive : Drive) (config : CopyConfig) where
  abbrev Mv : {A : Type 0} → Action drive.World A → Type 0
  Mv = Moving drive config

  Moves-settle :
      {A : Type 0} (b : Books) (out : Outcome A × Engine drive.World)
      → Moves drive config b (books out.1)
      → Moves drive config b (books (settle out).1)
  Moves-settle b (done a, e) m = m
  Moves-settle b (raised x, e) m = m
  Moves-settle b (out_of_fuel, e) m = m

  pub Moving-attempt : {A : Type 0} (m : Action drive.World A) → Mv m → Mv (attempt m)
  Moving-attempt m k = record { at = λ e. Moves-settle (books e) (m e) (k.at e) }

  Moving-list_logs_answer :
      (rest : Option String → List FileReply → Action drive.World (List FileReply))
      → ((next : Option String) (now : List FileReply) → Mv (rest next now))
      → (out : List FileReply) (r : Reply Page) → Mv (list_logs_answer drive rest out r)
  unfolding list_logs_answer
  Moving-list_logs_answer rest k out (failed exc) = Moving-raise drive config exc
  Moving-list_logs_answer rest k out (reply (files, next)) = record {
    at = λ e.
        Moves-if drive config (books e) (is_set next) (rest next (out ++ keep is_log files) e)
          (done (out ++ keep is_log files), e) ((k next (out ++ keep is_log files)).at e) rests;
  }

  Moving-list_log_files :
      (pages : ℕ) (parent : String) (token : Option String) (out : List FileReply)
      → Mv (list_log_files drive pages parent token out)
  unfolding list_log_files
  Moving-list_log_files zero parent token out = record { at = λ e. rests }
  Moving-list_log_files (suc pages) parent token out = record {
    at = λ e.
        let p = drive.list_children parent [] token e.world in
        (Moving-list_logs_answer _ (Moving-list_log_files pages parent) out p.0).at
          (record e { world = p.1 });
  }

  Moving-parsed : (r : Read ResumeState) → Mv (parsed drive r)
  Moving-parsed (ok state) = Moving-pure drive config state
  Moving-parsed (bad message) = Moving-raise drive config (value_error message)

  Moving-parse_media : (r : Reply String) → Mv (parse_media drive r)
  Moving-parse_media (failed exc) = Moving-raise drive config exc
  Moving-parse_media (reply text) = record {
    at = λ e. (Moving-parsed (deserialize drive.codec (drive.now e.world) text)).at e;
  }

  Moving-read_id : (o : Option String) → Mv (read_id drive o)
  Moving-read_id none = Moving-raise drive config (value_error "'id'")
  Moving-read_id (some id) =
      Moving-bind drive config _ _ (Moving-call drive config (drive.get_media id))
        Moving-parse_media

  Moving-read_log : (entry : FileReply) → Mv (read_log drive entry)
  unfolding read_log
  Moving-read_log entry = Moving-read_id entry.id

  note_own-books :
      (entry : FileReply) (e : Engine drive.World) → books (note_own drive entry e) ≡ books e
  note_own-books entry e = ground arith

  Moving-absorb_answer :
      (ignore_broken : Bool) (entry : FileReply) (merged : ResumeState)
      (rest : ResumeState → Action drive.World ResumeState)
      → ((now : ResumeState) → Mv (rest now))
      → (r : Reply ResumeState) → Mv (absorb_answer drive ignore_broken entry merged rest r)
  unfolding absorb_answer
  Moving-absorb_answer ignore_broken entry merged rest k (failed exc) = record {
    at = λ e.
        Moves-if drive config (books e) ignore_broken (rest merged e)
          (raised (unreadable drive entry exc), e) ((k merged).at e) rests;
  }
  Moving-absorb_answer ignore_broken entry merged rest k (reply state) = record {
    at = λ e.
        Moves-trans drive config
          (Moves-same drive config (books e) (books (note_own drive entry e))
            (note_own-books entry e))
          ((k (absorbed drive entry e merged state)).at (note_own drive entry e));
  }

  Moving-absorb :
      (ignore_broken : Bool) (entries : List FileReply) (merged : ResumeState)
      → Mv (absorb drive ignore_broken entries merged)
  unfolding absorb
  Moving-absorb ignore_broken [] merged = record { at = λ e. rests }
  Moving-absorb ignore_broken (entry ∷ entries) merged =
      Moving-bind drive config _ _ (Moving-attempt _ (Moving-read_log entry))
        (Moving-absorb_answer ignore_broken entry merged _ (Moving-absorb ignore_broken entries))

  Moving-load_listed :
      (ignore_broken start_fresh : Bool) (merged : ResumeState) (r : Reply (List FileReply))
      → Mv (load_listed drive ignore_broken start_fresh merged r)
  unfolding load_listed
  Moving-load_listed ignore_broken start_fresh merged (failed exc) = record {
    at = λ e. Moves-if drive config (books e) start_fresh _ _ rests rests;
  }
  Moving-load_listed ignore_broken start_fresh merged (reply entries) =
      Moving-absorb ignore_broken entries merged

  pub Moving-load :
      (pages : ℕ) (parent : String) (account : Option String) (ignore_broken start_fresh : Bool)
      → Mv (load drive pages parent account ignore_broken start_fresh)
  unfolding load
  Moving-load pages parent account ignore_broken start_fresh = record {
    at = λ e.
        Moving-continue drive config (books e) _ _
          ((Moving-attempt _ (Moving-list_log_files pages parent none [])).at
            (record e { own_log_name = some (log_name_for drive account) }))
          (Moving-load_listed ignore_broken start_fresh
            (new_state account (some parent) none (drive.now e.world)));
  }
