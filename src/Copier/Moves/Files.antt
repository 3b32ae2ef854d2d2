-- ===== src/Copier/Moves/Files.antt =====
-- The moves of copying a file, and of the batched listings.
use gdrive_turbo_copy.Prelude.{
  ◌≡◌, sym, subst, String, false, not, Option, none, or_else, inl, inr, if◌then◌else◌,
}
use gdrive_turbo_copy.Prelude.Int.{pos, ltb_ℤ}
use gdrive_turbo_copy.Prelude.Sets.{discard}
use gdrive_turbo_copy.Models.DriveFile.{DriveFile}
use gdrive_turbo_copy.Models.Config.{CopyConfig}
use gdrive_turbo_copy.Retry.Errors.{Exc, quota_stopped, runtime_error, value_error, http}
use gdrive_turbo_copy.Index.{DestinationIndex}
use gdrive_turbo_copy.Copier.Drive.{Drive}
use gdrive_turbo_copy.Copier.Engine.{Engine, Outcome, done, raised, out_of_fuel, Action}
use gdrive_turbo_copy.Copier.Book.Frame.{Books, books}
use gdrive_turbo_copy.Copier.Files.{copy_file}
use gdrive_turbo_copy.Copier.Files.Effect.{Forgets, copy_file-Takes, site_of}
use gdrive_turbo_copy.Copier.Files.Effect.Step.{Site, Steps, returns, raises}
use gdrive_turbo_copy.Copier.Submit.{recover, worker_failed, copy_file_worker, submit_file}
use gdrive_turbo_copy.Copier.Moves.{
  Moves, handles, learns, rests, Moves-trans, Moves-one, Moves-same, Moves-if, Moving,
}
use gdrive_turbo_copy.Copier.Moves.Calls.{Moving-record_failed}

module _ (drive : Drive) (config : CopyConfig) where
  abbrev Mv : {A : Type 0} → Action drive.World A → Type 0
  Mv = Moving drive config

  Forgets-Moves : (eff : String) (b b' : Books) → Forgets eff b b' → Moves drive config b b'
  Forgets-Moves eff b b' (inl same) = Moves-same drive config b b' same
  Forgets-Moves eff b b' (inr less) =
      Moves-one drive config (learns (discard eff b.copied_ids) less)

  Forgets-stop : (eff : String) (b b' : Books) → Forgets eff b b' → b.stop ≡ false → b'.stop ≡ false
  Forgets-stop eff b b' (inl same) h = rw same h
  Forgets-stop eff b b' (inr less) h = rw less h

  Steps-Moves :
      {A : Type 0} (src : DriveFile) (shortcut_id : Option String) (site : Site drive) (b : Books)
      (out : Outcome A × Engine drive.World)
      → b.stop ≡ false
      → Steps drive config src shortcut_id site b out
      → Moves drive config b (books out.1)
  Steps-Moves src shortcut_id site b (done a, e) h s =
      Moves-one drive config (handles src shortcut_id site returns h s)
  Steps-Moves src shortcut_id site b (raised x, e) h s =
      Moves-one drive config (handles src shortcut_id site (raises x) h s)
  Steps-Moves src shortcut_id site b (out_of_fuel, e) h s = absurd s

  module _ (dest : Option String) (src : DriveFile) (index : DestinationIndex)
      (parent : String) where
    pub Moving-copy_file :
        (shortcut_id : Option String)
        → Mv (copy_file drive config dest src index parent shortcut_id)
    Moving-copy_file shortcut_id = record {
      at = λ e. elim (copy_file-Takes drive config src shortcut_id dest parent index e) [
        | inl (stopped, same) ↦
            subst (λ out. Moves drive config (books e) (books out.1)) (sym same) rests
        | inr (running, (b, forgets, (steps, _))) ↦
            Moves-trans drive config
              (Forgets-Moves (or_else shortcut_id src.id) (books e) b forgets)
              (Steps-Moves src shortcut_id
                (site_of drive config src shortcut_id dest parent index e) b
                (copy_file drive config dest src index parent shortcut_id e)
                (Forgets-stop (or_else shortcut_id src.id) (books e) b forgets running) steps)
      ];
    }

    worker_failed-Moves :
        (exc : Exc) (e : Engine drive.World)
        → Moves drive config (books e) (books (worker_failed drive config exc src parent e))
    worker_failed-Moves exc e = (Moving-record_failed drive config src _ _ _).at e

    recover-Moves :
        (b : Books) (out : Outcome DestinationIndex × Engine drive.World)
        → Moves drive config b (books out.1)
        → Moves drive config b (books (recover drive config src index parent out).1)
    unfolding recover
    recover-Moves b (done index', e) m = m
    recover-Moves b (raised (quota_stopped reason), e) m = m
    recover-Moves b (raised (runtime_error t), e) m =
        Moves-trans drive config m (worker_failed-Moves (runtime_error t) e)
    recover-Moves b (raised (value_error t), e) m =
        Moves-trans drive config m (worker_failed-Moves (value_error t) e)
    recover-Moves b (raised (http x), e) m =
        Moves-trans drive config m (worker_failed-Moves (http x) e)
    recover-Moves b (out_of_fuel, e) m = m

    Moving-copy_file_worker : Mv (copy_file_worker drive config dest src index parent)
    unfolding copy_file_worker
    Moving-copy_file_worker = record {
      at = λ e.
          Moves-if drive config (books e) e.stop (done index, e)
            (recover drive config src index parent
              (copy_file drive config dest src index parent none e))
            rests
            (recover-Moves (books e) (copy_file drive config dest src index parent none e)
              ((Moving-copy_file none).at e));
    }

    pub Moving-submit_file : Mv (submit_file drive config dest src index parent)
    unfolding submit_file
    Moving-submit_file = record {
      at = λ e.
          Moves-if drive config (books e) (not (ltb_ℤ (pos 1) config.workers))
            (copy_file drive config dest src index parent none e)
            (if e.stop
              then (done index, e)
              else copy_file_worker drive config dest src index parent e)
            ((Moving-copy_file none).at e)
            (Moves-if drive config (books e) e.stop (done index, e)
              (copy_file_worker drive config dest src index parent e) rests
              (Moving-copy_file_worker.at e));
    }
