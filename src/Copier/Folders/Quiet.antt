-- ===== src/Copier/Folders/Quiet.antt =====
-- The questions to Drive behind `_get_or_create_folder`: they change nothing, or stop the run.
use gdrive_turbo_copy.Prelude.{
  ◌≡◌, ◌⊎◌, refl, sym, ap, subst, String, true, false, Option, none, List, arith, inl, inr, is_set,
  Bool-cases, string_eq,
}
use gdrive_turbo_copy.Models.Config.{CopyConfig}
use gdrive_turbo_copy.Models.DriveFile.{FileReply}
use gdrive_turbo_copy.Retry.Errors.{Exc, classify_error}
use gdrive_turbo_copy.Retry.Loop.{Reply, reply, failed}
use gdrive_turbo_copy.Index.{first_set}
use gdrive_turbo_copy.Copier.Drive.{Drive}
use gdrive_turbo_copy.Copier.Engine.{Engine, Outcome, done, raised, out_of_fuel, Action, ◌>>◌, pure}
use gdrive_turbo_copy.Copier.Book.{stop_with}
use gdrive_turbo_copy.Copier.Book.Frame.{save_log-books}
use gdrive_turbo_copy.Copier.Checks.{is_fatal_quota}
use gdrive_turbo_copy.Copier.Failure.{raise_if_fatal_quota, stop_run, save_before_stop}
use gdrive_turbo_copy.Copier.Folders.{
  find_answer, find_dest_folder, verify_answer, verify_dest_folder,
}

module _ (drive : Drive) (config : CopyConfig) where
  -- The run has been stopped.
  abbrev pub Stopped : {A : Type 0} → Outcome A × Engine drive.World → Type 0
  Stopped (done _, e) = ⊥
  Stopped (raised x, e) = e.stop ≡ true
  Stopped (out_of_fuel, e) = ⊥

  save_before_stop-stop :
      (e : Engine drive.World) → e.stop ≡ true → (save_before_stop drive config e).stop ≡ true
  save_before_stop-stop e h = ground (arith, ap (λ b. b.stop) (save_log-books drive config true e))

  pub quota_cases :
      {A : Type 0} (exc : Exc) (context : String) (k : Action drive.World A)
      (e : Engine drive.World)
      → ((raise_if_fatal_quota drive config exc context >> k) e ≡ k e)
        ⊎ Stopped ((raise_if_fatal_quota drive config exc context >> k) e)
  unfolding raise_if_fatal_quota stop_run stop_with
  quota_cases exc context k e = elim (Bool-cases (is_fatal_quota (classify_error exc))) [
    | inl fatal ↦ inr (rw fatal (save_before_stop-stop _ refl))
    | inr other ↦ inl (rw other refl)
  ]

  -- A question to Drive: nothing changes but the world, or the run is stopped.
  abbrev pub Quiet : {A : Type 0} → Engine drive.World → Outcome A × Engine drive.World → Type 0
  Quiet e (done _, e') = (w : drive.World) × (e' ≡ record e { world = w })
  Quiet e (raised x, e') = e'.stop ≡ true
  Quiet e (out_of_fuel, e') = ⊥

  Stopped-Quiet :
      {A : Type 0} (e : Engine drive.World) (out : Outcome A × Engine drive.World)
      → Stopped out
      → Quiet e out
  Stopped-Quiet e (done a, e') s = absurd s
  Stopped-Quiet e (raised x, e') s = s
  Stopped-Quiet e (out_of_fuel, e') s = s

  give_up-Quiet :
      {A : Type 0} (a : A) (exc : Exc) (context : String) (e : Engine drive.World)
      → Quiet e ((raise_if_fatal_quota drive config exc context >> pure a) e)
  give_up-Quiet a exc context e = elim (quota_cases exc context (pure a) e) [
    | inl same ↦ subst (Quiet e) (sym same) (e.world, refl)
    | inr stopped ↦ Stopped-Quiet e _ stopped
  ]

  find_answer-Quiet :
      (answer : Reply (List String)) (e : Engine drive.World)
      → Quiet e (find_answer drive config answer e)
  unfolding find_answer
  find_answer-Quiet (reply ids) e = (e.world, refl)
  find_answer-Quiet (failed exc) e = give_up-Quiet none exc _ e

  pub find_dest_folder-Quiet :
      (parent_id : String) (source shortcut : Option String) (e : Engine drive.World)
      → Quiet e (find_dest_folder drive config parent_id source shortcut e)
  unfolding find_dest_folder
  find_dest_folder-Quiet parent_id source shortcut e =
      elim (Bool-cases (is_set (first_set shortcut source))) [
        | inl set ↦ rw set (find_answer-Quiet _ (record e { world = _ }))
        | inr unset ↦ rw unset (e.world, refl)
      ]

  verify_answer-Quiet :
      (name key : String) (answer : Reply FileReply) (e : Engine drive.World)
      → Quiet e (verify_answer drive config name key answer e)
  unfolding verify_answer
  verify_answer-Quiet name key (reply item) e = (e.world, refl)
  verify_answer-Quiet name key (failed exc) e = give_up-Quiet false exc _ e

  pub verify_dest_folder-Quiet :
      (folder_id name key : String) (e : Engine drive.World)
      → Quiet e (verify_dest_folder drive config folder_id name key e)
  unfolding verify_dest_folder
  verify_dest_folder-Quiet folder_id name key e =
      verify_answer-Quiet name key _ (record e { world = _ })
