-- ===== src/Cli/Laws.antt =====
-- What `main` comes to, whatever Drive answers.
use gdrive_turbo_copy.Prelude.{
  ℕ, ◌≡◌, refl, sym, subst, String, Bool, true, false, arith, inl, ap, ◌∙◌, ◌↔◌, eqb, if◌then◌else◌,
}
use mathlib.Core.Bool.{false≢true}
use gdrive_turbo_copy.Models.Config.{CopyConfig, validate}
use gdrive_turbo_copy.Models.Config.Laws.{IsValid, validate_iff}
use gdrive_turbo_copy.Models.Records.{CopyResult, is_nonempty}
use gdrive_turbo_copy.Copier.Checks.{over_budget}
use gdrive_turbo_copy.Copier.Drive.{Drive}
use gdrive_turbo_copy.Copier.Engine.{Engine, Outcome, done, raised, out_of_fuel, continue}
use gdrive_turbo_copy.Copier.Book.Frame.{books}
use gdrive_turbo_copy.Copier.Files.Effect.Budget.{InBudget}
use gdrive_turbo_copy.Copier.Run.{run}
use gdrive_turbo_copy.Copier.Run.Laws.{run-InBudget, nonempty_of}
use gdrive_turbo_copy.Cli.{
  Args, config_from_args, new_engine, Login, logged_in, login_failed, exit_code, report_exit,
  after_login, main,
}

module _ (drive : Drive) (pages depth : ℕ) where
  new_engine-InBudget :
      (config : CopyConfig) (run_id : String) (w : drive.World)
      → InBudget config (books (new_engine drive config run_id w))
  unfolding new_engine over_budget
  new_engine-InBudget config run_id w = record {
    fits = ground arith;
    paid = omega arith;
    calm = inl (omega arith);
    explained = λ h. absurd (false≢true h);
  }

  continue-state :
      (out : Outcome CopyResult × Engine drive.World)
      → (continue out (report_exit drive pages depth)).1 ≡ out.1
  continue-state (done r, e) = refl
  continue-state (raised x, e) = refl
  continue-state (out_of_fuel, e) = refl

  after_login-InBudget :
      (config : CopyConfig) (login : Login) (e : Engine drive.World)
      → InBudget config (books e)
      → InBudget config (books (after_login drive pages depth config login e).1)
  unfolding after_login
  after_login-InBudget config login_failed e v = v
  after_login-InBudget config logged_in e v =
      subst (λ x. InBudget config (books x)) (sym (continue-state (run drive config pages depth e)))
        (run-InBudget drive config pages depth e v)

  InBudget-if :
      (config : CopyConfig) (b : Bool) (x y : Outcome ℕ × Engine drive.World)
      → InBudget config (books x.1)
      → InBudget config (books y.1)
      → InBudget config (books (if b then x else y).1)
  InBudget-if config true x y v u = v
  InBudget-if config false x y v u = u

  -- Whatever the arguments are, whatever the login and Drive answer and however `main` ends, its copier
  -- has kept within the size that the arguments allow, counts as copied no more bytes than it has
  -- reserved, and has a reason if it was stopped.
  pub main-InBudget :
      (args : Args) (login : Login) (run_id : String) (w : drive.World)
      → InBudget (config_from_args args) (books (main drive pages depth args login run_id w).1)
  unfolding main
  main-InBudget args login run_id w =
      let config = config_from_args args in
      let v = new_engine-InBudget config run_id w in
      InBudget-if config (is_nonempty (validate drive.show_float config)) _ _ v
        (after_login-InBudget config login (new_engine drive config run_id w) v)

  -- Whether an outcome is the exit code 2.
  abbrev is_two : Outcome ℕ → Bool
  is_two (done n) = eqb n 2
  is_two _ = false

  exit_code-valid : (result : CopyResult) → is_two (done (exit_code result)) ≡ false
  unfolding exit_code
  exit_code-valid result = ground arith

  continue-valid :
      (out : Outcome CopyResult × Engine drive.World)
      → is_two (continue out (report_exit drive pages depth)).0 ≡ false
  continue-valid (done r, e) = exit_code-valid r
  continue-valid (raised x, e) = refl
  continue-valid (out_of_fuel, e) = refl

  after_login-valid :
      (config : CopyConfig) (login : Login) (e : Engine drive.World)
      → is_two (after_login drive pages depth config login e).0 ≡ false
  unfolding after_login
  after_login-valid config login_failed e = refl
  after_login-valid config logged_in e = continue-valid (run drive config pages depth e)

  -- `main` returns 2 exactly when the configuration that the arguments make is not valid: a link
  -- without a folder id, or a number out of its range. No other ending has this code, whatever the
  -- login and Drive answer.
  pub main-invalid :
      (args : Args) (login : Login) (run_id : String) (w : drive.World)
      → ((main drive pages depth args login run_id w).0 ≡ done 2)
        ↔ (IsValid (config_from_args args) → ⊥)
  unfolding main
  main-invalid args login run_id w =
      let config = config_from_args args in
      let e = new_engine drive config run_id w in
      (
        λ two valid.
            let passed = after_login-valid config login e in
            false≢true (
              sym passed
              ∙ ap is_two (
                  sym (
                    ap
                      (λ b.
                        (if b then (done 2, e) else after_login drive pages depth config login e).0)
                      (ap is_nonempty ((validate_iff drive.show_float config).1 valid)))
                  ∙ two)),
        λ invalid.
            rw
              (nonempty_of (validate drive.show_float config)
                (λ none_left. invalid ((validate_iff drive.show_float config).0 none_left)))
              refl,
      )
