-- ===== src/Cli.antt =====
-- src/gdrive_turbo_copy/cli.py: from the parsed arguments to the exit code, with the construction of a
-- `Copier`. argparse, the signals, the printing and the login are calls of other libraries; the login
-- comes in by what it answers.
pub mod Laws
use gdrive_turbo_copy.Prelude.{
  ℕ, String, ◌<>◌, Bool, true, false, not, ◌&&◌, Option, none, some, List, [], ◌∷◌, keep, map,
  truthy, is_set, eqb, if◌then◌else◌,
}
use Prim.Native.Char.{code}
use gdrive_turbo_copy.Prelude.Int.{ℤ, Float}
use gdrive_turbo_copy.Urls.{strip}
use gdrive_turbo_copy.Models.Config.{CopyConfig, VerifyMode, validate}
use gdrive_turbo_copy.Models.Records.{CopyResult, new_result, new_state, is_nonempty}
use gdrive_turbo_copy.Copier.Drive.{Drive}
use gdrive_turbo_copy.Copier.Engine.{
  Engine, Outcome, done, raised, out_of_fuel, Action, pure, continue,
}
use gdrive_turbo_copy.Copier.Run.{run}

-- What `build_parser` yields.
pub record Args : Type 0 where
  pub source : String
  pub dest : String
  pub workers : ℤ
  pub max_size_gb : Float
  pub verify_mode : VerifyMode
  pub exclude : String
  pub from_page : ℤ
  pub to_page : ℤ
  pub allow_name_only : Bool
  pub dry_run : Bool
  pub max_tps : Float
  pub no_preserve_metadata : Bool
  pub ignore_default_visibility : Bool
  pub keep_revision_forever : Bool
  pub fast_list : Bool
  pub skip_completed_folders : Bool

-- A character more on the first of some texts.
abbrev pub onto_first : String → List String → List String
onto_first c [] = c ∷ []
onto_first c (s ∷ texts) = (c <> s) ∷ texts

-- `text.split(",")`
unfoldable pub split_commas : String → List String
split_commas String.[] = "" ∷ []
split_commas (String.◌∷◌ c s) =
    let rest = split_commas s in
    if eqb (code c) 44 then "" ∷ rest else onto_first (String.◌∷◌ c "") rest

unfoldable pub excludes_of : String → List String
excludes_of text = keep truthy (map strip (split_commas text))

unfoldable pub config_from_args : Args → CopyConfig
config_from_args args = record {
  source_link = args.source;
  dest_link = args.dest;
  workers = args.workers;
  max_copy_size_gb = args.max_size_gb;
  verify_mode = args.verify_mode;
  exclude_substrings = excludes_of args.exclude;
  dry_run = args.dry_run;
  from_page = args.from_page;
  to_page = args.to_page;
  allow_name_only = args.allow_name_only;
  max_tps = args.max_tps;
  preserve_metadata = not args.no_preserve_metadata;
  ignore_default_visibility = args.ignore_default_visibility;
  keep_revision_forever = args.keep_revision_forever;
  fast_list = args.fast_list;
  skip_completed_folders = args.skip_completed_folders;
}

-- `Copier.__init__`, and `ResumeStore.__init__` in it.
unfoldable pub new_engine : (drive : Drive) → CopyConfig → String → drive.World → Engine drive.World
new_engine drive config run_id w = record {
  stop = false;
  resume_state = new_state none none (some run_id) (drive.now w);
  result = new_result config.dry_run;
  dirty = 0;
  copied_session = 0;
  run_bytes = 0;
  consec_rate_fail = 0;
  tree = [];
  listing_error_folders = [];
  own_log_file_id = none;
  own_log_name = none;
  world = w;
}

-- What `make_service_factory` comes to.
pub data Login : Type 0 where
  logged_in login_failed : Login

unfoldable pub exit_code : CopyResult → ℕ
exit_code result =
    if is_set result.stop_reason && eqb result.copied_count 0 && not result.dry_run then 1 else 0

module _ (drive : Drive) (pages depth : ℕ) where
  abbrev pub report_exit : CopyResult → Action drive.World ℕ
  report_exit result = pure (exit_code result)

  unfoldable pub after_login : CopyConfig → Login → Action drive.World ℕ
  after_login config login_failed e = (done 3, e)
  after_login config logged_in e = continue (run drive config pages depth e) report_exit

  unfoldable pub main : Args → Login → String → drive.World → Outcome ℕ × Engine drive.World
  main args login run_id w =
      let config = config_from_args args in
      let e = new_engine drive config run_id w in
      if is_nonempty (validate drive.show_float config)
      then (done 2, e)
      else after_login config login e
