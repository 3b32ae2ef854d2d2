-- ===== src/Tests.antt =====
-- A concrete Drive, configuration and engine, and the theorems applied to them.
pub mod Pure
pub mod Runs
pub mod Whole
pub mod Edges
use gdrive_turbo_copy.Prelude.{
  string_eq, option_eq, ℕ, ◌+◌, ◌<◌, ◌≡◌, ◌⊎◌, refl, sym, subst, String, Bool, true, false, Option,
  none, some, List, [], ◌∷◌, arith, inl, inr,
}
use gdrive_turbo_copy.Prelude.Int.{pos, of_ℤ, zero_float, Float}
use native.Mathlib.Decide.{ℕ_discrete}
use gdrive_turbo_copy.Prelude.Dict.{lookup}
use gdrive_turbo_copy.Prelude.Sets.{contains, add}
use mathlib.Core.Bool.{false≢true}
use gdrive_turbo_copy.Models.DriveFile.{
  FileReply, DriveFile, number, from_api, size_val, is_google_native, is_folder, is_shortcut,
}
use gdrive_turbo_copy.Models.AppProperties.{validate_app_properties, first_too_long}
use gdrive_turbo_copy.Models.Config.{CopyConfig, checksum}
use gdrive_turbo_copy.Models.Records.{new_result, new_state}
use gdrive_turbo_copy.Resume.Json.{null}
use gdrive_turbo_copy.Retry.Loop.{Reply, reply, failed}
use gdrive_turbo_copy.Index.{DestinationIndex, empty_index, pop_match, pop_by_app_prop, choose}
use gdrive_turbo_copy.Copier.Drive.{Drive}
use gdrive_turbo_copy.Copier.Engine.{Engine, Outcome, done}
use gdrive_turbo_copy.Copier.Files.{
  copy_file, match_or_copy, copy_new, reserve, send_copy, finish_copy, verify_copy, settle,
}
use gdrive_turbo_copy.Copier.Checks.{over_budget, copy_properties, compare_copy}
use gdrive_turbo_copy.Copier.Book.{mark_copied, count_copied, maybe_flush, reconcile_failed}
use gdrive_turbo_copy.Copier.Files.Laws.{
  Returned, copy_file-InBudget, copy_file-handled, copy_file_dry, copy_file-Verified,
}
use gdrive_turbo_copy.Copier.Files.Effect.{Takes, copy_file-Takes}
use gdrive_turbo_copy.Copier.Files.Effect.Step.{Verified}
use gdrive_turbo_copy.Copier.Files.Effect.Budget.{InBudget, handled}
use gdrive_turbo_copy.Copier.Book.Frame.{Books, books}

abbrev pub src : DriveFile
src = record {
  id = "s1";
  name = "report.pdf";
  mime_type = "application/pdf";
  size = some 100;
  md5 = some "abc";
  shortcut_target_id = none;
  app_properties = [];
  trashed = false;
  modified_time = none;
  created_time = none;
  description = none;
}

abbrev pub copied : FileReply
copied = record {
  id = some "d1";
  name = some "report.pdf";
  mime_type = some "application/pdf";
  size = some (number 100);
  md5_checksum = some "abc";
  target_id = none;
  app_properties = some (("source_file_id", "s1") ∷ []);
  trashed = none;
  modified_time = none;
  created_time = none;
  description = none;
  parents = none;
  can_add_children = none;
}

-- A Drive that copies every file faithfully, as if it were `src`, and counts its calls.
abbrev pub faithful : Drive
faithful = record {
  World = ℕ;
  list_children = λ parent exclude token w. (reply ([], none), w + 1);
  list_children_multi = λ parents exclude token w. (reply ([], none), w + 1);
  get_metadata = λ id w. (reply copied, w + 1);
  copy_file = λ id body visibility revision w. (reply (some "d1"), w + 1);
  create_folder = λ name parent props w. (reply (some "d2"), w + 1);
  search = λ query w. (reply [], w + 1);
  about_user = λ w. (reply (some "me@example.org"), w + 1);
  get_media = λ id w. (reply "", w + 1);
  create_json_file = λ name parent text props w. (reply (some "log"), w + 1);
  update_file_content = λ id text w. (reply tt, w + 1);
  trash_file = λ id w. (reply tt, w + 1);
  now = λ w. "2024-01-01T00:00:00Z";
  codec = record {
    dumps_canonical = λ j. "{}";
    dumps_pretty = λ j. "{}";
    dumps = λ j. "{}";
    loads = λ s. some null;
    sha256 = λ s. "0";
    complaint = λ s. "unreadable";
  };
  show_gb = λ decimals size. "0";
  show_float = λ x. "0";
}

abbrev pub config : CopyConfig
config = record {
  source_link = "https://drive.google.com/drive/folders/source_folder_1";
  dest_link = "https://drive.google.com/drive/folders/target_folder_1";
  workers = pos 5;
  max_copy_size_gb = of_ℤ (pos 1);
  verify_mode = checksum;
  exclude_substrings = [];
  dry_run = false;
  from_page = pos 0;
  to_page = pos 0;
  allow_name_only = false;
  max_tps = zero_float;
  preserve_metadata = false;
  ignore_default_visibility = false;
  keep_revision_forever = false;
  fast_list = false;
  skip_completed_folders = false;
}

abbrev pub rehearsal : CopyConfig
rehearsal = record config { dry_run = true }

abbrev pub fresh : Engine ℕ
fresh = record {
  stop = false;
  resume_state = new_state none (some "root") none "2024-01-01T00:00:00Z";
  result = new_result false;
  dirty = 0;
  copied_session = 0;
  run_bytes = 0;
  consec_rate_fail = 0;
  tree = [];
  listing_error_folders = [];
  own_log_file_id = none;
  own_log_name = none;
  world = 0;
}

abbrev after_copy : Outcome DestinationIndex × Engine ℕ
after_copy = copy_file faithful config (some "root") src empty_index "p" none fresh

-- The file is copied, verified and counted.
after_copy_counts :
    (after_copy.0 ≡ done empty_index)
    × (after_copy.1.result.copied_count ≡ 1)
    × (after_copy.1.run_bytes ≡ 100)
    × (after_copy.1.resume_state.copied_ids ≡ "s1" ∷ [])
unfolding copy_file match_or_copy pop_match pop_by_app_prop choose copy_new reserve over_budget
    send_copy validate_app_properties first_too_long copy_properties finish_copy verify_copy
    compare_copy from_api size_val is_google_native is_folder is_shortcut settle mark_copied
    count_copied maybe_flush reconcile_failed contains add lookup string_eq option_eq ℕ_discrete
after_copy_counts = (refl, refl, refl, refl)

pub fresh-InBudget : InBudget config (books fresh)
unfolding over_budget
fresh-InBudget = record {
  fits = refl;
  paid = omega arith;
  calm = inl (omega arith);
  explained = λ h. absurd (false≢true h);
}

copy_file-Takes_example :
    ((fresh.stop ≡ true) × (after_copy ≡ (done empty_index, fresh)))
    ⊎ ((fresh.stop ≡ false)
        × Takes faithful config src none
            (record { dest = some "root"; index = empty_index; world = fresh.world })
            "p"
            (books fresh)
            after_copy)
copy_file-Takes_example =
    copy_file-Takes faithful config src none (some "root") "p" empty_index fresh

copy_file-InBudget_example : InBudget config (books after_copy.1)
copy_file-InBudget_example =
    copy_file-InBudget faithful config src none (some "root") "p" empty_index fresh fresh-InBudget

after_copy-Returned : Returned after_copy.0
after_copy-Returned = subst Returned (sym after_copy_counts.0) tt

copy_file-handled_example :
    (handled (books after_copy.1) ≡ handled (books fresh) + 1)
    × (after_copy.1.run_bytes + fresh.result.copied_bytes
        ≡ fresh.run_bytes + after_copy.1.result.copied_bytes)
    × (after_copy.1.stop ≡ false)
copy_file-handled_example =
    copy_file-handled faithful config src none (some "root") "p" empty_index fresh refl
      after_copy-Returned

abbrev after_rehearsal : Outcome DestinationIndex × Engine ℕ
after_rehearsal = copy_file faithful rehearsal (some "root") src empty_index "p" none fresh

copy_file_dry_example :
    Returned after_rehearsal.0
    × (after_rehearsal.1.result.copied_count ≡ 0)
    × (after_rehearsal.1.run_bytes ≡ 0)
    × (after_rehearsal.1.result.copied_bytes ≡ 0)
    × (after_rehearsal.1.stop ≡ false)
copy_file_dry_example =
    copy_file_dry faithful rehearsal src none (some "root") "p" empty_index fresh refl

copied_more : fresh.result.copied_count < after_copy.1.result.copied_count
copied_more = omega (arith, after_copy_counts.1)

copy_file-Verified_example :
    Verified faithful config src none
      (record { dest = some "root"; index = empty_index; world = fresh.world })
copy_file-Verified_example =
    copy_file-Verified faithful config src none (some "root") "p" empty_index fresh copied_more
