-- ===== src/Models/Records.antt =====
-- `FailedItem`, `CopyResult` and `ResumeState`: what a run reports, and what the resume log keeps
-- (src/gdrive_turbo_copy/models.py and resume_store.py).
use gdrive_turbo_copy.Prelude.{
  ℕ, String, Bool, true, false, not, ◌&&◌, ◌||◌, Option, none, List, [], ◌∷◌,
}
use gdrive_turbo_copy.Prelude.Dict.{Dict}

pub record FailedItem : Type 0 where
  pub source_id : String
  pub name : String
  pub mime_type : String
  pub reason : String
  pub error_message : String
  pub timestamp : String
  pub parent_source_id : Option String
  pub shortcut_target_id : Option String
  pub source_shortcut_id : Option String
  pub effective_source_id : Option String

pub record CopyResult : Type 0 where
  pub copied_count : ℕ
  pub skipped_count : ℕ
  pub skipped_complete_folders : ℕ
  pub failed_items : List FailedItem
  pub previous_failed_items : List FailedItem
  pub would_copy_count : ℕ
  pub would_copy_bytes : ℕ
  pub copied_bytes : ℕ
  pub had_listing_errors : Bool
  pub completed : Bool
  pub stop_reason : Option String
  pub dry_run : Bool
  pub log_save_failed : Bool
  pub log_save_error : Option String

-- `CopyResult(dry_run=dry_run)`
abbrev pub new_result : Bool → CopyResult
new_result dry_run = record {
  copied_count = 0;
  skipped_count = 0;
  skipped_complete_folders = 0;
  failed_items = [];
  previous_failed_items = [];
  would_copy_count = 0;
  would_copy_bytes = 0;
  copied_bytes = 0;
  had_listing_errors = false;
  completed = false;
  stop_reason = none;
  dry_run = dry_run;
  log_save_failed = false;
  log_save_error = none;
}

abbrev pub is_nonempty : {A : Type 0} → List A → Bool
is_nonempty [] = false
is_nonempty (x ∷ xs) = true

unfoldable pub has_failures : CopyResult → Bool
has_failures r = is_nonempty r.failed_items || is_nonempty r.previous_failed_items

unfoldable pub fully_ok : CopyResult → Bool
unfolding has_failures
fully_ok r =
    r.completed
    && not (has_failures r)
    && not r.had_listing_errors
    && not r.dry_run
    && not r.log_save_failed

pub record ResumeState : Type 0 where
  pub schema_version : ℕ
  pub account : Option String
  pub source_root_id : Option String
  pub dest_root_id : Option String
  pub run_id : Option String
  pub copied_ids : List String
  pub folder_map : Dict String
  pub completed_folders : List String
  pub failed_items : List FailedItem
  pub copied_bytes : ℕ
  pub created_at : String
  pub updated_at : String

abbrev pub current_schema_version : ℕ
current_schema_version = 4

-- `ResumeState(account=…, dest_root_id=…, run_id=…)` made at the time `now`.
abbrev pub new_state : Option String → Option String → Option String → String → ResumeState
new_state account dest_root_id run_id now = record {
  schema_version = current_schema_version;
  account = account;
  source_root_id = none;
  dest_root_id = dest_root_id;
  run_id = run_id;
  copied_ids = [];
  folder_map = [];
  completed_folders = [];
  failed_items = [];
  copied_bytes = 0;
  created_at = now;
  updated_at = now;
}
