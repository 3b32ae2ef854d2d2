-- ===== src/Tests/Runs.antt =====
-- The theorems on the workers, the listing and the completed folders, applied.
use gdrive_turbo_copy.Prelude.{
  ℕ, ◌+◌, ◌≡◌, ◌++◌, refl, String, true, Option, none, some, List, [], ◌∷◌, ◌||◌, if◌then◌else◌,
  ◌≤◌, arith, All, is_some, string_eq, option_eq,
}
use gdrive_turbo_copy.Prelude.Int.{pos}
use gdrive_turbo_copy.Models.DriveFile.{FileReply, number}
use gdrive_turbo_copy.Retry.Loop.{Reply, reply}
use gdrive_turbo_copy.Concurrency.{
  copy, Workers, Limiter, new_controller, acquire, release, record_throttle,
}
use gdrive_turbo_copy.Concurrency.Steps.{
  Site, enters, leaves, throttles, Reachable, here, next, Sound, new_site, Reachable-Sound,
  acquire_idle,
}
use gdrive_turbo_copy.Copier.Drive.{Drive}
use gdrive_turbo_copy.Copier.Engine.{Engine, done}
use gdrive_turbo_copy.Copier.Listing.{files_of, list_children}
use gdrive_turbo_copy.Copier.Listing.Pages.{Lists, last_page, page_of}
use gdrive_turbo_copy.Copier.Listing.Laws.{
  ListingEnds, list_children-ListingEnds, list_children_all,
}
use gdrive_turbo_copy.Copier.Completed.{compute_completed_folders, failed_ids}
use gdrive_turbo_copy.Copier.Completed.Sound.{Complete}
use gdrive_turbo_copy.Copier.Completed.Laws.{compute_completed_folders-Complete}
use gdrive_turbo_copy.Copier.Book.Frame.{books}
use gdrive_turbo_copy.Copier.Folders.{get_or_create_folder}
use gdrive_turbo_copy.Copier.Folders.Laws.{Settled, get_or_create_folder-Settled}
use gdrive_turbo_copy.Copier.Resuming.{merge_resume}
use gdrive_turbo_copy.Copier.Resuming.Laws.{merge_resume_lem}
use gdrive_turbo_copy.Models.Records.{ResumeState, new_state}
use gdrive_turbo_copy.Prelude.Dict.{lookup, has_key}
use gdrive_turbo_copy.Prelude.Sets.{contains}
use gdrive_turbo_copy.Resume.Json.{Fields, get, obj, str}
use gdrive_turbo_copy.Resume.Payload.{serialize, compute_integrity}
use gdrive_turbo_copy.Resume.Payload.Laws.{serialize_lem}
use gdrive_turbo_copy.Tests.{faithful, config, fresh}

abbrev workers : Workers
workers = record {
  copy_workers = 4;
  list_workers = none;
  create_workers = none;
  log_workers = 1;
  metadata_workers = none;
  increase_after = 20;
}

abbrev four : ℕ → ℕ → Limiter
four limit in_flight = record {
  limit = limit;
  min_limit = 1;
  max_limit = 4;
  in_flight = in_flight;
  successes = 0;
  increase_after = 20;
}

-- One worker has entered, the limit has been halved, and the worker has left.
abbrev after_throttle : Site
after_throttle = record { limiter = release (record_throttle (four 4 1)); inside = [] ++ [] }

entered : acquire (new_controller workers copy) ≡ some (four 4 1)
unfolding acquire new_controller
entered = refl

throttled_path : Reachable (new_site copy workers) after_throttle
throttled_path =
    next (next (next here (enters 7 (four 4 1) entered)) throttles) (leaves 7 [] [] refl)

Reachable-Sound_example : Sound after_throttle
Reachable-Sound_example = Reachable-Sound copy workers after_throttle throttled_path

acquire_idle_example : is_some (acquire after_throttle.limiter) ≡ true
acquire_idle_example = acquire_idle copy workers after_throttle throttled_path refl

abbrev entry : String → FileReply
entry name = record {
  id = some name;
  name = some name;
  mime_type = some "application/pdf";
  size = some (number 1);
  md5_checksum = none;
  target_id = none;
  app_properties = none;
  trashed = none;
  modified_time = none;
  created_time = none;
  description = none;
  parents = none;
  can_add_children = none;
}

abbrev pages : Option String → ℕ → Reply (List FileReply × Option String) × ℕ
pages none w = (reply (entry "a" ∷ [], some "token"), w + 1)
pages (some token) w = (reply (entry "b" ∷ [], none), w + 1)

-- A Drive whose folders have two pages.
abbrev two_pages : Drive
two_pages = record faithful { list_children = λ folder exclude token w. pages token w }

two_pages-Lists : Lists two_pages config "f" none 0 ((entry "a" ∷ []) ++ (entry "b" ∷ [])) 2 2
unfolding string_eq
two_pages-Lists = page_of refl refl (last_page refl refl)

list_children_all_example :
    list_children two_pages config "f" "f" (pos 0) (pos 0) 5 fresh
    ≡ (done (files_of ((entry "a" ∷ []) ++ (entry "b" ∷ []))), record fresh { world = 2 })
list_children_all_example =
    list_children_all two_pages config "f" "f" 5 2 fresh ((entry "a" ∷ []) ++ (entry "b" ∷ [])) 2
      two_pages-Lists (omega arith)

list_children-ListingEnds_example :
    ListingEnds two_pages config "f" "f" none 0 []
      (list_children two_pages config "f" "f" (pos 0) (pos 0) 5 fresh)
list_children-ListingEnds_example = list_children-ListingEnds two_pages config "f" "f" 5 fresh

-- A folder with one file, which has been copied, and a subfolder that was never listed.
abbrev walked : Engine ℕ
walked = record fresh {
  resume_state = record (fresh.resume_state) { copied_ids = "a" ∷ [] };
  tree =
      (
        "f",
        record { listing_ok = true; eligible = true; file_eff_ids = "a" ∷ []; subfolder_ids = [] },
      )
      ∷ (
        "g",
        record { listing_ok = true; eligible = true; file_eff_ids = []; subfolder_ids = "h" ∷ [] },
      )
      ∷ [];
}

compute_completed_folders-Complete_example :
    (folders : List String) × (compute_completed_folders walked ≡ some folders)
    × All (Complete [] ("a" ∷ []) (failed_ids []) walked.tree) folders
compute_completed_folders-Complete_example = compute_completed_folders-Complete walked

-- A folder that the log does not know and the search does not find is made.
get_or_create_folder-Settled_example :
    Settled faithful config "photos"
      (some "f")
      none
      (books fresh)
      (get_or_create_folder faithful config "photos" (some "f") none (some "root") fresh)
get_or_create_folder-Settled_example =
    get_or_create_folder-Settled faithful config "photos" (some "f") none (some "root") fresh

-- A log of an earlier run, which copied "b", made the folder "g" and failed on nothing.
abbrev earlier : ResumeState
earlier = record (new_state none (some "root") none "2023-01-01T00:00:00Z") {
  copied_ids = "b" ∷ [];
  folder_map = ("f", "old") ∷ ("g", "made") ∷ [];
  copied_bytes = 7;
}

abbrev merged : ResumeState
merged = (merge_resume earlier walked).resume_state

merge_resume_example :
    ((x : String) → contains x merged.copied_ids ≡ (contains x ("a" ∷ []) || contains x ("b" ∷ [])))
    × ((x : String) → contains x merged.completed_folders ≡ (contains x [] || contains x []))
    × ((k : String)
        → lookup k merged.folder_map
          ≡ (if has_key {V = String} k [] then lookup k [] else lookup k earlier.folder_map))
    × (0 ≤ merged.copied_bytes)
    × (7 ≤ merged.copied_bytes)
    × ((merge_resume earlier walked).result.previous_failed_items ≡ [])
    × (merged.failed_items ≡ [])
merge_resume_example = merge_resume_lem earlier walked

serialize_example :
    (fields : Fields) × (serialize faithful.codec earlier ≡ faithful.codec.dumps (obj fields))
    × (get "integrity" fields ≡ some (str (compute_integrity faithful.codec fields)))
serialize_example = serialize_lem faithful.codec earlier
