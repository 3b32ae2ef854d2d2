-- ===== src/Copier/Listing.antt =====
-- `_list_children` and `_build_index`: the pages of a folder of the source, and the index of a folder
-- of the destination. The code bounds neither loop; the fuel is the number of pages asked for.
pub mod Pages
pub mod Laws
use gdrive_turbo_copy.Prelude.{
  ℕ, zero, suc, ◌+◌, String, ◌<>◌, Bool, true, false, not, ◌&&◌, ◌||◌, Option, none, some, List, [],
  ◌∷◌, ◌++◌, is_set, or_else, or_text, if◌then◌else◌,
}
use gdrive_turbo_copy.Prelude.Int.{ℤ, pos, ltb_ℤ, leb_ℤ}
use gdrive_turbo_copy.Prelude.Text.{show}
use gdrive_turbo_copy.Prelude.Sets.{add}
use gdrive_turbo_copy.Models.DriveFile.{FileReply, DriveFile, from_api, folder_mime}
use gdrive_turbo_copy.Models.Config.{CopyConfig, is_nonzero}
use gdrive_turbo_copy.Retry.Errors.{Exc, quota_stopped, text_of, classify_error, parse_http_error}
use gdrive_turbo_copy.Retry.Loop.{Reply, reply, failed}
use gdrive_turbo_copy.Index.{DestinationIndex, empty_index, build}
use gdrive_turbo_copy.Copier.Drive.{Drive, Page}
use gdrive_turbo_copy.Copier.Engine.{
  Engine, Outcome, done, out_of_fuel, Action, pure, raise, modify, call, ◌>>=◌, ◌>>◌,
}
use gdrive_turbo_copy.Copier.Book.{record_failed, stop_with}
use gdrive_turbo_copy.Copier.Checks.{is_fatal_quota}

-- `[DriveFile.from_api(f) for f in files]`
unfoldable pub files_of : List FileReply → List DriveFile
files_of [] = []
files_of (f ∷ files) = from_api f ∷ files_of files

module _ (drive : Drive) (config : CopyConfig) where
  -- A quota error of a listing stops the run, without a word in the log.
  unfoldable pub quota_while : {A : Type 0} → String → Exc → Action drive.World A
  quota_while doing exc = do
    modify (stop_with (doing <> ": " <> text_of exc))
    raise (quota_stopped (some (doing <> ": " <> text_of exc)))

  module _ (folder_id parent_source_id : String) (from_page to_page : ℤ) where
    abbrev pub folder_item : DriveFile
    folder_item = record {
      id = folder_id;
      name = "[folder:" <> folder_id <> "]";
      mime_type = folder_mime;
      size = none;
      md5 = none;
      shortcut_target_id = none;
      app_properties = [];
      trashed = false;
      modified_time = none;
      created_time = none;
      description = none;
    }

    abbrev pub lower_page : ℤ
    lower_page = if ltb_ℤ (pos 0) from_page then from_page else pos 1

    abbrev pub wanted : ℕ → Bool
    wanted page =
        leb_ℤ lower_page (pos page) && (not (is_nonzero to_page) || leb_ℤ (pos page) to_page)

    abbrev pub is_last : ℕ → Option String → Bool
    is_last page token = not (is_set token) || (ltb_ℤ (pos 0) to_page && leb_ℤ to_page (pos page))

    -- The folder's listing is known to be broken from here on.
    unfoldable pub mark_broken : Engine drive.World → Engine drive.World
    mark_broken e = record e {
      result = record (e.result) { had_listing_errors = true };
      listing_error_folders = add folder_id e.listing_error_folders;
    }

    -- A failure on the given page, after `out` has been read.
    unfoldable pub list_failed : Exc → ℕ → List DriveFile → Action drive.World (List DriveFile)
    list_failed exc page out =
        let (reason, message, _) = parse_http_error exc in
        if is_fatal_quota (classify_error exc)
        then quota_while ("Quota hit while listing " <> folder_id) exc
        else (do
          modify (
              record_failed drive config folder_item (or_text reason "listingError")
                ("Could not list (page " <> show page <> "): " <> or_text message (text_of exc))
                (record {
                  parent_source_id = some parent_source_id;
                  shortcut_target_id = none;
                  source_shortcut_id = none;
                  effective_source_id = none;
                }))
          modify mark_broken
          pure out)

    -- What is read once the page has come.
    abbrev pub extend : ℕ → List FileReply → List DriveFile → List DriveFile
    extend page files out = if wanted page then out ++ files_of files else out

    -- What is done with the answer for the given page, with the reading of further pages at hand.
    unfoldable pub list_answer :
        (Option String → List DriveFile → Action drive.World (List DriveFile))
        → ℕ
        → List DriveFile
        → Reply Page
        → Action drive.World (List DriveFile)
    list_answer rest page out (failed exc) e = list_failed exc page out e
    list_answer rest page out (reply (files, next)) e =
        if is_last page next
        then (done (extend page files out), e)
        else rest next (extend page files out) e

    -- The loop, with so many pages read.
    unfoldable pub list_from :
        ℕ → Option String → ℕ → List DriveFile → Action drive.World (List DriveFile)
    list_from zero token page out e = (out_of_fuel, e)
    list_from (suc fuel) token page out e =
        let p = drive.list_children folder_id config.exclude_substrings token e.world in
        list_answer (λ next now. list_from fuel next (page + 1) now) (page + 1) out p.0
          (record e { world = p.1 })

    unfoldable pub list_children : ℕ → Action drive.World (List DriveFile)
    list_children fuel = list_from fuel none 0 []

  module _ (folder_id : String) where
    unfoldable pub index_failed : Exc → List DriveFile → Action drive.World DestinationIndex
    index_failed exc out =
        if is_fatal_quota (classify_error exc)
        then quota_while "Quota hit while indexing destination" exc
        else pure (build out)

    unfoldable pub index_answer :
        (Option String → List DriveFile → Action drive.World DestinationIndex)
        → List DriveFile
        → Reply Page
        → Action drive.World DestinationIndex
    index_answer rest out (failed exc) e = index_failed exc out e
    index_answer rest out (reply (files, next)) e =
        if is_set next
        then rest next (out ++ files_of files) e
        else (done (build (out ++ files_of files)), e)

    unfoldable pub index_from :
        ℕ → Option String → List DriveFile → Action drive.World DestinationIndex
    index_from zero token out e = (out_of_fuel, e)
    index_from (suc fuel) token out e =
        let p = drive.list_children folder_id [] token e.world in
        index_answer (λ next now. index_from fuel next now) out p.0 (record e { world = p.1 })

  unfoldable pub build_index : Option String → ℕ → Action drive.World DestinationIndex
  build_index dest fuel =
      if is_set dest then index_from (or_else dest "") fuel none [] else pure empty_index
