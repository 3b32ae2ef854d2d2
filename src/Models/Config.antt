-- ===== src/Models/Config.antt =====
-- `CopyConfig` of src/gdrive_turbo_copy/models.py and its `validate`.
pub mod Laws
use gdrive_turbo_copy.Prelude.{
  ℕ, String, ◌<>◌, Bool, not, ◌&&◌, ◌||◌, List, [], ◌∷◌, ◌++◌, truthy, string_eq, is_some,
  if◌then◌else◌,
}
use gdrive_turbo_copy.Prelude.Int.{ℤ, pos, ltb_ℤ, leb_ℤ, show_ℤ, Float}
use gdrive_turbo_copy.Urls.{strip, extract_folder_id}

abbrev pub gib : ℕ
gib = 1073741824

abbrev pub max_workers : ℕ
max_workers = 16

pub data VerifyMode : Type 0 where
  checksum name_size name_only : VerifyMode

pub record CopyConfig : Type 0 where
  pub source_link : String
  pub dest_link : String
  pub workers : ℤ
  pub max_copy_size_gb : Float
  pub verify_mode : VerifyMode
  pub exclude_substrings : List String
  pub dry_run : Bool
  pub from_page : ℤ
  pub to_page : ℤ
  pub allow_name_only : Bool
  pub max_tps : Float
  pub preserve_metadata : Bool
  pub ignore_default_visibility : Bool
  pub keep_revision_forever : Bool
  pub fast_list : Bool
  pub skip_completed_folders : Bool

-- One message if the test fails it.
abbrev pub complain : Bool → String → List String
complain bad message = if bad then message ∷ [] else []

-- The two tests of a link, the second under `elif`.
unfoldable pub link_errors : String → String → List String
link_errors name link =
    if not (truthy (strip link))
    then (name <> " link must not be empty.") ∷ []
    else complain (not (is_some (extract_folder_id link)))
        (name <> " link is invalid (no folder id found).")

abbrev pub is_nonzero : ℤ → Bool
is_nonzero z = ltb_ℤ z (pos 0) || ltb_ℤ (pos 0) z

-- `validate`. How Python prints a float is a parameter.
module _ (show_float : Float → String) where
  unfoldable pub number_errors : CopyConfig → List String
  number_errors c =
      complain (not (leb_ℤ (pos 1) c.workers && leb_ℤ c.workers (pos max_workers)))
        ("workers must be between 1 and 16 (got " <> show_ℤ c.workers <> ").")
      ++ (complain (ltb_ℤ c.max_copy_size_gb.mantissa (pos 0))
            ("max_copy_size_gb must be >= 0 (got " <> show_float c.max_copy_size_gb <> ").")
          ++ complain (ltb_ℤ c.max_tps.mantissa (pos 0))
              ("max_tps must be >= 0 (got " <> show_float c.max_tps <> ")."))

  unfoldable pub page_errors : CopyConfig → List String
  page_errors c =
      complain (ltb_ℤ c.from_page (pos 0))
        ("from_page must be >= 0 (got " <> show_ℤ c.from_page <> ").")
      ++ (complain (ltb_ℤ c.to_page (pos 0))
            ("to_page must be >= 0 (got " <> show_ℤ c.to_page <> ").")
          ++ complain
              (is_nonzero c.from_page && is_nonzero c.to_page && ltb_ℤ c.to_page c.from_page)
              ("from_page ("
                <> show_ℤ c.from_page
                <> ") must be <= to_page ("
                <> show_ℤ c.to_page
                <> ")."))

  unfoldable pub validate : CopyConfig → List String
  validate c =
      link_errors "Source" c.source_link
      ++ (link_errors "Destination" c.dest_link ++ (number_errors c ++ page_errors c))
