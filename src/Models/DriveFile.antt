-- ===== src/Models/DriveFile.antt =====
-- `DriveFile` of src/gdrive_turbo_copy/models.py and the raw file resource it is read from.
use gdrive_turbo_copy.Prelude.{
  ℕ, String, Bool, false, not, ◌&&◌, Option, none, some, List, [], ◌==◌, string_eq,
}
use gdrive_turbo_copy.Prelude.Dict.{Dict}
use gdrive_turbo_copy.Prelude.Text.{parse_int}
use text.Mathlib.Text.{starts_with}

abbrev pub folder_mime : String
folder_mime = "application/vnd.google-apps.folder"

abbrev pub shortcut_mime : String
shortcut_mime = "application/vnd.google-apps.shortcut"

abbrev pub google_native_prefix : String
google_native_prefix = "application/vnd.google-apps."

abbrev pub tool_tag : String
tool_tag = "GDrive_Turbo_Copy"

-- The value under "size": a number, or a text that `int` may refuse.
pub data RawSize : Type 0 where
  number : ℕ → RawSize
  written : String → RawSize

-- A file resource as the Drive API sends it. Every key may be missing.
pub record FileReply : Type 0 where
  pub id : Option String
  pub name : Option String
  pub mime_type : Option String
  pub size : Option RawSize
  pub md5_checksum : Option String
  pub target_id : Option String
  pub app_properties : Option (Dict String)
  pub trashed : Option Bool
  pub modified_time : Option String
  pub created_time : Option String
  pub description : Option String
  pub parents : Option (List String)
  pub can_add_children : Option Bool

pub record DriveFile : Type 0 where
  pub id : String
  pub name : String
  pub mime_type : String
  pub size : Option ℕ
  pub md5 : Option String
  pub shortcut_target_id : Option String
  pub app_properties : Dict String
  pub trashed : Bool
  pub modified_time : Option String
  pub created_time : Option String
  pub description : Option String

unfoldable pub is_folder : DriveFile → Bool
is_folder f = f.mime_type == folder_mime

unfoldable pub is_shortcut : DriveFile → Bool
is_shortcut f = f.mime_type == shortcut_mime

unfoldable pub is_google_native : DriveFile → Bool
unfolding is_folder is_shortcut
is_google_native f =
    starts_with f.mime_type google_native_prefix && not (is_folder f) && not (is_shortcut f)

abbrev get_or : {A : Type 0} → A → Option A → A
get_or d none = d
get_or d (some a) = a

-- `int(size) if size is not None else None`, with `None` where `int` raises.
unfoldable pub size_val : Option RawSize → Option ℕ
size_val none = none
size_val (some (number n)) = some n
size_val (some (written s)) = parse_int s

unfoldable pub from_api : FileReply → DriveFile
unfolding size_val
from_api r = record {
  id = get_or "" r.id;
  name = get_or "" r.name;
  mime_type = get_or "" r.mime_type;
  size = size_val r.size;
  md5 = r.md5_checksum;
  shortcut_target_id = r.target_id;
  app_properties = get_or [] r.app_properties;
  trashed = get_or false r.trashed;
  modified_time = r.modified_time;
  created_time = r.created_time;
  description = r.description;
}
