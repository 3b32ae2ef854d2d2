-- ===== src/Copier/Checks.antt =====
-- The tests of `_verify_copy` and of the size guards, and the properties that a copy carries.
use gdrive_turbo_copy.Prelude.{
  ℕ, ◌*◌, ◌^◌, String, ◌<>◌, Bool, true, false, not, ◌&&◌, ◌||◌, Option, none, some, [], ◌∷◌, ltb,
  is_set, is_some, truthy, or_else, option_eq, string_eq, number_eq, ◌==◌, if◌then◌else◌,
}
use gdrive_turbo_copy.Prelude.Dict.{Dict, lookup}
use gdrive_turbo_copy.Prelude.Text.{show}
use gdrive_turbo_copy.Prelude.Int.{Float, pos, pos_part, ltb_ℤ}
use gdrive_turbo_copy.Models.DriveFile.{DriveFile, is_google_native, tool_tag}
use gdrive_turbo_copy.Models.Config.{gib}
use gdrive_turbo_copy.Retry.Errors.{fatal_quota, ErrorClass}

abbrev pub or_zero : Option ℕ → ℕ
or_zero none = 0
or_zero (some n) = n

-- Some detail if the copy differs from its source, tested in the source's order.
unfoldable pub compare_copy : DriveFile → Option String → DriveFile → Option String
compare_copy src shortcut_id dst =
    if not (lookup "source_file_id" dst.app_properties == some src.id)
    then some "appProperties.source_file_id mismatch"
    else if is_set shortcut_id
        && not (lookup "source_shortcut_id" dst.app_properties == shortcut_id)
    then some "appProperties.source_shortcut_id mismatch"
    else if not (dst.name == src.name)
    then some ("name mismatch ('" <> dst.name <> "' != '" <> src.name <> "')")
    else if truthy src.mime_type && truthy dst.mime_type && not (src.mime_type == dst.mime_type)
    then some ("mimeType mismatch ('" <> dst.mime_type <> "' != '" <> src.mime_type <> "')")
    else if is_google_native src || (not (is_some src.md5) && not (is_some src.size))
    then none
    else if is_set src.md5 && is_set dst.md5 && not (src.md5 == dst.md5)
    then some "md5 checksum mismatch"
    else if is_some src.size && is_some dst.size && not (src.size == dst.size)
    then some
        ("size mismatch (" <> show (or_zero dst.size) <> " != " <> show (or_zero src.size) <> ")")
    else none

abbrev pub is_fatal_quota : ErrorClass → Bool
is_fatal_quota fatal_quota = true
is_fatal_quota _ = false

-- `max_copy_size_gb > 0 and projected > max_copy_size_gb * GIB`
unfoldable pub over_budget : Float → ℕ → Bool
over_budget gb projected =
    ltb_ℤ (pos 0) gb.mantissa && ltb (pos_part gb.mantissa * gib) (projected * 2 ^ gb.exponent)

abbrev pub max_single_file : ℕ
max_single_file = 750 * gib

abbrev pub rate_limit_stop_threshold : ℕ
rate_limit_stop_threshold = 8

-- The properties of the copy.
unfoldable pub copy_properties : DriveFile → Option String → Dict String
copy_properties src shortcut_id =
    let base : Dict String =
      ("source_file_id", src.id)
      ∷ ("source_md5", or_else src.md5 "")
      ∷ ("copied_by_tool", tool_tag)
      ∷ [] in
    if is_set shortcut_id
    then ("source_file_id", src.id)
      ∷ ("source_md5", or_else src.md5 "")
      ∷ ("copied_by_tool", tool_tag)
      ∷ ("source_shortcut_id", or_else shortcut_id "")
      ∷ []
    else base
