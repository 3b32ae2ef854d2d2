-- ===== src/Models/AppProperties.antt =====
-- `validate_app_properties` of src/gdrive_turbo_copy/models.py: Drive's limits on `appProperties`.
use gdrive_turbo_copy.Prelude.{
  ℕ, ◌+◌, ◌≤◌, ◌≡◌, refl, ◌↔◌, String, len, ◌<>◌, Option, none, some, [], ◌∷◌, arith, ltb, length,
  All, if◌then◌else◌,
}
use gdrive_turbo_copy.Prelude.Dict.{Dict}
use gdrive_turbo_copy.Prelude.Text.{show}

abbrev pub appprop_max_entry_bytes : ℕ
appprop_max_entry_bytes = 124

abbrev pub appprop_max_entries : ℕ
appprop_max_entries = 30

abbrev pub entry_bytes : String × String → ℕ
entry_bytes (key, value) = len key + len value

-- The loop over `props.items()`: the text of the first entry that is too long.
unfoldable pub first_too_long : Dict String → Option String
first_too_long [] = none
first_too_long ((key, value) ∷ props) =
    if ltb appprop_max_entry_bytes (entry_bytes (key, value))
    then some (
        "appProperties entry '"
        <> key
        <> "' is "
        <> show (entry_bytes (key, value))
        <> " bytes (>"
        <> show appprop_max_entry_bytes
        <> ").")
    else first_too_long props

-- `none` when the properties pass, else the text of the `ValueError`.
unfoldable pub validate_app_properties : Dict String → Option String
unfolding first_too_long
validate_app_properties props =
    if ltb appprop_max_entries (length props)
    then some (
        "appProperties has "
        <> show (length props)
        <> " entries (>"
        <> show appprop_max_entries
        <> ").")
    else first_too_long props

-- What Drive documents: at most 30 entries, each of at most 124 bytes.
abbrev pub FitsDrive : Dict String → Type 0
FitsDrive props =
    (length props ≤ appprop_max_entries)
    × All (λ entry. entry_bytes entry ≤ appprop_max_entry_bytes) props

first_too_long_sound :
    (props : Dict String)
    → first_too_long props ≡ none
    → All (λ entry. entry_bytes entry ≤ appprop_max_entry_bytes) props
unfolding first_too_long
first_too_long_sound [] h = tt
first_too_long_sound (e ∷ props) h = ground (arith, first_too_long_sound props)

first_too_long_complete :
    (props : Dict String)
    → All (λ entry. entry_bytes entry ≤ appprop_max_entry_bytes) props
    → first_too_long props ≡ none
unfolding first_too_long
first_too_long_complete [] h = refl
first_too_long_complete (e ∷ props) h = ground (arith, first_too_long_complete props h.1)

-- `validate_app_properties` accepts a dict exactly when it has at most 30 entries and no key and
-- value together take more than 124 bytes.
pub validate_app_properties_iff :
    (props : Dict String) → (validate_app_properties props ≡ none) ↔ FitsDrive props
unfolding validate_app_properties
validate_app_properties_iff props = (
  λ h. (ground arith, first_too_long_sound props (ground arith)),
  λ h. ground (arith, first_too_long_complete props h.1),
)
