-- ===== src/Tests/Pure.antt =====
-- The theorems on links, configurations, properties, errors and indexes, applied.
use gdrive_turbo_copy.Prelude.{
  ℕ, ◌+◌, ◌≤◌, ◌≡◌, ◌⊎◌, ◌↔◌, refl, String, true, false, none, some, List, [], ◌∷◌, arith, max,
  string_eq,
}
use gdrive_turbo_copy.Prelude.Int.{Float, pos, of_ℤ}
use gdrive_turbo_copy.Prelude.Dict.{Dict, lookup, insert}
use gdrive_turbo_copy.Models.DriveFile.{DriveFile, is_folder}
use gdrive_turbo_copy.Models.AppProperties.{
  validate_app_properties, FitsDrive, validate_app_properties_iff,
}
use gdrive_turbo_copy.Models.Config.{checksum, validate}
use gdrive_turbo_copy.Models.Config.Laws.{IsValid, validate_iff}
use gdrive_turbo_copy.Urls.{extract_folder_id, size, is_id_code}
use gdrive_turbo_copy.Urls.Laws.{
  IsIdText, IsFound, extract_folder_id-IsFound, extract_folder_id_bare,
}
use gdrive_turbo_copy.Retry.Errors.{
  Exc, http, body, transient, fatal_quota, classify_error, is_rate_limit, parse_http_error,
}
use gdrive_turbo_copy.Retry.Errors.Laws.{is_rate_limit-classify_error}
use gdrive_turbo_copy.Retry.Loop.{Reply, failed, RetryPolicy, Hooks, execute_with_retry}
use gdrive_turbo_copy.Retry.Loop.Laws.{Ended, execute_with_retry-Ended}
use gdrive_turbo_copy.Index.{build, build_from, add_item, key_of, pop_match, pop_by_app_prop}
use gdrive_turbo_copy.Index.Laws.{build-WellFormed}
use gdrive_turbo_copy.Index.Used.{Uses, pop_match-Uses}
use gdrive_turbo_copy.Index.Build.{Indexes, build-Indexes}
use gdrive_turbo_copy.Index.Match.{Matches, effective_key, pop_match-Matches}
use gdrive_turbo_copy.Tests.{src, config}

abbrev show_float : Float → String
show_float x = "0"

abbrev link : String
link = "https://drive.google.com/drive/folders/source_folder_1?usp=sharing"

validate_iff_example : (validate show_float config ≡ []) ↔ IsValid config
validate_iff_example = validate_iff show_float config

abbrev props : Dict String
props = ("source_file_id", "s1") ∷ ("copied_by_tool", "tool") ∷ []

validate_app_properties_iff_example : (validate_app_properties props ≡ none) ↔ FitsDrive props
validate_app_properties_iff_example = validate_app_properties_iff props

extract_folder_id-IsFound_example : IsFound (extract_folder_id link)
extract_folder_id-IsFound_example = extract_folder_id-IsFound link

abbrev pub bare : String
bare = "1AbCdEfGhIjKlMnOpQrStUvWxYz_-0"

pub bare-IsIdText : IsIdText bare
unfolding is_id_code
bare-IsIdText = ground arith

pub bare_long : 25 ≤ size bare
unfolding size
bare_long = omega arith

extract_folder_id_bare_example : extract_folder_id bare ≡ some bare
extract_folder_id_bare_example = extract_folder_id_bare bare bare-IsIdText bare_long

abbrev too_many : Exc
too_many = http (record {
  text = "<HttpError 429>";
  status = some 429;
  retry_after = none;
  content = body (record { errors = []; message = some "slow down"; status = none });
})

counted : is_rate_limit (parse_http_error too_many).2 (parse_http_error too_many).0 ≡ true
unfolding is_rate_limit parse_http_error
counted = refl

is_rate_limit-classify_error_example :
    (classify_error too_many ≡ transient) ⊎ (classify_error too_many ≡ fatal_quota)
is_rate_limit-classify_error_example = is_rate_limit-classify_error too_many counted

abbrev hooks : Hooks ℕ
hooks = record {
  uniform = λ ceiling w. (ceiling, w);
  sleep = λ delay w. w;
  on_event = λ event w. w;
}

abbrev policy : RetryPolicy
policy = record { max_attempts = 3; base_delay = of_ℤ (pos 2); max_delay = of_ℤ (pos 60) }

-- A call that is throttled for as long as the world lasts.
abbrev throttled : ℕ → Reply String × ℕ
throttled w = (failed too_many, w + 1)

execute_with_retry-Ended_example :
    Ended hooks policy throttled 1 (max 1 3) 0 (execute_with_retry hooks policy throttled 0)
execute_with_retry-Ended_example = execute_with_retry-Ended hooks policy throttled 0

abbrev there : DriveFile
there = record src { id = "d1"; app_properties = ("source_file_id", "s1") ∷ [] }

abbrev files : List DriveFile
files = there ∷ record src { id = "d2" } ∷ []

build-Indexes_example : Indexes files (build files)
build-Indexes_example = build-Indexes files

pop_match-Uses_example :
    let p = pop_match src checksum false "s1" (build files) in
    Uses (effective_key "s1" src) (build files) p.0 p.1
pop_match-Uses_example = pop_match-Uses src checksum false "s1" (build files)

popped :
    (pop_match src checksum false "s1" (build files)).0 ≡ some (record { handle = 0; file = there })
unfolding pop_match pop_by_app_prop build build_from add_item key_of is_folder lookup string_eq
    insert
popped = refl

pop_match-Matches_example :
    Matches checksum false src (effective_key "s1" src) (record { handle = 0; file = there })
pop_match-Matches_example =
    pop_match-Matches src checksum false "s1" (build files) (record { handle = 0; file = there })
      (build-WellFormed files) popped
