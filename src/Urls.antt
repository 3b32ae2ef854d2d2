-- ===== src/Urls.antt =====
-- src/gdrive_turbo_copy/urls.py: the id in a Drive link, by the source's regular expressions. A
-- pattern is a fixed text followed by a run of id characters, so a search looks for the first place
-- where the fixed text stands with a long enough run behind it, and the run is the longest one.
pub mod Laws
use gdrive_turbo_copy.Prelude.{
  ℕ, suc, String, Bool, true, false, ◌&&◌, ◌||◌, Option, none, some, leb, eqb, ◌==◌, string_eq,
  if◌then◌else◌,
}
use Prim.Native.Char.{code}

-- `[A-Za-z0-9_-]`
unfoldable pub is_id_code : ℕ → Bool
is_id_code c =
    (leb b'A' c && leb c b'Z')
    || (leb b'a' c && leb c b'z')
    || (leb b'0' c && leb c b'9')
    || eqb c b'_'
    || eqb c b'-'

-- What `str.strip` strips.
unfoldable pub is_space : ℕ → Bool
is_space c =
    (leb 9 c && leb c 13)
    || (leb 28 c && leb c 32)
    || eqb c 133
    || eqb c 160
    || eqb c 5760
    || (leb 8192 c && leb c 8202)
    || eqb c 8232
    || eqb c 8233
    || eqb c 8239
    || eqb c 8287
    || eqb c 12288

unfoldable pub strip_left : String → String
strip_left String.[] = ""
strip_left (String.◌∷◌ c s) =
    let rest = strip_left s in if is_space (code c) then rest else String.◌∷◌ c s

abbrev is_empty : String → Bool
is_empty String.[] = true
is_empty (String.◌∷◌ c s) = false

unfoldable pub strip_right : String → String
strip_right String.[] = ""
strip_right (String.◌∷◌ c s) =
    let rest = strip_right s in if is_empty rest && is_space (code c) then "" else String.◌∷◌ c rest

unfoldable pub strip : String → String
strip s = strip_right (strip_left s)

-- The longest run of id characters at the front.
unfoldable pub id_run : String → String
id_run String.[] = ""
id_run (String.◌∷◌ c s) =
    let rest = id_run s in if is_id_code (code c) then String.◌∷◌ c rest else ""

unfoldable pub size : String → ℕ
size String.[] = 0
size (String.◌∷◌ c s) = suc (size s)

-- What follows the text `p` at the front of `s`.
unfoldable pub after : String → String → Option String
after String.[] s = some s
after (String.◌∷◌ a p) String.[] = none
after (String.◌∷◌ a p) (String.◌∷◌ b s) = if eqb (code a) (code b) then after p s else none

-- A run of `n` characters or more.
abbrev pub long_run : ℕ → String → Option String
long_run n s = if leb n (size (id_run s)) then some (id_run s) else none

-- `pattern.match` at this place: the text `p`, then `n` id characters or more.
unfoldable pub match_at : String → ℕ → String → Option String
match_at p n s = elim (after p s) [ none ↦ none | some rest ↦ long_run n rest ]

-- `pattern.search`: the group of the first match.
unfoldable pub search_pattern : String → ℕ → String → Option String
search_pattern p n String.[] = match_at p n ""
search_pattern p n (String.◌∷◌ c s) =
    let later = search_pattern p n s in
    elim (match_at p n (String.◌∷◌ c s)) [ none ↦ later | some found ↦ some found ]

abbrev pub first_of_two : Option String → Option String → Option String
first_of_two none o = o
first_of_two (some s) o = some s

-- `extract_folder_id`; a missing url is passed as the empty text, which the code treats alike.
unfoldable pub extract_folder_id : String → Option String
extract_folder_id url =
    let stripped = strip url in
    let found = first_of_two (search_pattern "folders/" 10 stripped) (
      first_of_two (search_pattern "id=" 10 stripped)
        (first_of_two (search_pattern "/d/" 10 stripped) (search_pattern "" 25 stripped))) in
    if is_empty url then none else found
