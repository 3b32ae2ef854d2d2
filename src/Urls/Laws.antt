-- ===== src/Urls/Laws.antt =====
-- What `extract_folder_id` returns, and the links that it reads back.
use gdrive_turbo_copy.Prelude.{
  ℕ, ◌≤◌, ◌≡◌, refl, String, Bool, true, false, not, ◌||◌, Option, none, some, arith, Option-cases,
  Bool-cases, inl, inr,
}
use gdrive_turbo_copy.Urls.{
  is_id_code, id_run, size, after, match_at, search_pattern, first_of_two, strip, strip_left,
  strip_right, extract_folder_id, is_space,
}
use native.Mathlib.Decide.{ℕ_discrete}
use Prim.Native.Char.{code}

-- Every character is a letter, a digit, `_` or `-`.
abbrev pub IsIdText : String → Type 0
IsIdText String.[] = Unit
IsIdText (String.◌∷◌ c s) = (is_id_code (code c) ≡ true) × IsIdText s

id_run-IsIdText : (s : String) → IsIdText (id_run s)
unfolding id_run
id_run-IsIdText String.[] = tt
id_run-IsIdText (String.◌∷◌ c s) = elim (Bool-cases (is_id_code (code c))) [
  | inl good ↦ rw good (good, id_run-IsIdText s)
  | inr bad ↦ rw bad tt
]

-- What a pattern of at least 10 characters finds.
abbrev pub IsFound : Option String → Type 0
IsFound none = Unit
IsFound (some s) = IsIdText s × (10 ≤ size s)

match_at-IsFound : (p : String) (n : ℕ) (s : String) → 10 ≤ n → IsFound (match_at p n s)
unfolding match_at
match_at-IsFound p n s h = elim (Option-cases (after p s)) [
  | inl gone ↦ rw (gone, match_at) tt
  | inr (rest, e) ↦ rw (e, match_at) (ground (arith, id_run-IsIdText rest))
]

first_of_two-IsFound : (o o' : Option String) → IsFound o → IsFound o' → IsFound (first_of_two o o')
first_of_two-IsFound none o' h h' = h'
first_of_two-IsFound (some s) o' h h' = h

search_pattern-IsFound : (p : String) (n : ℕ) (s : String) → 10 ≤ n → IsFound (search_pattern p n s)
unfolding search_pattern
search_pattern-IsFound p n String.[] h = match_at-IsFound p n "" h
search_pattern-IsFound p n (String.◌∷◌ c s) h =
    ground (arith, match_at-IsFound p n (String.◌∷◌ c s) h, search_pattern-IsFound p n s h)

-- Whatever the text, an id that is found has ten characters or more, each of them a letter, a digit,
-- `_` or `-`: none that has a meaning in a Drive query.
pub extract_folder_id-IsFound : (url : String) → IsFound (extract_folder_id url)
unfolding extract_folder_id
extract_folder_id-IsFound String.[] = tt
extract_folder_id-IsFound (String.◌∷◌ c s) =
    let stripped = strip (String.◌∷◌ c s) in
    first_of_two-IsFound _ _ (search_pattern-IsFound "folders/" 10 stripped (omega arith)) (
      first_of_two-IsFound _ _ (search_pattern-IsFound "id=" 10 stripped (omega arith)) (
        first_of_two-IsFound _ _ (search_pattern-IsFound "/d/" 10 stripped (omega arith))
          (search_pattern-IsFound "" 25 stripped (omega arith))))

-- An id is its own run, and `strip` leaves it alone.
id_run_self : (s : String) → IsIdText s → id_run s ≡ s
unfolding id_run
id_run_self String.[] h = refl
id_run_self (String.◌∷◌ c s) h = ground (arith, id_run_self s h.1)

not_space : (c : ℕ) → is_id_code c ≡ true → is_space c ≡ false
unfolding is_id_code is_space
not_space c h = ground arith

strip_right_self : (s : String) → IsIdText s → strip_right s ≡ s
unfolding strip_right
strip_right_self String.[] h = refl
strip_right_self (String.◌∷◌ c s) h = ground (arith, strip_right_self s h.1, not_space (code c) h.0)

-- Some character is none of an id's.
has_foreign : String → Bool
has_foreign String.[] = false
has_foreign (String.◌∷◌ c s) = not (is_id_code (code c)) || has_foreign s

after-none : (p s : String) → has_foreign p ≡ true → IsIdText s → after p s ≡ none
unfolding after has_foreign
after-none String.[] s h t = cc
after-none (String.◌∷◌ a p) String.[] h t = refl
after-none (String.◌∷◌ a p) (String.◌∷◌ b s) h t = elim (ℕ_discrete (code a) (code b)) [
  | yes same ↦
      let inside : has_foreign p ≡ true = rw (same, t.0) at h in
      ground (arith, after-none p s inside t.1)
  | no differ ↦ ground arith
]

match_at-none :
    (p : String) (n : ℕ) (s : String) → has_foreign p ≡ true → IsIdText s → match_at p n s ≡ none
unfolding match_at
match_at-none p n s h t = rw (after-none p s h t, match_at)

search_pattern-none :
    (p : String) (n : ℕ) (s : String)
    → has_foreign p ≡ true
    → IsIdText s
    → search_pattern p n s ≡ none
unfolding search_pattern
search_pattern-none p n String.[] h t = match_at-none p n "" h t
search_pattern-none p n (String.◌∷◌ c s) h t =
    rw (match_at-none p n (String.◌∷◌ c s) h t, search_pattern) (search_pattern-none p n s h t.1)

foreign_marks :
    (has_foreign "folders/" ≡ true) × (has_foreign "id=" ≡ true) × (has_foreign "/d/" ≡ true)
unfolding has_foreign is_id_code
foreign_marks = (refl, refl, refl)

match_at_self : (s : String) → IsIdText s → 25 ≤ size s → match_at "" 25 s ≡ some s
unfolding match_at after
match_at_self s t h = rw (id_run_self s t) (ground arith)

search_pattern_self : (s : String) → IsIdText s → 25 ≤ size s → search_pattern "" 25 s ≡ some s
unfolding search_pattern
search_pattern_self String.[] t h = match_at_self "" t h
search_pattern_self (String.◌∷◌ c s) t h = rw (match_at_self (String.◌∷◌ c s) t h, search_pattern)

strip_left_self : (s : String) → IsIdText s → strip_left s ≡ s
unfolding strip_left
strip_left_self String.[] t = refl
strip_left_self (String.◌∷◌ c s) t = rw (not_space (code c) t.0)

-- A bare id of 25 characters or more is read as itself.
pub extract_folder_id_bare : (s : String) → IsIdText s → 25 ≤ size s → extract_folder_id s ≡ some s
unfolding extract_folder_id strip size
extract_folder_id_bare String.[] t h = absurd (omega arith)
extract_folder_id_bare (String.◌∷◌ c s) t h = rw (
  strip_left_self (String.◌∷◌ c s) t,
  strip_right_self (String.◌∷◌ c s) t,
  search_pattern-none "folders/" 10 (String.◌∷◌ c s) foreign_marks.0 t,
  search_pattern-none "id=" 10 (String.◌∷◌ c s) foreign_marks.1 t,
  search_pattern-none "/d/" 10 (String.◌∷◌ c s) foreign_marks.2 t,
  search_pattern_self (String.◌∷◌ c s) t h,
)
