-- ===== src/Index/Build.antt =====
-- What `build` puts into an index.
use gdrive_turbo_copy.Prelude.{
  ℕ, ◌+◌, ◌≡◌, ◌∙◌, refl, sym, ap, String, Bool, true, false, not, ◌&&◌, Option, none, some, List,
  [], ◌∷◌, ◌++◌, keep, map, arith, truthy, is_set, ◌==◌, eq_of_==, string_eq, option_eq, Bool-cases,
  inl, inr, if◌then◌else◌,
}
use gdrive_turbo_copy.Prelude.Dict.{Dict, lookup, lookup-insert, lookup-nil}
use gdrive_turbo_copy.Models.DriveFile.{DriveFile, is_folder}
use gdrive_turbo_copy.Index.{
  Item, DestinationIndex, empty_index, key_of, bucket, put_key, add_item, build_from, build,
}
use gdrive_turbo_copy.Index.Laws.{bucket-insert, bucket-nil}

-- A plain file of the given name.
abbrev pub is_named : String → DriveFile → Bool
is_named name f = not (is_folder f) && name == f.name

-- The file was made from the source of the given id: its shortcut's, or if it has none, its own.
abbrev pub has_source : String → DriveFile → Bool
has_source key f =
    let shortcut = lookup "source_shortcut_id" f.app_properties in
    let source = lookup "source_file_id" f.app_properties in
    truthy key && (if is_set shortcut then shortcut == some key else source == some key)

abbrev pub is_made_from : String → DriveFile → Bool
is_made_from key f = not (is_folder f) && has_source key f

abbrev pub later : Option DriveFile → Option DriveFile → Option DriveFile
later none found = found
later (some f) found = some f

-- The last of the files that satisfies the test.
abbrev pub last_of : (DriveFile → Bool) → List DriveFile → Option DriveFile
last_of p [] = none
last_of p (f ∷ files) = later (last_of p files) (if p f then some f else none)

abbrev pub files_of : List Item → List DriveFile
files_of items = map (λ item. item.file) items

abbrev pub file_of : Option Item → Option DriveFile
file_of none = none
file_of (some item) = some item.file

-- The index of exactly these files.
pub record Indexes (files : List DriveFile) (idx : DestinationIndex) : Type 0 where
  pub named : (name : String) → files_of (bucket name idx.by_name) ≡ keep (is_named name) files
  pub keyed : (key : String) → file_of (lookup key idx.app_props) ≡ last_of (is_made_from key) files

files_of-append : (a b : List Item) → files_of (a ++ b) ≡ files_of a ++ files_of b
files_of-append [] b = refl
files_of-append (x ∷ a) b = ap (λ l. x.file ∷ l) (files_of-append a b)

append_nil : (a : List DriveFile) → a ++ [] ≡ a
append_nil [] = refl
append_nil (x ∷ a) = ap (λ l. x ∷ l) (append_nil a)

append_one :
    (a : List DriveFile) (x : DriveFile) (b : List DriveFile) → (a ++ (x ∷ [])) ++ b ≡ a ++ (x ∷ b)
append_one [] x b = refl
append_one (y ∷ a) x b = ap (λ l. y ∷ l) (append_one a x b)

-- A file more in the buckets.
add_item-named :
    (item : Item) (idx : DestinationIndex) (name : String)
    → files_of (bucket name (add_item item idx).by_name) ≡ (
        files_of (bucket name idx.by_name)
        ++ (if is_named name item.file then item.file ∷ [] else []))
unfolding add_item
add_item-named item idx name = elim (Bool-cases (is_folder item.file)) [
  | inl folder ↦ rw folder (sym (append_nil _))
  | inr plain ↦
      rw
        (
          plain,
          bucket-insert name item.file.name (bucket item.file.name idx.by_name ++ (item ∷ []))
              idx.by_name,
        )
        (by_name (name == item.file.name) refl)
]
  where
    by_name :
        (b : Bool)
        → (name == item.file.name) ≡ b
        → files_of (
            if b then bucket item.file.name idx.by_name ++ (item ∷ []) else bucket name idx.by_name)
          ≡ (files_of (bucket name idx.by_name) ++ (if b then item.file ∷ [] else []))
    by_name false other = sym (append_nil _)
    by_name true same =
        files_of-append (bucket item.file.name idx.by_name) (item ∷ [])
        ∙ ap (λ n. files_of (bucket n idx.by_name) ++ (item.file ∷ []))
            (sym (eq_of_== name item.file.name same))

put_key-keyed :
    (key : String) (k : Option String) (item : Item) (d : Dict Item)
    → file_of (lookup key (put_key k item d))
      ≡ (if truthy key && k == some key then some item.file else file_of (lookup key d))
put_key-keyed key none item d = ground arith
put_key-keyed key (some j) item d = ground (arith, lookup-insert key j item d)

-- The key of a file, as the two properties give it.
key_of-has_source :
    (key : String) (f : DriveFile) → (truthy key && key_of f == some key) ≡ has_source key f
unfolding key_of
key_of-has_source key f = by_shortcut (is_set (lookup "source_shortcut_id" f.app_properties))
  where
    by_shortcut :
        (b : Bool)
        → (truthy key
            && (if b
                then lookup "source_shortcut_id" f.app_properties
                else lookup "source_file_id" f.app_properties)
              == some key)
          ≡ (truthy key
              && (if b
                  then lookup "source_shortcut_id" f.app_properties == some key
                  else lookup "source_file_id" f.app_properties == some key))
    by_shortcut true = refl
    by_shortcut false = refl

add_item-keyed :
    (item : Item) (idx : DestinationIndex) (key : String)
    → file_of (lookup key (add_item item idx).app_props)
      ≡ (if is_made_from key item.file then some item.file else file_of (lookup key idx.app_props))
unfolding add_item
add_item-keyed item idx key = elim (Bool-cases (is_folder item.file)) [
  | inl folder ↦ rw folder refl
  | inr plain ↦ rw plain (
      put_key-keyed key (key_of item.file) item idx.app_props
      ∙ ap (λ b. if b then some item.file else file_of (lookup key idx.app_props))
          (key_of-has_source key item.file))
]

named-step :
    (b : Bool) (old : List DriveFile) (f : DriveFile) (rest : List DriveFile)
    → (old ++ (if b then f ∷ [] else [])) ++ rest ≡ old ++ (if b then f ∷ rest else rest)
named-step true old f rest = append_one old f rest
named-step false old f rest = ap (λ l. l ++ rest) (append_nil old)

keyed-step :
    (b : Bool) (last : Option DriveFile) (f : DriveFile) (old : Option DriveFile)
    → later last (if b then some f else old) ≡ later (later last (if b then some f else none)) old
keyed-step true none f old = refl
keyed-step false none f old = refl
keyed-step b (some g) f old = refl

build_from-named :
    (n : ℕ) (files : List DriveFile) (idx : DestinationIndex) (name : String)
    → files_of (bucket name (build_from n files idx).by_name)
      ≡ files_of (bucket name idx.by_name) ++ keep (is_named name) files
unfolding build_from
build_from-named n [] idx name = sym (append_nil _)
build_from-named n (f ∷ files) idx name =
    let item : Item = record { handle = n; file = f } in
    build_from-named (n + 1) files (add_item item idx) name
    ∙ ap (λ l. l ++ keep (is_named name) files) (add_item-named item idx name)
    ∙ named-step (is_named name f) (files_of (bucket name idx.by_name)) f
        (keep (is_named name) files)

build_from-keyed :
    (n : ℕ) (files : List DriveFile) (idx : DestinationIndex) (key : String)
    → file_of (lookup key (build_from n files idx).app_props)
      ≡ later (last_of (is_made_from key) files) (file_of (lookup key idx.app_props))
unfolding build_from
build_from-keyed n [] idx key = refl
build_from-keyed n (f ∷ files) idx key =
    let item : Item = record { handle = n; file = f } in
    build_from-keyed (n + 1) files (add_item item idx) key
    ∙ ap (later (last_of (is_made_from key) files)) (add_item-keyed item idx key)
    ∙ keyed-step (is_made_from key f) (last_of (is_made_from key) files) f
        (file_of (lookup key idx.app_props))

later-none : (o : Option DriveFile) → later o none ≡ o
later-none none = refl
later-none (some f) = refl

-- The index of a listing has, under each name, the files of that name in the order of the listing,
-- without the folders; and under each source id the last file that was made from it, where the id of a
-- shortcut counts before that of a file, and an empty id not at all.
pub build-Indexes : (files : List DriveFile) → Indexes files (build files)
unfolding build
build-Indexes files = record {
  named = λ name. build_from-named 0 files empty_index name ∙ rw (bucket-nil name) refl;
  keyed = λ key.
      build_from-keyed 0 files empty_index key
      ∙ rw (lookup-nil {V = Item} key) (later-none (last_of (is_made_from key) files));
}
