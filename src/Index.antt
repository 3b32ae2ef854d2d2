-- ===== src/Index.antt =====
-- `DestinationIndex` of src/gdrive_turbo_copy/copier.py: the files of a destination folder by their
-- source key and by name, consumed one by one as source files are matched with them.
--
-- The index holds objects, and Python tells two objects with equal fields apart (`is`, and the entry
-- that `list.remove` takes is the first equal one), so an item carries a handle beside its file.
pub mod Laws
pub mod Build
pub mod Used
pub mod Match
use gdrive_turbo_copy.Prelude.{
  ℕ, suc, ◌+◌, String, Bool, true, false, not, ◌&&◌, ◌||◌, Option, none, some, List, [], ◌∷◌, ◌++◌,
  eqb, length, any, all, find, keep, truthy, is_set, is_some, ◌==◌, string_eq, option_eq, number_eq,
  bool_eq, if◌then◌else◌,
}
use gdrive_turbo_copy.Prelude.Dict.{Dict, lookup, insert, erase}
use gdrive_turbo_copy.Models.DriveFile.{DriveFile, is_folder}
use gdrive_turbo_copy.Models.Config.{VerifyMode, checksum, name_size, name_only}

pub record Item : Type 0 where
  pub handle : ℕ
  pub file : DriveFile

pub record DestinationIndex : Type 0 where
  pub app_props : Dict Item
  pub by_name : Dict (List Item)

abbrev pub empty_index : DestinationIndex
empty_index = record { app_props = []; by_name = [] }

-- Equality of dicts, which knows no order.
unfoldable pub dict_equal : Dict String → Dict String → Bool
dict_equal d e = eqb (length d) (length e) && all (λ entry. lookup entry.0 e == some entry.1) d

-- The `==` of the dataclass.
unfoldable pub equal_files : DriveFile → DriveFile → Bool
equal_files a b =
    a.id == b.id
    && a.name == b.name
    && a.mime_type == b.mime_type
    && a.size == b.size
    && a.md5 == b.md5
    && a.shortcut_target_id == b.shortcut_target_id
    && dict_equal a.app_properties b.app_properties
    && a.trashed == b.trashed
    && a.modified_time == b.modified_time
    && a.created_time == b.created_time
    && a.description == b.description

-- `a is b`, and the test of `in` and `list.remove`: the same object, or an equal one.
abbrev pub same_object : Item → Item → Bool
same_object a b = eqb a.handle b.handle

unfoldable pub equals : Item → Item → Bool
equals a b = same_object a b || equal_files a.file b.file

unfoldable pub is_in : Item → List Item → Bool
is_in x [] = false
is_in x (y ∷ items) = equals x y || is_in x items

-- `items.remove(x)`, for an item that is in the list.
unfoldable pub remove : Item → List Item → List Item
remove x [] = []
remove x (y ∷ items) = if equals x y then items else y ∷ remove x items

-- `a or b` for texts that may be `None`.
abbrev pub first_set : Option String → Option String → Option String
first_set a b = if is_set a then a else b

-- The source key of a destination file.
unfoldable pub key_of : DriveFile → Option String
key_of f =
    first_set (lookup "source_shortcut_id" f.app_properties)
      (lookup "source_file_id" f.app_properties)

abbrev pub bucket : String → Dict (List Item) → List Item
bucket name by_name = elim (lookup name by_name) [ none ↦ [] | some items ↦ items ]

abbrev pub put_key : Option String → Item → Dict Item → Dict Item
put_key none item d = d
put_key (some key) item d = if truthy key then insert key item d else d

-- One round of the loop of `build`.
unfoldable pub add_item : Item → DestinationIndex → DestinationIndex
add_item item idx = if is_folder item.file then idx else record {
  app_props = put_key (key_of item.file) item idx.app_props;
  by_name = insert item.file.name (bucket item.file.name idx.by_name ++ (item ∷ [])) idx.by_name;
}

unfoldable pub build_from : ℕ → List DriveFile → DestinationIndex → DestinationIndex
build_from n [] idx = idx
build_from n (file ∷ files) idx =
    build_from (n + 1) files (add_item (record { handle = n; file = file }) idx)

unfoldable pub build : List DriveFile → DestinationIndex
build files = build_from 0 files empty_index

abbrev pub set_bucket : String → List Item → Dict (List Item) → Dict (List Item)
set_bucket name [] by_name = erase name by_name
set_bucket name (x ∷ items) by_name = insert name (x ∷ items) by_name

unfoldable pub remove_from_name : Item → Dict (List Item) → Dict (List Item)
remove_from_name item by_name =
    if is_in item (bucket item.file.name by_name)
    then set_bucket item.file.name (remove item (bucket item.file.name by_name)) by_name
    else by_name

-- What a pop gives: the item, and the index without it.
abbrev pub Popped : Type 0
Popped = Option Item × DestinationIndex

abbrev pub pop_item : String → Option Item → DestinationIndex → Popped
pop_item key none idx = (none, idx)
pop_item key (some item) idx = (
  some item,
  record { app_props = erase key idx.app_props; by_name = remove_from_name item idx.by_name },
)

unfoldable pub pop_by_app_prop : String → DestinationIndex → Popped
pop_by_app_prop key idx =
    if truthy key then pop_item key (lookup key idx.app_props) idx else (none, idx)

abbrev pub same_size : DriveFile → Item → Bool
same_size source item =
    is_some source.size && is_some item.file.size && source.size == item.file.size

abbrev pub same_md5 : DriveFile → Item → Bool
same_md5 source item = is_set source.md5 && is_set item.file.md5 && source.md5 == item.file.md5

abbrev pub or_find : Option Item → Option Item → Option Item
or_find none other = other
or_find (some item) other = some item

abbrev pub first_item : List Item → Option Item
first_item [] = none
first_item (x ∷ items) = some x

-- The candidate that the mode accepts.
unfoldable pub choose : VerifyMode → Bool → DriveFile → List Item → Option Item
choose name_only allow source items = if allow then first_item items else none
choose checksum allow source items = find (same_md5 source) items
choose name_size allow source items =
    or_find (find (same_md5 source) items)
      (if is_some source.size then find (same_size source) items else none)

-- `self.app_props.pop(k)` for each key under which this very object is stored, if an equal object
-- is stored at all.
unfoldable pub values_contain : Item → Dict Item → Bool
values_contain item [] = false
values_contain item ((_, v) ∷ d) = equals item v || values_contain item d

unfoldable pub drop_object : Item → Dict Item → Dict Item
drop_object item d = keep (λ entry. not (same_object entry.1 item)) d

unfoldable pub forget : Item → Dict Item → Dict Item
forget item d = if values_contain item d then drop_object item d else d

abbrev pub take_match : Option Item → DestinationIndex → Popped
take_match none idx = (none, idx)
take_match (some item) idx = (
  some item,
  record { app_props = forget item idx.app_props; by_name = remove_from_name item idx.by_name },
)

abbrev pub or_by_name : Popped → VerifyMode → Bool → DriveFile → Popped
or_by_name (some item, idx) mode allow source = (some item, idx)
or_by_name (none, idx) mode allow source =
    take_match (choose mode allow source (bucket source.name idx.by_name)) idx

-- `pop_match`, with `effective_id or source.id` as the key.
unfoldable pub pop_match : DriveFile → VerifyMode → Bool → String → DestinationIndex → Popped
pop_match source mode allow effective_id idx =
    or_by_name (pop_by_app_prop (if truthy effective_id then effective_id else source.id) idx) mode
      allow source
