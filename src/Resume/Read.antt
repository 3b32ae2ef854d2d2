-- ===== src/Resume/Read.antt =====
-- `migrate`, `deserialize` and `FailedItem.from_dict`: reading a log back. A log whose entries have
-- another JSON type than those that `serialize` writes counts as unreadable here.
pub mod Laws
pub mod Migrate
use gdrive_turbo_copy.Prelude.{
  ℕ, ◌*◌, ◌/◌, ◌^◌, String, Bool, true, false, not, Option, none, some, List, [], ◌∷◌, ltb, eqb,
  truthy, string_eq, ◌==◌, is_some, if◌then◌else◌,
}
use gdrive_turbo_copy.Prelude.Dict.{Dict}
use gdrive_turbo_copy.Prelude.Int.{Float, pos_part}
use gdrive_turbo_copy.Prelude.Sets.{add}
use gdrive_turbo_copy.Models.Records.{FailedItem, ResumeState, current_schema_version}
use gdrive_turbo_copy.Resume.Json.{
  Json, null, bool, num, str, arr, obj, Items, nil, cons, Fields, end, field, nat, get,
  append_field,
}
use gdrive_turbo_copy.Resume.Payload.{Codec, compute_integrity}

-- A value, or what the exception says.
pub data Read (A : Type 0) : Type 0 where
  ok : A → Read A
  bad : String → Read A

-- A value of the expected type, or none.
infixl 5 ◌>>=◌
abbrev pub ◌>>=◌ : {A B : Type 0} → Option A → (A → Option B) → Option B
none >>= f = none
some a >>= f = f a

abbrev pub has : String → Fields → Bool
has key fs = is_some (get key fs)

-- `d[key] = v`, and `d.setdefault(key, v)`
unfoldable pub put : String → Json → Fields → Fields
put key v end = field key v end
put key v (field k w fs) = if key == k then field k v fs else field k w (put key v fs)

unfoldable pub put_new : String → Json → Fields → Fields
put_new key v fs = if has key fs then fs else append_field key v fs

-- `int(x)` of a number: the part before the point, 0 for the negative ones.
abbrev pub whole : Float → ℕ
whole x = pos_part x.mantissa / 2 ^ x.exponent

-- `int(x or default)`
unfoldable pub read_number : ℕ → Option Json → Option ℕ
read_number default none = some default
read_number default (some null) = some default
read_number default (some (num x)) = some (if eqb (whole x) 0 then default else whole x)
read_number default (some _) = none

unfoldable pub version_of : Fields → Option ℕ
unfolding read_number
version_of raw =
    read_number 1 (elim (get "schema_version" raw) [ none ↦ get "version" raw | some v ↦ some v ])

-- `int(float(x or 0) * 1024 * 1024)`
unfoldable pub bytes_of_mb : Option Json → Option ℕ
bytes_of_mb none = some 0
bytes_of_mb (some null) = some 0
bytes_of_mb (some (num x)) = some (pos_part x.mantissa * 1048576 / 2 ^ x.exponent)
bytes_of_mb (some _) = none

-- The steps of `migrate`.
unfoldable pub from_v1 : Fields → Fields → Fields
from_v1 raw fs =
    if has "copied_file_ids" fs
    then fs
    else put "copied_file_ids" (elim (get "copied_ids" raw) [ none ↦ arr nil | some v ↦ v ]) fs

unfoldable pub from_v2 : Fields → Fields → Option Fields
unfolding bytes_of_mb put_new
from_v2 raw fs = do
  counted ←
      (if has "copied_bytes" fs
        then some fs
        else bytes_of_mb (get "lifetime_size_mb" raw)
          >>= (λ n. some (put "copied_bytes" (nat n) fs)))
  some (put_new "run_id" null (put_new "dest_root_id" null (put_new "source_root_id" null counted)))

abbrev pub when_older : ℕ → ℕ → (Fields → Option Fields) → Fields → Option Fields
when_older version limit step fs = if ltb version limit then step fs else some fs

unfoldable pub migrate : Fields → Option Fields
unfolding from_v1 from_v2 put_new
migrate raw = do
  version ← version_of raw
  v2 ← when_older version 2 (λ fs. some (from_v1 raw fs)) raw
  v3 ← when_older version 3 (from_v2 raw) v2
  v4 ← when_older version 4 (λ fs. some (put_new "completed_folder_ids" (arr nil) fs)) v3
  some (put "schema_version" (nat current_schema_version) v4)

-- Texts, lists of texts, and dicts of texts.
unfoldable pub read_texts : Items → Option (List String)
read_texts nil = some []
read_texts (cons (str s) items) = read_texts items >>= (λ rest. some (s ∷ rest))
read_texts (cons _ items) = none

unfoldable pub read_list : Option Json → Option (List String)
read_list none = some []
read_list (some null) = some []
read_list (some (arr items)) = read_texts items
read_list (some _) = none

unfoldable pub read_entries : Fields → Option (Dict String)
read_entries end = some []
read_entries (field k (str v) fs) = read_entries fs >>= (λ rest. some ((k, v) ∷ rest))
read_entries (field k _ fs) = none

unfoldable pub read_dict : Option Json → Option (Dict String)
read_dict none = some []
read_dict (some null) = some []
read_dict (some (obj fs)) = read_entries fs
read_dict (some _) = none

unfoldable pub read_nullable : Option Json → Option (Option String)
read_nullable none = some none
read_nullable (some null) = some none
read_nullable (some (str s)) = some (some s)
read_nullable (some _) = none

unfoldable pub read_text : String → Option Json → Option String
read_text default none = some default
read_text default (some (str s)) = some s
read_text default (some _) = none

-- `migrated.get(key) or now_iso()`
unfoldable pub read_time : String → Option Json → Option String
read_time now none = some now
read_time now (some null) = some now
read_time now (some (str s)) = some (if truthy s then s else now)
read_time now (some _) = none

unfoldable pub from_dict : String → Fields → Option FailedItem
unfolding read_text read_nullable
from_dict now d = do
  source_id ← read_text "" (get "source_id" d)
  name ← read_text "?" (get "name" d)
  mime_type ← read_text "" (elim (get "mimeType" d) [ none ↦ get "mime_type" d | some v ↦ some v ])
  reason ← read_text "unknown" (get "reason" d)
  error_message ← read_text "" (get "error_message" d)
  timestamp ← read_text now (get "timestamp" d)
  parent ← read_nullable (get "parent_source_id" d)
  target ← read_nullable (get "shortcut_target_id" d)
  shortcut ← read_nullable (get "source_shortcut_id" d)
  effective ← read_nullable (get "effective_source_id" d)
  some (record {
    source_id = source_id;
    name = name;
    mime_type = mime_type;
    reason = reason;
    error_message = error_message;
    timestamp = timestamp;
    parent_source_id = parent;
    shortcut_target_id = target;
    source_shortcut_id = shortcut;
    effective_source_id = effective;
  })

unfoldable pub read_failed_items : String → Items → Option (List FailedItem)
read_failed_items now nil = some []
read_failed_items now (cons (obj d) items) =
    from_dict now d >>= (λ f. read_failed_items now items >>= (λ rest. some (f ∷ rest)))
read_failed_items now (cons _ items) = none

unfoldable pub read_failed : String → Option Json → Option (List FailedItem)
read_failed now none = some []
read_failed now (some null) = some []
read_failed now (some (arr items)) = read_failed_items now items
read_failed now (some _) = none

-- `set(xs)`
unfoldable pub set_of : List String → List String
set_of [] = []
set_of (x ∷ xs) = add x (set_of xs)

-- The state that the migrated fields tell.
unfoldable pub state_of : String → Fields → Option ResumeState
unfolding read_list read_failed read_nullable read_dict read_number read_time set_of
state_of now m = do
  copied ←
      read_list (elim (get "copied_file_ids" m) [ none ↦ get "copied_ids" m | some v ↦ some v ])
  failed ← read_failed now (get "failed_items" m)
  account ← read_nullable (get "account" m)
  source_root ← read_nullable (get "source_root_id" m)
  dest_root ← read_nullable (get "dest_root_id" m)
  run ← read_nullable (get "run_id" m)
  folders ← read_dict (get "folder_map" m)
  finished ← read_list (get "completed_folder_ids" m)
  bytes ← read_number 0 (get "copied_bytes" m)
  created ← read_time now (get "created_at" m)
  updated ← read_time now (get "updated_at" m)
  some (record {
    schema_version = current_schema_version;
    account = account;
    source_root_id = source_root;
    dest_root_id = dest_root;
    run_id = run;
    copied_ids = set_of copied;
    folder_map = folders;
    completed_folders = set_of finished;
    failed_items = failed;
    copied_bytes = bytes;
    created_at = created;
    updated_at = updated;
  })

-- A hash that is stored must be that of the log.
unfoldable pub is_intact : Codec → Fields → Option Json → Bool
is_intact codec raw none = true
is_intact codec raw (some null) = true
is_intact codec raw (some (str hash)) = compute_integrity codec raw == hash
is_intact codec raw (some _) = false

abbrev pub or_bad : {A : Type 0} → String → Option A → Read A
or_bad message none = bad message
or_bad message (some a) = ok a

unfoldable pub deserialize_json : Codec → String → String → Option Json → Read ResumeState
deserialize_json codec now text none = bad (codec.complaint text)
deserialize_json codec now text (some (obj raw)) =
    if is_intact codec raw (get "integrity" raw)
    then or_bad (codec.complaint text) (migrate raw >>= state_of now)
    else bad "Resume log integrity hash mismatch (possibly corrupted)."
deserialize_json codec now text (some _) = bad "Resume log is not a JSON object."

-- The time is that of the reading.
unfoldable pub deserialize : Codec → String → String → Read ResumeState
deserialize codec now text = deserialize_json codec now text (codec.loads text)
