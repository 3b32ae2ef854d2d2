-- ===== src/Resume/Read/Laws.antt =====
-- A log that was written is read back as the state it was written from.
use gdrive_turbo_copy.Prelude.{
  ℕ, ◌≡◌, ◌∙◌, refl, sym, ap, subst, eq_of_==, String, true, false, ◌||◌, Option, none, some, List,
  [], ◌∷◌, ◌==◌, arith, truthy, string_eq, option_eq, ==_refl, eqb, if◌then◌else◌,
}
use text.Mathlib.TextPositions.{compare_refl}
use gdrive_turbo_copy.Prelude.Dict.{Dict, lookup, lookup-cons}
use gdrive_turbo_copy.Prelude.Int.{of_ℤ, pos}
use gdrive_turbo_copy.Prelude.Sets.{contains, contains-add}
use gdrive_turbo_copy.Models.Records.{FailedItem, ResumeState, current_schema_version}
use gdrive_turbo_copy.Resume.Json.{str, obj, texts, entries, nullable, get, append_field}
use gdrive_turbo_copy.Resume.Payload.{
  Codec, text_le, insert_sorted, insert_entry, sorted, sorted_entries, to_dict, failed_list,
  canonical_payload, serialize,
}
use gdrive_turbo_copy.Resume.Payload.Laws.{
  written, hash, compute_integrity-written, get-append_field, no_integrity,
}
use gdrive_turbo_copy.Resume.Read.{
  ok, read_number, read_texts, read_entries, read_nullable, from_dict, read_failed_items, set_of,
  migrate, state_of, is_intact, deserialize_json, deserialize, read_time, read_list, read_dict,
  read_failed, put, read_text, version_of, whole,
}

read_texts-texts : (l : List String) → read_texts (texts l) ≡ some l
unfolding read_texts
read_texts-texts [] = refl
read_texts-texts (x ∷ l) = rw (read_texts-texts l) refl

read_entries-entries : (d : Dict String) → read_entries (entries d) ≡ some d
unfolding read_entries
read_entries-entries [] = refl
read_entries-entries ((k, v) ∷ d) = rw (read_entries-entries d) refl

read_nullable-nullable : (o : Option String) → read_nullable (some (nullable o)) ≡ some o
unfolding read_nullable
read_nullable-nullable none = refl
read_nullable-nullable (some s) = refl

whole_or_zero : (n : ℕ) → (if eqb (whole (of_ℤ (pos n))) 0 then 0 else whole (of_ℤ (pos n))) ≡ n
whole_or_zero n = ground arith

abbrev item_of : (a b c d e g : String) (p t s f : Option String) → FailedItem
item_of a b c d e g p t s f = record {
  source_id = a;
  name = b;
  mime_type = c;
  reason = d;
  error_message = e;
  timestamp = g;
  parent_source_id = p;
  shortcut_target_id = t;
  source_shortcut_id = s;
  effective_source_id = f;
}

-- The optional fields one by one: each is there, or is not.
from_dict-item_of :
    (now a b c d e g : String) (p t s f : Option String)
    → from_dict now (to_dict (item_of a b c d e g p t s f)) ≡ some (item_of a b c d e g p t s f)
unfolding from_dict to_dict get string_eq read_text read_nullable
from_dict-item_of now a b c d e g none none none none = refl
from_dict-item_of now a b c d e g none none none (some f) = refl
from_dict-item_of now a b c d e g none none (some s) none = refl
from_dict-item_of now a b c d e g none none (some s) (some f) = refl
from_dict-item_of now a b c d e g none (some t) none none = refl
from_dict-item_of now a b c d e g none (some t) none (some f) = refl
from_dict-item_of now a b c d e g none (some t) (some s) none = refl
from_dict-item_of now a b c d e g none (some t) (some s) (some f) = refl
from_dict-item_of now a b c d e g (some p) none none none = refl
from_dict-item_of now a b c d e g (some p) none none (some f) = refl
from_dict-item_of now a b c d e g (some p) none (some s) none = refl
from_dict-item_of now a b c d e g (some p) none (some s) (some f) = refl
from_dict-item_of now a b c d e g (some p) (some t) none none = refl
from_dict-item_of now a b c d e g (some p) (some t) none (some f) = refl
from_dict-item_of now a b c d e g (some p) (some t) (some s) none = refl
from_dict-item_of now a b c d e g (some p) (some t) (some s) (some f) = refl

-- A failed item is read back from the object that it is written to.
from_dict-to_dict : (now : String) (f : FailedItem) → from_dict now (to_dict f) ≡ some f
from_dict-to_dict now f =
    from_dict-item_of now f.source_id f.name f.mime_type f.reason f.error_message f.timestamp
      f.parent_source_id f.shortcut_target_id f.source_shortcut_id f.effective_source_id

read_failed_items-failed_list :
    (now : String) (l : List FailedItem) → read_failed_items now (failed_list l) ≡ some l
unfolding read_failed_items failed_list
read_failed_items-failed_list now [] = refl
read_failed_items-failed_list now (f ∷ l) =
    rw (from_dict-to_dict now f, read_failed_items-failed_list now l) refl

contains-insert_sorted :
    (x y : String) (l : List String) → contains x (insert_sorted y l) ≡ (x == y || contains x l)
unfolding insert_sorted contains
contains-insert_sorted x y [] = refl
contains-insert_sorted x y (z ∷ l) = ground (arith, contains-insert_sorted x y l)

contains-sorted : (x : String) (l : List String) → contains x (sorted l) ≡ contains x l
unfolding sorted contains
contains-sorted x [] = refl
contains-sorted x (y ∷ l) =
    ground (arith, contains-insert_sorted x y (sorted l), contains-sorted x l)

contains-set_of : (x : String) (l : List String) → contains x (set_of l) ≡ contains x l
unfolding set_of contains
contains-set_of x [] = refl
contains-set_of x (y ∷ l) = ground (arith, contains-add x y (set_of l), contains-set_of x l)

text_le_refl : (k : String) → text_le k k ≡ true
text_le_refl k = rw (compare_refl k, text_le) refl

-- An entry that is put behind another has another key.
keys_differ : (k j : String) → text_le k j ≡ false → (k == j) ≡ false
keys_differ k j h = grind (arith, text_le_refl k, eq_of_== k j)

-- A text that is one of two different keys is not the other.
not_both : (k i j : String) → (i == j) ≡ false → (k == i) ≡ true → (k == j) ≡ false
not_both k i j differ same = subst (λ x. (x == j) ≡ false) (sym (eq_of_== k i same)) differ

lookup-insert_entry :
    (k i : String) (v : String) (d : Dict String)
    → lookup k (insert_entry (i, v) d) ≡ lookup k ((i, v) ∷ d)
unfolding insert_entry lookup
lookup-insert_entry k i v [] = refl
lookup-insert_entry k i v ((j, w) ∷ d) =
    ground (arith, lookup-insert_entry k i v d, keys_differ i j, not_both k i j)

lookup-sorted_entries : (k : String) (d : Dict String) → lookup k (sorted_entries d) ≡ lookup k d
unfolding sorted_entries
lookup-sorted_entries k [] = refl
lookup-sorted_entries k ((j, v) ∷ d) =
    lookup-insert_entry k j v (sorted_entries d)
    ∙ lookup-cons k j v (sorted_entries d)
    ∙ ap (λ r. if k == j then some v else r) (lookup-sorted_entries k d)
    ∙ sym (lookup-cons k j v d)

-- The state that the reading of a log gives: that which was written, its sets sorted.
abbrev pub again : ResumeState → ResumeState
again s = record s {
  schema_version = current_schema_version;
  copied_ids = set_of (sorted s.copied_ids);
  folder_map = sorted_entries s.folder_map;
  completed_folders = set_of (sorted s.completed_folders);
}

module _ (codec : Codec) (now : String) (s : ResumeState) where
  -- Nothing is old about a log that was just written.
  migrate-written : migrate (written codec s) ≡ some (written codec s)
  unfolding migrate canonical_payload get put append_field string_eq version_of read_number
  migrate-written = refl

  state_of-written :
      truthy s.created_at ≡ true
      → truthy s.updated_at ≡ true
      → state_of now (written codec s) ≡ some (again s)
  unfolding state_of canonical_payload get append_field string_eq read_time read_list read_dict
      read_failed
  state_of-written created updated =
      rw
        (
          whole_or_zero s.copied_bytes,
          read_nullable-nullable s.account,
          read_nullable-nullable s.source_root_id,
          read_nullable-nullable s.dest_root_id,
          read_nullable-nullable s.run_id,
          read_texts-texts (sorted s.copied_ids),
          read_texts-texts (sorted s.completed_folders),
          read_entries-entries (sorted_entries s.folder_map),
          read_failed_items-failed_list now s.failed_items,
          created,
          updated,
        )
        refl

  -- The hash in the log is that of the log.
  is_intact-written : is_intact codec (written codec s) (some (str (hash codec s))) ≡ true
  unfolding is_intact
  is_intact-written = rw (compute_integrity-written codec s) (==_refl (hash codec s))

  pub deserialize-written :
      codec.loads (serialize codec s) ≡ some (obj (written codec s))
      → truthy s.created_at ≡ true
      → truthy s.updated_at ≡ true
      → deserialize codec now (serialize codec s) ≡ ok (again s)
  unfolding deserialize deserialize_json
  deserialize-written loads created updated =
      rw
        (
          loads,
          get-append_field "integrity" (str (hash codec s)) (canonical_payload s) (no_integrity s),
          is_intact-written,
          migrate-written,
          state_of-written created updated,
        )
        refl

-- What two states have in common when one is the other written to a log and read back: the order of
-- a set, and that of the entries of a dict, may differ.
pub record Same (s t : ResumeState) : Type 0 where
  version : t.schema_version ≡ current_schema_version
  account : t.account ≡ s.account
  source_root : t.source_root_id ≡ s.source_root_id
  dest_root : t.dest_root_id ≡ s.dest_root_id
  run : t.run_id ≡ s.run_id
  copied : (x : String) → contains x t.copied_ids ≡ contains x s.copied_ids
  folders : (k : String) → lookup k t.folder_map ≡ lookup k s.folder_map
  finished : (x : String) → contains x t.completed_folders ≡ contains x s.completed_folders
  failed : t.failed_items ≡ s.failed_items
  bytes : t.copied_bytes ≡ s.copied_bytes
  created : t.created_at ≡ s.created_at
  updated : t.updated_at ≡ s.updated_at

Same-again : (s : ResumeState) → Same s (again s)
Same-again s = record {
  version = refl;
  account = refl;
  source_root = refl;
  dest_root = refl;
  run = refl;
  copied = λ x. contains-set_of x (sorted s.copied_ids) ∙ contains-sorted x s.copied_ids;
  folders = λ k. lookup-sorted_entries k s.folder_map;
  finished =
      λ x. contains-set_of x (sorted s.completed_folders) ∙ contains-sorted x s.completed_folders;
  failed = refl;
  bytes = refl;
  created = refl;
  updated = refl;
}

-- A log that is written can be read: if the JSON decoder undoes the encoder on the log's text, and the
-- two times of the state are not empty, then `deserialize` accepts what `serialize` wrote, hash and
-- all, and gives a state of the current version with the same copied files, finished folders and
-- folder map, the order in a set or a map aside, and the same values in every other field.
pub deserialize-serialize :
    (codec : Codec) (now : String) (s : ResumeState)
    → codec.loads (serialize codec s) ≡ some (obj (written codec s))
    → truthy s.created_at ≡ true
    → truthy s.updated_at ≡ true
    → (t : ResumeState) × (deserialize codec now (serialize codec s) ≡ ok t) × Same s t
deserialize-serialize codec now s loads created updated =
    (again s, deserialize-written codec now s loads created updated, Same-again s)
