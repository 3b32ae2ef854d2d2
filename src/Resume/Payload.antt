-- ===== src/Resume/Payload.antt =====
-- `_canonical_payload`, `compute_integrity`, `serialize`, and `FailedItem.to_dict`.
pub mod Laws
use gdrive_turbo_copy.Prelude.{
  String, Bool, true, false, Option, none, some, List, [], ◌∷◌, string_eq, if◌then◌else◌,
}
use gdrive_turbo_copy.Prelude.Dict.{Dict}
use gdrive_turbo_copy.Models.Records.{FailedItem, ResumeState, current_schema_version}
use gdrive_turbo_copy.Resume.Json.{
  Json, str, arr, obj, Items, nil, cons, Fields, end, field, nat, nullable, texts, entries, without,
  append_field,
}
use Prim.Native.Nat.{Ordering}
use Prim.Native.String.{compare}

-- `json.dumps` with the three sets of options that the store uses, `json.loads`, and the hexadecimal
-- SHA-256 of a text's UTF-8 bytes.
pub record Codec : Type 0 where
  pub dumps_canonical : Json → String
  pub dumps_pretty : Json → String
  pub dumps : Json → String
  pub loads : String → Option Json
  pub sha256 : String → String
  -- What the exception says when a text is not JSON, or not a log.
  pub complaint : String → String

abbrev pub text_le : String → String → Bool
text_le a b = elim (compare a b) [ Ordering.gt ↦ false | _ ↦ true ]

unfoldable pub insert_sorted : String → List String → List String
insert_sorted x [] = x ∷ []
insert_sorted x (y ∷ l) = if text_le x y then x ∷ y ∷ l else y ∷ insert_sorted x l

-- `sorted(s)` for a set of texts.
unfoldable pub sorted : List String → List String
unfolding insert_sorted
sorted [] = []
sorted (x ∷ l) = insert_sorted x (sorted l)

unfoldable pub insert_entry : String × String → Dict String → Dict String
insert_entry e [] = e ∷ []
insert_entry e (f ∷ d) = if text_le e.0 f.0 then e ∷ f ∷ d else f ∷ insert_entry e d

-- `dict(sorted(d.items()))`; no two entries have one key.
unfoldable pub sorted_entries : Dict String → Dict String
unfolding insert_entry
sorted_entries [] = []
sorted_entries (e ∷ d) = insert_entry e (sorted_entries d)

abbrev optional : String → Option String → Fields → Fields
optional key none fs = fs
optional key (some v) fs = field key (str v) fs

-- `to_dict`: the fields that are not `None`.
unfoldable pub to_dict : FailedItem → Fields
to_dict f = field "source_id" (str f.source_id) (
    field "name" (str f.name) (
      field "mime_type" (str f.mime_type) (
        field "reason" (str f.reason) (
          field "error_message" (str f.error_message) (
            field "timestamp" (str f.timestamp) (
              optional "parent_source_id" f.parent_source_id (
                optional "shortcut_target_id" f.shortcut_target_id (
                  optional "source_shortcut_id" f.source_shortcut_id
                    (optional "effective_source_id" f.effective_source_id end)))))))))

unfoldable pub failed_list : List FailedItem → Items
unfolding to_dict
failed_list [] = nil
failed_list (f ∷ l) = cons (obj (to_dict f)) (failed_list l)

unfoldable pub canonical_payload : ResumeState → Fields
unfolding sorted sorted_entries failed_list
canonical_payload s = field "schema_version" (nat current_schema_version) (
    field "account" (nullable s.account) (
      field "source_root_id" (nullable s.source_root_id) (
        field "dest_root_id" (nullable s.dest_root_id) (
          field "run_id" (nullable s.run_id) (
            field "copied_file_ids" (arr (texts (sorted s.copied_ids))) (
              field "folder_map" (obj (entries (sorted_entries s.folder_map))) (
                field "completed_folder_ids" (arr (texts (sorted s.completed_folders))) (
                  field "failed_items" (arr (failed_list s.failed_items)) (
                    field "copied_bytes" (nat s.copied_bytes) (
                      field "created_at" (str s.created_at)
                        (field "updated_at" (str s.updated_at) end)))))))))))

module _ (codec : Codec) where
  unfoldable pub compute_integrity : Fields → String
  compute_integrity payload =
      codec.sha256 (codec.dumps_canonical (obj (without "integrity" payload)))

  unfoldable pub serialize : ResumeState → String
  unfolding compute_integrity canonical_payload
  serialize s =
      let payload = canonical_payload s in
      codec.dumps (obj (append_field "integrity" (str (compute_integrity payload)) payload))

abbrev pub log_prefix : String
log_prefix = ".gdrive_copy_resume"

abbrev pub log_suffix : String
log_suffix = ".json"
