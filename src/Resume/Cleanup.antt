-- ===== src/Resume/Cleanup.antt =====
-- `cleanup`, `export_failed_report` and `_find_owned`: what the store does when a run has ended.
pub mod Laws
use text.Mathlib.Text.{starts_with}
use gdrive_turbo_copy.Prelude.{
  ℕ, zero, suc, String, Bool, true, false, not, ◌&&◌, ◌||◌, Option, none, some, List, [], ◌∷◌,
  length, is_set, or_else, option_eq, string_eq, ◌==◌, if◌then◌else◌, truthy,
}
use gdrive_turbo_copy.Prelude.Dict.{Dict, lookup}
use gdrive_turbo_copy.Models.DriveFile.{FileReply, tool_tag}
use gdrive_turbo_copy.Models.Records.{FailedItem, is_nonempty}
use gdrive_turbo_copy.Retry.Errors.{Exc, value_error}
use gdrive_turbo_copy.Retry.Loop.{Reply, reply, failed}
use gdrive_turbo_copy.Resume.Json.{Json, str, arr, obj, end, field, nat}
use gdrive_turbo_copy.Resume.Payload.{log_prefix, failed_list}
use gdrive_turbo_copy.Copier.Drive.{Drive, Page}
use gdrive_turbo_copy.Copier.Engine.{
  Engine, Outcome, done, raised, out_of_fuel, Action, pure, raise, call, attempt, continue, ◌>>=◌,
  ◌>>◌,
}

abbrev pub failed_report_name : String
failed_report_name = "failed_report.json"

-- `f.get("appProperties") or {}`
abbrev pub props_of : Option (Dict String) → Dict String
props_of none = []
props_of (some d) = d

unfoldable pub is_ours : FileReply → Bool
is_ours f = lookup "copied_by_tool" (props_of f.app_properties) == some tool_tag

-- What `cleanup` puts into the trash: the logs and the report of the tool.
unfoldable pub is_trash : FileReply → Bool
unfolding is_ours
is_trash f =
    let name = or_else f.name "" in
    is_ours f && (starts_with name log_prefix || name == failed_report_name)

module _ (drive : Drive) where
  abbrev pub Act : Type 0 → Type 0
  Act = Action drive.World

  -- A file that cannot go to the trash stays.
  abbrev pub trash_id : Option String → Act (Unit {0})
  trash_id none = pure tt
  trash_id (some id) = call (drive.trash_file id) >>= (λ answer. pure tt)

  unfoldable pub trash_page : List FileReply → Act (Unit {0})
  trash_page [] e = (done tt, e)
  trash_page (f ∷ files) e =
      if is_trash f then (trash_id f.id >> trash_page files) e else trash_page files e

  unfoldable pub cleanup_answer : (Option String → Act (Unit {0})) → Reply Page → Act (Unit {0})
  cleanup_answer rest (failed exc) e = (raised exc, e)
  cleanup_answer rest (reply (files, next)) e =
      continue (trash_page files e) (λ _ e'. if is_set next then rest next e' else (done tt, e'))

  unfoldable pub cleanup : ℕ → String → Option String → Act (Unit {0})
  cleanup zero parent token e = (out_of_fuel, e)
  cleanup (suc pages) parent token e =
      let p = drive.list_children parent [] token e.world in
      cleanup_answer (λ next. cleanup pages parent next) p.0 (record e { world = p.1 })

  -- The first file of that name that the tool made. One without an id raises.
  unfoldable pub first_owned : String → List FileReply → Option FileReply
  first_owned name [] = none
  first_owned name (f ∷ files) =
      if f.name == some name && is_ours f then some f else first_owned name files

  abbrev pub id_of : Option String → Act (Option String)
  id_of none = raise (value_error "'id'")
  id_of (some id) = pure (some id)

  abbrev pub or_next :
      (Option String → Act (Option String)) → Option String → Option FileReply → Act (Option String)
  or_next rest next (some f) e = id_of f.id e
  or_next rest next none e = if is_set next then rest next e else (done none, e)

  unfoldable pub owned_answer :
      (Option String → Act (Option String)) → String → Reply Page → Act (Option String)
  owned_answer rest name (failed exc) e = (raised exc, e)
  owned_answer rest name (reply (files, next)) e = or_next rest next (first_owned name files) e

  unfoldable pub find_owned : ℕ → String → String → Option String → Act (Option String)
  find_owned zero parent name token e = (out_of_fuel, e)
  find_owned (suc pages) parent name token e =
      let p = drive.list_children parent [] token e.world in
      owned_answer (λ next. find_owned pages parent name next) name p.0 (record e { world = p.1 })

  abbrev pub or_raise : {A : Type 0} → Reply A → Act (Unit {0})
  or_raise (reply a) = pure tt
  or_raise (failed exc) = raise exc

  unfoldable pub report_text : List FailedItem → String → String
  report_text items now = drive.codec.dumps_pretty (
      obj (
        field "generated_at" (str now) (
          field "total_failed" (nat (length items)) (field "items" (arr (failed_list items)) end))))

  abbrev pub write_report : String → String → Option String → Act (Unit {0})
  write_report parent text existing =
      if is_set existing
      then call (drive.update_file_content (or_else existing "") text) >>= or_raise
      else call (
          drive.create_json_file failed_report_name parent text (("copied_by_tool", tool_tag) ∷ []))
        >>= or_raise

  unfoldable pub export_failed_report : ℕ → String → List FailedItem → Act (Unit {0})
  export_failed_report pages parent items e =
      if not (is_nonempty items) || not (truthy parent)
      then (done tt, e)
      else (find_owned pages parent failed_report_name none
            >>= write_report parent (report_text items (drive.now e.world)))
          e
