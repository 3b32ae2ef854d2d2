-- ===== src/Tests/Whole.antt =====
-- The theorems on the resume log and on whole runs, applied.
use gdrive_turbo_copy.Prelude.{
  arith, String, List, [], ◌∷◌, string_eq, ◌==◌, ◌+◌, if◌then◌else◌, ℕ, ◌≡◌, refl, true, false,
  none, some, option_eq,
}
use gdrive_turbo_copy.Prelude.Int.{pos}
use gdrive_turbo_copy.Prelude.Dict.{lookup}
use gdrive_turbo_copy.Urls.{extract_folder_id}
use gdrive_turbo_copy.Urls.Laws.{extract_folder_id_bare}
use gdrive_turbo_copy.Models.DriveFile.{FileReply, tool_tag}
use gdrive_turbo_copy.Models.Config.{CopyConfig}
use gdrive_turbo_copy.Models.Records.{ResumeState, new_state}
use gdrive_turbo_copy.Retry.Loop.{reply}
use gdrive_turbo_copy.Resume.Json.{
  Fields, field, end, nat, arr, cons, nil, str, null, get, append_field, obj,
}
use gdrive_turbo_copy.Resume.Payload.{Codec, serialize, compute_integrity}
use gdrive_turbo_copy.Resume.Payload.Laws.{written}
use gdrive_turbo_copy.Resume.Read.Migrate.{Migrated, migrate_lem}
use gdrive_turbo_copy.Resume.Read.{
  migrate, version_of, read_number, from_v1, from_v2, bytes_of_mb, put, put_new, ok, deserialize,
}
use gdrive_turbo_copy.Resume.Read.Laws.{Same, again, deserialize-written, deserialize-serialize}
use gdrive_turbo_copy.Resume.Load.{absorb, absorb_answer, read_log, absorbed}
use gdrive_turbo_copy.Resume.Load.Laws.{Absorbed, absorb_lem}
use gdrive_turbo_copy.Resume.Cleanup.{cleanup, cleanup_answer, trash_page, is_trash, is_ours}
use gdrive_turbo_copy.Resume.Cleanup.Laws.{Tidied, cleanup-Tidied}
use gdrive_turbo_copy.Copier.Drive.{Drive}
use gdrive_turbo_copy.Copier.Engine.{Engine, Outcome, done}
use gdrive_turbo_copy.Copier.Book.Frame.{books}
use gdrive_turbo_copy.Copier.Files.Effect.Budget.{InBudget}
use gdrive_turbo_copy.Copier.Levels.{process_level}
use gdrive_turbo_copy.Copier.Moves.Laws.{Untouched, Dry}
use gdrive_turbo_copy.Copier.Run.Climb.{Found, is_descendant_of-Found}
use gdrive_turbo_copy.Copier.Run.{is_descendant_of, run, explain}
use gdrive_turbo_copy.Copier.Moves.{Moves}
use gdrive_turbo_copy.Copier.Run.Moving.{Moving-run}
use gdrive_turbo_copy.Copier.Run.Laws.{
  run-InBudget, run-Dry, process_level-stopped, run-invalid, run-same,
}
use gdrive_turbo_copy.Tests.{faithful, config, rehearsal, fresh, src, copied, fresh-InBudget}
use gdrive_turbo_copy.Tests.Pure.{bare, bare-IsIdText, bare_long}

abbrev written_state : ResumeState
written_state = record (new_state (some "me@example.org") (some "root") (some "run") "2024-01-01") {
  copied_ids = "b" ∷ "a" ∷ [];
  folder_map = ("f", "g") ∷ [];
}

-- A codec with one text, which stands for the log of that state.
abbrev one_text : Codec
one_text = record (faithful.codec) {
  loads = λ s. some (obj (written faithful.codec written_state));
}

deserialize-serialize_example :
    (t : ResumeState) × (deserialize one_text "2024-01-02" (serialize one_text written_state)
      ≡ ok t)
    × Same written_state t
unfolding compute_integrity string_eq
deserialize-serialize_example =
    deserialize-serialize one_text "2024-01-02" written_state refl refl refl

-- A Drive that counts what is written to it.
abbrev counting : Drive
counting = record faithful {
  list_children = λ parent exclude token w. (reply ([], none), w);
  get_metadata = λ id w. (reply copied, w);
  about_user = λ w. (reply (some "me@example.org"), w);
  trash_file = λ id w. (reply tt, w);
  get_media = λ id w. (reply (serialize one_text written_state), w);
  codec = one_text;
}

run-InBudget_example : InBudget config (books (run faithful config 5 5 fresh).1)
run-InBudget_example = run-InBudget faithful config 5 5 fresh fresh-InBudget

run-Dry_example : Dry faithful rehearsal (books fresh) (books (run faithful rehearsal 5 5 fresh).1)
run-Dry_example = run-Dry faithful rehearsal 5 5 fresh refl

abbrev halted : Engine ℕ
halted = record fresh { stop = true }

abbrev after_walk : Outcome (Unit {0}) × Engine ℕ
after_walk = process_level faithful config 5 5 (some "root") (src ∷ []) [] "p" halted

process_level-stopped_example :
    (after_walk.1.stop ≡ true) × Untouched (books halted) (books after_walk.1)
process_level-stopped_example =
    process_level-stopped faithful config 5 5 (some "root") (src ∷ []) [] "p" halted refl

abbrev no_workers : CopyConfig
no_workers = record config { workers = pos 0 }

run-invalid_example :
    (reason : String) × (run faithful no_workers 5 5 fresh
      ≡ (done (record (fresh.result) { stop_reason = some reason }), explain reason fresh))
run-invalid_example = run-invalid faithful no_workers 5 5 fresh (λ v. omega (arith, v.some_worker))

abbrev onto_itself : CopyConfig
onto_itself = record config { source_link = bare; dest_link = bare }

abbrev bare_id : extract_folder_id bare ≡ some bare
bare_id = extract_folder_id_bare bare bare-IsIdText bare_long

run-same_example : (run counting onto_itself 5 5 fresh).1.world ≡ 0
run-same_example =
    run-same counting onto_itself 5 5 (λ w. w ≡ 0) (λ w h. h) (λ id w h. h) bare fresh bare_id
      bare_id refl

abbrev log_file : FileReply
log_file = record copied { id = some "l1"; name = some ".gdrive_copy_resume.json" }

-- A Drive with a log of the tool and a file of the user, which counts what goes to the trash.
abbrev littered : Drive
littered = record counting {
  list_children = λ parent exclude token w. (
    reply (
      (record log_file { app_properties = some (("copied_by_tool", tool_tag) ∷ []) }) ∷ copied ∷ [],
      none,
    ),
    w,
  );
  trash_file = λ id w. (reply tt, w + 1);
}

after_cleanup : cleanup littered 3 "root" none fresh ≡ (done tt, record fresh { world = 1 })
unfolding cleanup cleanup_answer trash_page is_trash is_ours lookup string_eq option_eq
after_cleanup = refl

cleanup-Tidied_example :
    let out = cleanup littered 3 "root" none fresh in
    Tidied littered "root" 3 none 0 out.0 out.1.world
cleanup-Tidied_example = cleanup-Tidied littered 3 "root" none fresh

abbrev merged : ResumeState
merged = new_state none (some "root") none "2024-01-02"

abbrev after_absorb : Outcome ResumeState × Engine ℕ
after_absorb = absorb counting false (log_file ∷ []) merged fresh

-- The state of the log, as it is read back, is put into the merged one.
abbrev absorbed_state : ResumeState
absorbed_state = absorbed counting log_file fresh merged (again written_state)

loads_log :
    one_text.loads (serialize one_text written_state) ≡ some (obj (written one_text written_state))
unfolding compute_integrity
loads_log = refl

after_absorb_done : after_absorb ≡ (done absorbed_state, fresh)
unfolding absorb absorb_answer read_log string_eq option_eq
after_absorb_done =
    rw (deserialize-written one_text "2024-01-01T00:00:00Z" written_state loads_log refl refl) refl

absorb_example : Absorbed counting (log_file ∷ []) fresh.world merged absorbed_state fresh.world
absorb_example =
    absorb_lem counting (log_file ∷ []) merged absorbed_state fresh fresh after_absorb_done

Moving-run_example : Moves faithful config (books fresh) (books (run faithful config 5 5 fresh).1)
Moving-run_example = (Moving-run faithful config 5 5).at fresh

-- A Drive where "child" lies in "middle", which lies in "top".
abbrev parents_in : String → List String
parents_in id = if id == "child" then "middle" ∷ [] else if id == "middle" then "top" ∷ [] else []

abbrev nested : Drive
nested = record faithful {
  get_metadata = λ id w. (reply (record copied { parents = some (parents_in id) }), w + 1);
}

is_descendant_of_example :
    Found parents_in "child" "top" nested
      (λ id w. refl)
      (is_descendant_of nested "child" "top" fresh)
unfolding string_eq
is_descendant_of_example =
    is_descendant_of-Found parents_in "child" "top" nested (λ id w. refl) fresh refl refl

-- A log of the first version.
abbrev old_log : Fields
old_log = field "version" (nat 1) (field "copied_ids" (arr (cons (str "a") nil)) end)

abbrev migrated_log : Fields
migrated_log = field "version" (nat 1) (
    field "copied_ids" (arr (cons (str "a") nil)) (
      field "copied_file_ids" (arr (cons (str "a") nil)) (
        field "copied_bytes" (nat 0) (
          field "source_root_id" null (
            field "dest_root_id" null (
              field "run_id" null
                (field "completed_folder_ids" (arr nil) (field "schema_version" (nat 4) end))))))))

old_log_migrated : migrate old_log ≡ some migrated_log
unfolding migrate version_of read_number from_v1 from_v2 bytes_of_mb put put_new get append_field
    string_eq
old_log_migrated = refl

migrate_example :
    (version : ℕ) × (version_of old_log ≡ some version) × Migrated version old_log migrated_log
migrate_example = migrate_lem old_log migrated_log old_log_migrated
