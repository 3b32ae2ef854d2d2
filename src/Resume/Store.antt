-- ===== src/Resume/Store.antt =====
-- `ResumeStore`: writing the log. The store's own fields stand in the engine's state.
use Prim.Native.Char.{code}
use gdrive_turbo_copy.Urls.{is_id_code}
use gdrive_turbo_copy.Prelude.{
  ◌||◌, eqb, String, ◌<>◌, Option, [], ◌∷◌, or_else, is_set, string_eq, if◌then◌else◌,
}
use gdrive_turbo_copy.Models.DriveFile.{tool_tag}
use gdrive_turbo_copy.Retry.Loop.{Reply, reply, failed}
use gdrive_turbo_copy.Resume.Payload.{serialize, log_prefix, log_suffix}
use gdrive_turbo_copy.Copier.Drive.{Drive}
use gdrive_turbo_copy.Copier.Engine.{Engine}

-- `re.sub(r"[^A-Za-z0-9._-]", "_", text)`
unfoldable pub safe_text : String → String
safe_text String.[] = ""
safe_text (String.◌∷◌ c s) =
    let rest = safe_text s in
    if is_id_code (code c) || eqb (code c) 46 then String.◌∷◌ c rest else "_" <> rest

module _ (drive : Drive) where
  unfoldable pub log_name_for : Option String → String
  log_name_for account =
      if is_set account
      then log_prefix <> "." <> safe_text (or_else account "") <> log_suffix
      else log_prefix <> log_suffix

  -- `state.updated_at = now_iso()`
  abbrev pub touch : Engine drive.World → Engine drive.World
  touch e = record e { resume_state = record (e.resume_state) { updated_at = drive.now e.world } }

  abbrev pub update_log :
      String → String → Engine drive.World → Reply (Unit {0}) × Engine drive.World
  update_log id text e =
      let (r, w) = drive.update_file_content id text e.world in (r, record e { world = w })

  -- The id is recorded only once the call has been answered.
  abbrev pub created_log :
      Reply (Option String) → Engine drive.World → Reply (Unit {0}) × Engine drive.World
  created_log (reply id) e = (reply tt, record e { own_log_file_id = id })
  created_log (failed x) e = (failed x, e)

  abbrev pub create_log : String → Engine drive.World → Reply (Unit {0}) × Engine drive.World
  create_log text e =
      let (r, w) =
        drive.create_json_file (or_else e.own_log_name (log_name_for e.resume_state.account))
          (or_else e.resume_state.dest_root_id "") text (("copied_by_tool", tool_tag) ∷ [])
          e.world in
      created_log r (record e { world = w })

  abbrev pub write_log : Engine drive.World → Reply (Unit {0}) × Engine drive.World
  write_log e =
      let text = serialize drive.codec e.resume_state in
      if is_set e.own_log_file_id
      then update_log (or_else e.own_log_file_id "") text e
      else create_log text e

  unfoldable pub save : Engine drive.World → Reply (Unit {0}) × Engine drive.World
  save e = write_log (touch e)
