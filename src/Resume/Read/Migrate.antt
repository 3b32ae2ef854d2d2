-- ===== src/Resume/Read/Migrate.antt =====
-- What `migrate` makes of an old log: which keys it adds, with which values.
mod Steps
pub mod Carried
use gdrive_turbo_copy.Resume.Read.Migrate.Carried.{
  or_no_items, has-Extends, has-put_new, taken, get-from_v1, v2-uncounted, get-from_v2,
  from_v2-roots,
}
use gdrive_turbo_copy.Prelude.{
  ℕ, ◌≡◌, ◌∙◌, refl, sym, ap, subst, String, Bool, true, false, Option, none, some, arith,
  string_eq, ◌==◌, ==_refl, is_some, Bool-cases, inl, inr, if◌then◌else◌, ltb,
}
use mathlib.Core.Option.{some-injective}
use mathlib.Core.Bool.{false≢true}
use gdrive_turbo_copy.Models.Records.{current_schema_version}
use gdrive_turbo_copy.Resume.Json.{Json, null, arr, nil, Fields, end, field, nat, get}
use gdrive_turbo_copy.Resume.Read.{
  ◌>>=◌, has, put, put_new, version_of, bytes_of_mb, from_v1, from_v2, when_older, migrate,
}
use gdrive_turbo_copy.Resume.Read.Migrate.Steps.{
  Extends, get-put, get-append, Extends-put, Extends-put_new, Extends-refl, Extends-trans,
  bind-some, Keeping, when_older-Keeping, Extends-from_v1, with_roots, Extends-with_roots,
  from_v2-Keeping, total-Keeping, same_some,
}

-- What a log of the given version has become.
pub record Migrated (version : ℕ) (raw out : Fields) : Type 0 where
  pub current : get "schema_version" out ≡ some (nat current_schema_version)
  -- each value under another key is there still
  pub kept :
      (k : String) (v : Json)
      → (k == "schema_version") ≡ false
      → get k raw ≡ some v
      → get k out ≡ some v
  -- version 1 names the copied files by another key
  pub ids :
      ltb version 2 ≡ true
      → has "copied_file_ids" raw ≡ false
      → get "copied_file_ids" out ≡ some (or_no_items (get "copied_ids" raw))
  -- versions 1 and 2 count megabytes
  pub bytes :
      (n : ℕ)
      → ltb version 3 ≡ true
      → has "copied_bytes" raw ≡ false
      → bytes_of_mb (get "lifetime_size_mb" raw) ≡ some n
      → get "copied_bytes" out ≡ some (nat n)
  pub roots :
      ltb version 3 ≡ true
      → (has "source_root_id" out ≡ true)
        × (has "dest_root_id" out ≡ true)
        × (has "run_id" out ≡ true)
  pub folders : ltb version 4 ≡ true → has "completed_folder_ids" out ≡ true

-- What the steps have made of a log, before its version is entered.
record Stepped (version : ℕ) (raw v4 : Fields) : Type 0 where
  kept : Extends raw v4
  ids :
      ltb version 2 ≡ true
      → has "copied_file_ids" raw ≡ false
      → get "copied_file_ids" v4 ≡ some (or_no_items (get "copied_ids" raw))
  bytes :
      (n : ℕ)
      → ltb version 3 ≡ true
      → has "copied_bytes" raw ≡ false
      → bytes_of_mb (get "lifetime_size_mb" raw) ≡ some n
      → get "copied_bytes" v4 ≡ some (nat n)
  roots :
      ltb version 3 ≡ true
      → (has "source_root_id" v4 ≡ true) × (has "dest_root_id" v4 ≡ true) × (has "run_id" v4 ≡ true)
  folders : ltb version 4 ≡ true → has "completed_folder_ids" v4 ≡ true

abbrev stamp : Fields → Fields
stamp fs = put "schema_version" (nat current_schema_version) fs

-- The version goes under its own key.
get-stamp :
    (k : String) (fs : Fields) → (k == "schema_version") ≡ false → get k (stamp fs) ≡ get k fs
get-stamp k fs other = get-put k "schema_version" (nat current_schema_version) fs ∙ rw other refl

Stepped-Migrated :
    (version : ℕ) (raw v4 : Fields) → Stepped version raw v4 → Migrated version raw (stamp v4)
unfolding string_eq
Stepped-Migrated version raw v4 s = record {
  current = get-put "schema_version" "schema_version" (nat current_schema_version) v4;
  kept = λ k v other there. get-stamp k v4 other ∙ s.kept k v there;
  ids = λ old absent. get-stamp "copied_file_ids" v4 refl ∙ s.ids old absent;
  bytes = λ n old absent counted. get-stamp "copied_bytes" v4 refl ∙ s.bytes n old absent counted;
  roots = λ old.
      let (source, dest, run) = s.roots old in
      (
        ap is_some (get-stamp "source_root_id" v4 refl) ∙ source,
        ap is_some (get-stamp "dest_root_id" v4 refl) ∙ dest,
        ap is_some (get-stamp "run_id" v4 refl) ∙ run,
      );
  folders = λ old. ap is_some (get-stamp "completed_folder_ids" v4 refl) ∙ s.folders old;
}

abbrev with_folders : Fields → Fields
with_folders fs = put_new "completed_folder_ids" (arr nil) fs

module _ (version : ℕ) (raw v2 v3 v4 : Fields)
    (first : when_older version 2 (λ fs. some (from_v1 raw fs)) raw ≡ some v2)
    (second : when_older version 3 (from_v2 raw) v2 ≡ some v3)
    (third : when_older version 4 (λ fs. some (with_folders fs)) v3 ≡ some v4) where
  v2-v3 : Extends v2 v3
  v2-v3 = when_older-Keeping version 3 (from_v2 raw) (from_v2-Keeping raw) v2 v3 second

  v3-v4 : Extends v3 v4
  v3-v4 =
      when_older-Keeping version 4 _
        (total-Keeping with_folders (Extends-put_new "completed_folder_ids" (arr nil))) v3 v4 third

  raw-v2 : Extends raw v2
  raw-v2 =
      when_older-Keeping version 2 _ (total-Keeping (from_v1 raw) (Extends-from_v1 raw)) raw v2
        first

  steps-Stepped : Stepped version raw v4
  steps-Stepped = record {
    kept = Extends-trans raw v2 v4 raw-v2 (Extends-trans v2 v3 v4 v2-v3 v3-v4);
    ids = λ old absent.
        let carried = or_no_items (get "copied_ids" raw) in
        Extends-trans v2 v3 v4 v2-v3 v3-v4 "copied_file_ids" carried (
          same_some (from_v1 raw raw) v2
            (taken version 2 (λ fs. some (from_v1 raw fs)) raw v2 old first) "copied_file_ids"
            carried (get-from_v1 raw absent));
    bytes = λ n old absent counted. v3-v4 "copied_bytes" (nat n) (
        get-from_v2 raw v2 v3 n (v2-uncounted version raw v2 first absent) counted
          (taken version 3 (from_v2 raw) v2 v3 old second));
    roots = λ old.
        let (source, dest, run) =
          from_v2-roots raw v2 v3 (taken version 3 (from_v2 raw) v2 v3 old second) in
        (
          has-Extends "source_root_id" v3 v4 v3-v4 source,
          has-Extends "dest_root_id" v3 v4 v3-v4 dest,
          has-Extends "run_id" v3 v4 v3-v4 run,
        );
    folders = λ old.
        has-Extends "completed_folder_ids" (with_folders v3) v4
          (same_some (with_folders v3) v4
            (taken version 4 (λ fs. some (with_folders fs)) v3 v4 old third))
          (has-put_new "completed_folder_ids" (arr nil) v3);
  }

-- A log that `migrate` accepts has a version, and is brought to the present one: each value that it
-- has under another key than the version's is there afterwards. Where the copied files of a log below
-- version 2 have no entry under the present key, they are those under the old one, or none; where the
-- copied bytes of a log below version 3 are not counted, they are counted from its megabytes; below
-- version 3 the keys of the roots and of the run are there afterwards, and below version 4 that of the
-- finished folders.
pub migrate_lem :
    (raw out : Fields)
    → migrate raw ≡ some out
    → (version : ℕ) × (version_of raw ≡ some version) × Migrated version raw out
unfolding migrate
migrate_lem raw out h =
    let (version, told, h1) = bind-some (version_of raw) _ out h in
    let (v2, first, h2) =
      bind-some (when_older version 2 (λ fs. some (from_v1 raw fs)) raw) _ out h1 in
    let (v3, second, h3) = bind-some (when_older version 3 (from_v2 raw) v2) _ out h2 in
    let (v4, third, h4) =
      bind-some (when_older version 4 (λ fs. some (with_folders fs)) v3) _ out h3 in
    (
      version,
      told,
      subst (Migrated version raw) (some-injective (stamp v4) out h4)
          (Stepped-Migrated version raw v4 (steps-Stepped version raw v2 v3 v4 first second third)),
    )
