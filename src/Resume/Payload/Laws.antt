-- ===== src/Resume/Payload/Laws.antt =====
-- The hash that a log carries is the hash of the log that carries it.
use gdrive_turbo_copy.Prelude.{
  ◌≡◌, ◌∙◌, refl, sym, ap, String, false, some, arith, string_eq, option_eq, ==_refl, is_some,
}
use gdrive_turbo_copy.Models.Records.{ResumeState}
use gdrive_turbo_copy.Resume.Json.{Json, str, obj, Fields, end, field, get, without, append_field}
use gdrive_turbo_copy.Resume.Payload.{Codec, canonical_payload, compute_integrity, serialize}

pub get-append_field :
    (k : String) (v : Json) (fs : Fields)
    → is_some (get k fs) ≡ false
    → get k (append_field k v fs) ≡ some v
unfolding get append_field
get-append_field k v end h = rw (==_refl k) refl
get-append_field k v (field j w fs) h = ground (arith, get-append_field k v fs)

without-append_field :
    (k : String) (v : Json) (fs : Fields)
    → is_some (get k fs) ≡ false
    → without k (append_field k v fs) ≡ fs
unfolding get without append_field
without-append_field k v end h = rw (==_refl k) refl
without-append_field k v (field j w fs) h = ground (arith, without-append_field k v fs)

without_absent : (k : String) (fs : Fields) → is_some (get k fs) ≡ false → without k fs ≡ fs
unfolding get without
without_absent k end h = refl
without_absent k (field j w fs) h = ground (arith, without_absent k fs)

pub no_integrity : (s : ResumeState) → is_some (get "integrity" (canonical_payload s)) ≡ false
unfolding canonical_payload get string_eq
no_integrity s = refl

module _ (codec : Codec) (s : ResumeState) where
  abbrev pub hash : String
  hash = compute_integrity codec (canonical_payload s)

  abbrev pub written : Fields
  written = append_field "integrity" (str hash) (canonical_payload s)

  pub compute_integrity-written : compute_integrity codec written ≡ hash
  unfolding compute_integrity
  compute_integrity-written =
      ap (λ fs. codec.sha256 (codec.dumps_canonical (obj fs)))
        (without-append_field "integrity" (str hash) (canonical_payload s) (no_integrity s)
          ∙ sym (without_absent "integrity" (canonical_payload s) (no_integrity s)))

  -- What `serialize` writes is an object whose "integrity" is the hash that `compute_integrity` gives
  -- for that object, so the comparison that a reader makes succeeds on a log that is unchanged.
  pub serialize_lem :
      (fields : Fields) × (serialize codec s ≡ codec.dumps (obj fields))
      × (get "integrity" fields ≡ some (str (compute_integrity codec fields)))
  unfolding serialize
  serialize_lem = (
    written,
    refl,
    get-append_field "integrity" (str hash) (canonical_payload s) (no_integrity s)
        ∙ ap (λ h. some (str h)) (sym compute_integrity-written),
  )
