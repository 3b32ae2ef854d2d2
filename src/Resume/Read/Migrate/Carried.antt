-- ===== src/Resume/Read/Migrate/Carried.antt =====
-- What the steps of `migrate` add to a log.
use gdrive_turbo_copy.Prelude.{
  ℕ, ◌≡◌, ◌∙◌, refl, sym, ap, subst, String, true, false, Option, none, some, string_eq, ==_refl,
  is_some, Bool-cases, inl, inr, ltb,
}
use mathlib.Core.Option.{some-injective}
use mathlib.Core.Bool.{false≢true}
use gdrive_turbo_copy.Resume.Json.{Json, null, arr, nil, Fields, nat, get}
use gdrive_turbo_copy.Resume.Read.{
  ◌>>=◌, has, put, put_new, bytes_of_mb, from_v1, from_v2, when_older,
}
use gdrive_turbo_copy.Resume.Read.Migrate.Steps.{
  Extends, get-put, get-append, Extends-put_new, Extends-trans, bind-some, with_roots,
  Extends-with_roots, same_some,
}

-- `raw.get(key, [])`
abbrev pub or_no_items : Option Json → Json
or_no_items none = arr nil
or_no_items (some v) = v

pub has-Extends : (k : String) (a b : Fields) → Extends a b → has k a ≡ true → has k b ≡ true
has-Extends k a b x h = by_value (get k a) refl h
  where
    by_value : (o : Option Json) → get k a ≡ o → is_some o ≡ true → has k b ≡ true
    by_value none q there = absurd (false≢true there)
    by_value (some v) q there = ap is_some (x k v q)

pub has-put_new : (key : String) (v : Json) (fs : Fields) → has key (put_new key v fs) ≡ true
unfolding put_new
has-put_new key v fs = elim (Bool-cases (has key fs)) [
  | inl there ↦ rw there there
  | inr absent ↦
      rw absent (ap is_some (get-append key key v fs) ∙ rw (absent, ==_refl {A = String} key) refl)
]

-- A step that is taken.
pub taken :
    (version limit : ℕ) (step : Fields → Option Fields) (fs out : Fields)
    → ltb version limit ≡ true
    → when_older version limit step fs ≡ some out
    → step fs ≡ some out
taken version limit step fs out old h = sym (rw old refl) ∙ h

pub get-from_v1 :
    (raw : Fields)
    → has "copied_file_ids" raw ≡ false
    → get "copied_file_ids" (from_v1 raw raw) ≡ some (or_no_items (get "copied_ids" raw))
unfolding from_v1
get-from_v1 raw absent = rw absent (
    get-put "copied_file_ids" "copied_file_ids" _ raw
    ∙ rw (==_refl {A = String} "copied_file_ids") (by_value (get "copied_ids" raw)))
  where
    by_value :
        (o : Option Json)
        → some (elim o as (λ x. Json) [ none ↦ arr nil | some v ↦ v ]) ≡ some (or_no_items o)
    by_value none = refl
    by_value (some v) = refl

-- The step for version 2 does not look at what the step for version 1 has added.
pub v2-uncounted :
    (version : ℕ) (raw v2 : Fields)
    → when_older version 2 (λ fs. some (from_v1 raw fs)) raw ≡ some v2
    → has "copied_bytes" raw ≡ false
    → has "copied_bytes" v2 ≡ false
unfolding from_v1 string_eq
v2-uncounted version raw v2 h absent = elim (Bool-cases (ltb version 2)) [
  | inr new ↦
      subst (λ x. has "copied_bytes" x ≡ false) (some-injective raw v2 (sym (rw new refl) ∙ h))
        absent
  | inl old ↦
      subst (λ x. has "copied_bytes" x ≡ false)
        (some-injective (from_v1 raw raw) v2 (sym (rw old refl) ∙ h))
        (elim (Bool-cases (has "copied_file_ids" raw)) [
          | inl there ↦ rw there absent
          | inr fresh ↦
              rw fresh (ap is_some (get-put "copied_bytes" "copied_file_ids" _ raw) ∙ absent)
        ])
]

pub get-from_v2 :
    (raw fs out : Fields) (n : ℕ)
    → has "copied_bytes" fs ≡ false
    → bytes_of_mb (get "lifetime_size_mb" raw) ≡ some n
    → from_v2 raw fs ≡ some out
    → get "copied_bytes" out ≡ some (nat n)
unfolding from_v2
get-from_v2 raw fs out n absent counted h =
    let c = put "copied_bytes" (nat n) fs in
    let same : some (with_roots c) ≡ some out = sym (rw (absent, counted, ◌>>=◌) refl) ∙ h in
    same_some (with_roots c) out same "copied_bytes" (nat n) (
      Extends-with_roots c "copied_bytes" (nat n) (
        get-put "copied_bytes" "copied_bytes" (nat n) fs
        ∙ rw (==_refl {A = String} "copied_bytes") refl))

pub from_v2-roots :
    (raw fs out : Fields)
    → from_v2 raw fs ≡ some out
    → (has "source_root_id" out ≡ true)
      × (has "dest_root_id" out ≡ true)
      × (has "run_id" out ≡ true)
unfolding from_v2
from_v2-roots raw fs out h =
    let (c, _, e) = bind-some _ (λ counted. some (with_roots counted)) out h in
    let one = put_new "source_root_id" null c in
    let two = put_new "dest_root_id" null one in
    let last = same_some (with_roots c) out e in
    let later = Extends-put_new "run_id" null two in
    (
      has-Extends "source_root_id" one out
          (Extends-trans one two out (Extends-put_new "dest_root_id" null one)
            (Extends-trans two (with_roots c) out later last))
          (has-put_new "source_root_id" null c),
      has-Extends "dest_root_id" two out (Extends-trans two (with_roots c) out later last)
          (has-put_new "dest_root_id" null one),
      has-Extends "run_id" (with_roots c) out last (has-put_new "run_id" null two),
    )
