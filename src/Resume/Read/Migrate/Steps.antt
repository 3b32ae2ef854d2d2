-- ===== src/Resume/Read/Migrate/Steps.antt =====
-- The steps of `migrate` keep each value that a log has.
use gdrive_turbo_copy.Prelude.{
  ℕ, ◌≡◌, ◌∙◌, refl, sym, ap, subst, String, false, Option, none, some, arith, string_eq, ◌==◌,
  eq_of_==, is_some, Bool-cases, inl, inr, if◌then◌else◌, ltb,
}
use mathlib.Core.Option.{some-injective, none-ne-some}
use mathlib.Core.Bool.{false≢true}
use gdrive_turbo_copy.Resume.Json.{Json, null, Fields, end, field, nat, get, append_field}
use gdrive_turbo_copy.Resume.Read.{
  ◌>>=◌, has, put, put_new, bytes_of_mb, from_v1, from_v2, when_older,
}

pub get-put :
    (k key : String) (v : Json) (fs : Fields)
    → get k (put key v fs) ≡ (if k == key then some v else get k fs)
unfolding get put
get-put k key v end = refl
get-put k key v (field j w fs) = ground (arith, get-put k key v fs)

pub get-append :
    (k key : String) (v : Json) (fs : Fields)
    → get k (append_field key v fs)
      ≡ (if is_some (get k fs) then get k fs else if k == key then some v else none)
unfolding get append_field
get-append k key v end = refl
get-append k key v (field j w fs) = ground (arith, get-append k key v fs)

-- Each value that is there stays.
abbrev pub Extends : Fields → Fields → Type 0
Extends old new = (k : String) (v : Json) → get k old ≡ some v → get k new ≡ some v

pub Extends-put :
    (key : String) (v : Json) (fs : Fields) → has key fs ≡ false → Extends fs (put key v fs)
Extends-put key v fs absent k w h = elim (Bool-cases (k == key)) [
  | inl same ↦
      let there = subst (λ x. get x fs ≡ some w) (eq_of_== k key same) h in
      absurd (false≢true (sym absent ∙ ap is_some there))
  | inr other ↦ get-put k key v fs ∙ rw other h
]

pub Extends-put_new : (key : String) (v : Json) (fs : Fields) → Extends fs (put_new key v fs)
unfolding put_new
Extends-put_new key v fs k w h = elim (Bool-cases (has key fs)) [
  | inl there ↦ rw there h
  | inr absent ↦ rw absent (get-append k key v fs ∙ rw h refl)
]

pub Extends-refl : (fs : Fields) → Extends fs fs
Extends-refl fs k v h = h

pub Extends-trans : (a b c : Fields) → Extends a b → Extends b c → Extends a c
Extends-trans a b c f g k v h = g k v (f k v h)

pub bind-some :
    {A B : Type 0} (m : Option A) (f : A → Option B) (b : B)
    → (m >>= f) ≡ some b
    → (a : A) × (m ≡ some a) × (f a ≡ some b)
bind-some none f b h = absurd (none-ne-some b h)
bind-some (some a) f b h = (a, refl, h)

-- A step that keeps each value that is there.
abbrev pub Keeping : (Fields → Option Fields) → Type 0
Keeping step = (fs out : Fields) → step fs ≡ some out → Extends fs out

pub same_some : (a b : Fields) → some a ≡ some b → Extends a b
same_some a b h = subst (λ x. Extends a x) (some-injective a b h) (Extends-refl a)

pub when_older-Keeping :
    (version limit : ℕ) (step : Fields → Option Fields)
    → Keeping step
    → Keeping (when_older version limit step)
when_older-Keeping version limit step k fs out h = elim (Bool-cases (ltb version limit)) [
  | inl old ↦ k fs out (sym (rw old refl) ∙ h)
  | inr new ↦ same_some fs out (sym (rw new refl) ∙ h)
]

pub Extends-from_v1 : (raw fs : Fields) → Extends fs (from_v1 raw fs)
unfolding from_v1
Extends-from_v1 raw fs = elim (Bool-cases (has "copied_file_ids" fs)) [
  | inl there ↦ rw there (Extends-refl fs)
  | inr absent ↦ rw absent (Extends-put "copied_file_ids" _ fs absent)
]

pub counted-Keeping :
    (o : Option ℕ)
    → Keeping (λ fs.
      if has "copied_bytes" fs
      then some fs
      else (o >>= (λ n. some (put "copied_bytes" (nat n) fs))))
counted-Keeping o fs out h = elim (Bool-cases (has "copied_bytes" fs)) [
  | inl there ↦ same_some fs out (sym (rw there refl) ∙ h)
  | inr absent ↦
      let (n, _, e) =
        bind-some o (λ n. some (put "copied_bytes" (nat n) fs)) out (sym (rw absent refl) ∙ h) in
      Extends-trans fs (put "copied_bytes" (nat n) fs) out
        (Extends-put "copied_bytes" (nat n) fs absent) (same_some _ out e)
]

-- The three keys without a value that version 3 has.
abbrev pub with_roots : Fields → Fields
with_roots fs =
    put_new "run_id" null (put_new "dest_root_id" null (put_new "source_root_id" null fs))

pub Extends-with_roots : (fs : Fields) → Extends fs (with_roots fs)
Extends-with_roots fs =
    Extends-trans fs (put_new "source_root_id" null fs) _ (Extends-put_new "source_root_id" null fs)
      (Extends-trans _ (put_new "dest_root_id" null (put_new "source_root_id" null fs)) _
        (Extends-put_new "dest_root_id" null _) (Extends-put_new "run_id" null _))

pub from_v2-Keeping : (raw : Fields) → Keeping (from_v2 raw)
unfolding from_v2
from_v2-Keeping raw fs out h =
    let (c, e, e') = bind-some _ (λ counted. some (with_roots counted)) out h in
    Extends-trans fs c out (counted-Keeping (bytes_of_mb (get "lifetime_size_mb" raw)) fs c e)
      (Extends-trans c (with_roots c) out (Extends-with_roots c) (same_some _ out e'))

pub total-Keeping :
    (step : Fields → Fields)
    → ((fs : Fields) → Extends fs (step fs))
    → Keeping (λ fs. some (step fs))
total-Keeping step k fs out h = Extends-trans fs (step fs) out (k fs) (same_some (step fs) out h)
