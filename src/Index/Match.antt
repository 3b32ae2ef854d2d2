-- ===== src/Index/Match.antt =====
-- What `pop_match` may return: what each verify mode accepts, and what a pop by key gives.
use gdrive_turbo_copy.Prelude.{
  ◌≡◌, ◌⊎◌, ◌∙◌, refl, sym, ap, String, Bool, true, false, Option, none, some, List, [], ◌∷◌,
  All-find, find, find-eq_some, arith, truthy, is_set, is_some, eq_of_==, string_eq, option_eq,
  number_eq, Bool-cases, inl, inr, if◌then◌else◌,
}
use gdrive_turbo_copy.Prelude.Dict.{lookup, All-lookup}
use gdrive_turbo_copy.Models.DriveFile.{DriveFile}
use gdrive_turbo_copy.Models.Config.{VerifyMode, checksum, name_size, name_only}
use gdrive_turbo_copy.Index.{
  Item, DestinationIndex, key_of, bucket, pop_item, pop_by_app_prop, choose, same_size, same_md5,
  or_find, Popped, take_match, or_by_name, pop_match,
}
use mathlib.Core.Option.{none-ne-some, some-ne-none}
use gdrive_turbo_copy.Index.Laws.{WellFormed, pop_by_app_prop-WellFormed, IsKeyed}

abbrev pub SameMd5 : DriveFile → Item → Type 0
SameMd5 source item = (is_set source.md5 ≡ true) × (source.md5 ≡ item.file.md5)

abbrev pub SameSize : DriveFile → Item → Type 0
SameSize source item = (is_some source.size ≡ true) × (source.size ≡ item.file.size)

-- What each mode asks of a file of the source's name.
abbrev pub Accepts : VerifyMode → Bool → DriveFile → Item → Type 0
Accepts checksum allow source item = SameMd5 source item
Accepts name_size allow source item = SameMd5 source item ⊎ SameSize source item
Accepts name_only allow source item = allow ≡ true

same_md5-SameMd5 :
    (source : DriveFile) (item : Item) → same_md5 source item ≡ true → SameMd5 source item
same_md5-SameMd5 source item h = ground (arith, eq_of_== source.md5 item.file.md5)

same_size-SameSize :
    (source : DriveFile) (item : Item) → same_size source item ≡ true → SameSize source item
same_size-SameSize source item h = ground (arith, eq_of_== source.size item.file.size)

-- A search of the candidates that ended at `x`, for a test that implies what the mode asks.
abbrev Found : VerifyMode → Bool → DriveFile → List Item → Item → Type 0
Found mode allow source items x =
    (p : Item → Bool) × (find p items ≡ some x) × Accepts mode allow source x

by_md5_or_size :
    (source : DriveFile) (allow : Bool) (items : List Item) (x : Item) (o : Option Item)
    → find (same_md5 source) items ≡ o
    → or_find o (if is_some source.size then find (same_size source) items else none) ≡ some x
    → Found name_size allow source items x
by_md5_or_size source allow items x (some y) e k =
    let found = e ∙ k in
    (
      same_md5 source,
      found,
      inl (same_md5-SameMd5 source x (find-eq_some (same_md5 source) items x found)),
    )
by_md5_or_size source allow items x none e k = elim (Bool-cases (is_some source.size)) [
  | inl known ↦
      let found : find (same_size source) items ≡ some x = rw known at k in
      (
        same_size source,
        found,
        inr (same_size-SameSize source x (find-eq_some (same_size source) items x found)),
      )
  | inr unknown ↦ let nothing : none ≡ some x = rw unknown at k in absurd (none-ne-some x nothing)
]

choose-Found :
    (mode : VerifyMode) (allow : Bool) (source : DriveFile) (items : List Item) (x : Item)
    → choose mode allow source items ≡ some x
    → Found mode allow source items x
unfolding choose
choose-Found checksum allow source items x h =
    (same_md5 source, h, same_md5-SameMd5 source x (find-eq_some (same_md5 source) items x h))
choose-Found name_size allow source items x h =
    by_md5_or_size source allow items x (find (same_md5 source) items) refl h
choose-Found name_only true source [] x h = absurd (none-ne-some x h)
choose-Found name_only true source (y ∷ items) x h = (λ _. true, h, refl)
choose-Found name_only false source items x h = absurd (none-ne-some x h)

-- What a match of `source` under the key `eff` may be: the file stored under that key, or a file of
-- the source's name that the mode accepts.
abbrev pub Matches : VerifyMode → Bool → DriveFile → String → Item → Type 0
Matches mode allow source eff item =
    (key_of item.file ≡ some eff)
    ⊎ ((item.file.name ≡ source.name) × Accepts mode allow source item)

pop_item-key :
    (key : String) (o : Option Item) (idx : DestinationIndex) (x : Item)
    → (pop_item key o idx).0 ≡ some x
    → o ≡ some x
pop_item-key key none idx x e = e
pop_item-key key (some item) idx x e = e

pop_by_app_prop-key :
    (key : String) (idx : DestinationIndex) (x : Item)
    → WellFormed idx
    → (pop_by_app_prop key idx).0 ≡ some x
    → key_of x.file ≡ some key
unfolding pop_by_app_prop
pop_by_app_prop-key key idx x v e = elim (Bool-cases (truthy key)) [
  | inl set ↦
      let stored = pop_item-key key (lookup key idx.app_props) idx x (rw set at e) in
      (All-lookup IsKeyed key idx.app_props x v.keyed stored).0
  | inr unset ↦ let nothing : none ≡ some x = rw unset at e in absurd (none-ne-some x nothing)
]

take_match-item :
    (o : Option Item) (idx : DestinationIndex) (x : Item)
    → (take_match o idx).0 ≡ some x
    → o ≡ some x
take_match-item none idx x e = e
take_match-item (some item) idx x e = e

or_by_name-Matches :
    (p : Popped) (mode : VerifyMode) (allow : Bool) (source : DriveFile) (eff : String) (x : Item)
    → (p.0 ≡ some x → key_of x.file ≡ some eff)
    → WellFormed p.1
    → (or_by_name p mode allow source).0 ≡ some x
    → Matches mode allow source eff x
or_by_name-Matches (some item, idx) mode allow source eff x keyed v e = inl (keyed e)
or_by_name-Matches (none, idx) mode allow source eff x keyed v e =
    let items = bucket source.name idx.by_name in
    let (p, found, accepted) =
      choose-Found mode allow source items x
        (take_match-item (choose mode allow source items) idx x e) in
    inr (All-find (λ y. y.file.name ≡ source.name) p items x (v.named source.name) found, accepted)

-- `effective_id or source.id`
abbrev pub effective_key : String → DriveFile → String
effective_key eff source = if truthy eff then eff else source.id

-- A destination file that a source file is matched with carries the source's key, or has its name
-- and what the mode asks: an equal checksum, under `name_size` otherwise an equal size, and under
-- `name_only` the explicit permission. So under `checksum` no file is skipped on its name alone.
pub pop_match-Matches :
    (source : DriveFile) (mode : VerifyMode) (allow : Bool) (eff : String) (idx : DestinationIndex)
    (x : Item)
    → WellFormed idx
    → (pop_match source mode allow eff idx).0 ≡ some x
    → Matches mode allow source (effective_key eff source) x
unfolding pop_match
pop_match-Matches source mode allow eff idx x v e =
    let key = effective_key eff source in
    or_by_name-Matches (pop_by_app_prop key idx) mode allow source key x
      (pop_by_app_prop-key key idx x v) (pop_by_app_prop-WellFormed key idx v) e

-- A pop by key that finds nothing takes nothing.
pub pop_by_app_prop-none :
    (key : String) (idx : DestinationIndex)
    → (pop_by_app_prop key idx).0 ≡ none
    → (pop_by_app_prop key idx).1 ≡ idx
unfolding pop_by_app_prop
pop_by_app_prop-none key idx h = by_test (truthy key) h
  where
    by_entry : (o : Option Item) → (pop_item key o idx).0 ≡ none → (pop_item key o idx).1 ≡ idx
    by_entry none h = refl
    by_entry (some item) h = absurd (some-ne-none _ h)

    by_test :
        (b : Bool)
        → (if b then pop_item key (lookup key idx.app_props) idx else (none, idx)).0 ≡ none
        → (if b then pop_item key (lookup key idx.app_props) idx else (none, idx)).1 ≡ idx
    by_test true h = by_entry (lookup key idx.app_props) h
    by_test false h = refl

pop_by_app_prop_unset :
    (key : String) (idx : DestinationIndex)
    → truthy key ≡ false
    → pop_by_app_prop key idx ≡ (none, idx)
unfolding pop_by_app_prop
pop_by_app_prop_unset key idx unset = rw unset refl

-- A file found by its key is the match.
pub pop_match_keyed :
    (source : DriveFile) (mode : VerifyMode) (allow : Bool) (key : String) (idx : DestinationIndex)
    (item : Item)
    → (pop_by_app_prop key idx).0 ≡ some item
    → (pop_match source mode allow key idx).0 ≡ some item
unfolding pop_match
pop_match_keyed source mode allow key idx item h = by_test (truthy key) refl
  where
    by_pop : (p : Popped) → p.0 ≡ some item → (or_by_name p mode allow source).0 ≡ some item
    by_pop (some found, rest) given = given
    by_pop (none, rest) given = absurd (none-ne-some _ given)

    by_test :
        (b : Bool)
        → truthy key ≡ b
        → (or_by_name (pop_by_app_prop (if b then key else source.id) idx) mode allow source).0
          ≡ some item
    by_test true set = by_pop (pop_by_app_prop key idx) h
    by_test false unset =
        absurd (none-ne-some _ (sym (ap (λ p. p.0) (pop_by_app_prop_unset key idx unset)) ∙ h))
