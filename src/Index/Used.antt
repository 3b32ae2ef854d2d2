-- ===== src/Index/Used.antt =====
-- What a match leaves of the index.
use gdrive_turbo_copy.Prelude.{
  ◌≡◌, ◌∙◌, refl, sym, subst, String, Bool, true, false, ◌||◌, Option, none, some, List, [], ◌∷◌,
  ◌++◌, All, arith, truthy, ◌==◌, string_eq, ==_refl, Bool-cases, inl, inr, if◌then◌else◌,
}
use mathlib.Core.Bool.{false≢true}
use gdrive_turbo_copy.Prelude.Dict.{Dict, lookup, lookup-erase}
use gdrive_turbo_copy.Models.DriveFile.{DriveFile}
use gdrive_turbo_copy.Models.Config.{VerifyMode}
use gdrive_turbo_copy.Index.{
  Item, DestinationIndex, same_object, equals, is_in, remove, bucket, set_bucket, remove_from_name,
  pop_item, pop_by_app_prop, choose, forget, values_contain, drop_object, Popped, take_match,
  or_by_name, pop_match,
}
use gdrive_turbo_copy.Index.Laws.{bucket-set_bucket}
use gdrive_turbo_copy.Index.Match.{effective_key, pop_by_app_prop-none}

-- A list without the first item that is equal to the given one, if there is one.
pub data OneLess (x : Item) : List Item → List Item → Type 0 where
  unlisted : {items : List Item} → is_in x items ≡ false → OneLess x items items
  taken :
      (before : List Item) (y : Item) (after : List Item)
      → All (λ z. equals x z ≡ false) before
      → equals x y ≡ true
      → OneLess x (before ++ (y ∷ after)) (before ++ after)

-- The buckets have the item once less.
pub record Unlisted (x : Item) (d d' : Dict (List Item)) : Type 0 where
  pub own : OneLess x (bucket x.file.name d) (bucket x.file.name d')
  pub others : (name : String) → (name == x.file.name) ≡ false → bucket name d' ≡ bucket name d

-- No key leads to this object any more, and the keys of other objects stay.
pub record Unkeyed (x : Item) (d d' : Dict Item) : Type 0 where
  pub gone : All (λ entry. same_object entry.1 x ≡ false) d'
  pub others :
      (k : String) (y : Item) → lookup k d ≡ some y → same_object y x ≡ false → lookup k d' ≡ some y

-- What a match for the key uses up of an index.
pub data Uses (key : String) (idx : DestinationIndex)
    : Option Item → DestinationIndex → Type 0 where
  nothing : Uses key idx none idx
  keyed :
      {idx' : DestinationIndex} (x : Item)
      → lookup key idx.app_props ≡ some x
      → ((k : String)
          → lookup k idx'.app_props ≡ (if k == key then none else lookup k idx.app_props))
      → Unlisted x idx.by_name idx'.by_name
      → Uses key idx (some x) idx'
  named :
      {idx' : DestinationIndex} (x : Item)
      → Unkeyed x idx.app_props idx'.app_props
      → Unlisted x idx.by_name idx'.by_name
      → Uses key idx (some x) idx'

remove-OneLess :
    (x : Item) (items : List Item) → is_in x items ≡ true → OneLess x items (remove x items)
unfolding is_in remove
remove-OneLess x [] h = absurd (false≢true h)
remove-OneLess x (y ∷ items) h = elim (Bool-cases (equals x y)) [
  | inl same ↦ rw same (taken [] y items tt same)
  | inr other ↦ rw other (past y other (remove-OneLess x items (sym (rw other refl) ∙ h)))
]
  where
    past :
        (z : Item) {l l' : List Item}
        → equals x z ≡ false
        → OneLess x l l'
        → OneLess x (z ∷ l) (z ∷ l')
    past z differs (unlisted out) = unlisted (rw differs out)
    past z differs (taken before w after kept same) =
        taken (z ∷ before) w after (differs, kept) same

remove_from_name-Unlisted : (x : Item) (d : Dict (List Item)) → Unlisted x d (remove_from_name x d)
unfolding remove_from_name
remove_from_name-Unlisted x d = elim (Bool-cases (is_in x (bucket x.file.name d))) [
  | inr out ↦ rw out (record { own = unlisted out; others = λ name other. refl })
  | inl there ↦ rw there (record {
    own =
        subst (OneLess x (bucket x.file.name d))
          (sym (own_bucket (remove x (bucket x.file.name d))))
          (remove-OneLess x (bucket x.file.name d) there);
    others = λ name other.
        bucket-set_bucket name x.file.name (remove x (bucket x.file.name d)) d ∙ rw other refl;
  })
]
  where
    own_bucket : (items : List Item) → bucket x.file.name (set_bucket x.file.name items d) ≡ items
    own_bucket items =
        bucket-set_bucket x.file.name x.file.name items d
        ∙ rw (==_refl {A = String} x.file.name) refl

pop_item-Uses :
    (key : String) (o : Option Item) (idx : DestinationIndex)
    → lookup key idx.app_props ≡ o
    → Uses key idx (pop_item key o idx).0 (pop_item key o idx).1
pop_item-Uses key none idx h = nothing
pop_item-Uses key (some x) idx h =
    keyed x h (λ k. lookup-erase k key idx.app_props) (remove_from_name-Unlisted x idx.by_name)

pop_by_app_prop-Uses :
    (key : String) (idx : DestinationIndex)
    → Uses key idx (pop_by_app_prop key idx).0 (pop_by_app_prop key idx).1
unfolding pop_by_app_prop
pop_by_app_prop-Uses key idx = by_test (truthy key)
  where
    by_test :
        (b : Bool)
        → let p = if b then pop_item key (lookup key idx.app_props) idx else (none, idx) in
          Uses key idx p.0 p.1
    by_test true = pop_item-Uses key (lookup key idx.app_props) idx refl
    by_test false = nothing

not_equal : (x y : Item) → equals x y ≡ false → same_object y x ≡ false
unfolding equals
not_equal x y h = ground arith

not_stored :
    (x : Item) (d : Dict Item)
    → values_contain x d ≡ false
    → All (λ entry. same_object entry.1 x ≡ false) d
unfolding values_contain
not_stored x [] h = tt
not_stored x ((k, v) ∷ d) h =
    let (here, later) = neither (equals x v) (values_contain x d) h in
    (not_equal x v here, not_stored x d later)
  where
    neither : (a b : Bool) → (a || b) ≡ false → (a ≡ false) × (b ≡ false)
    neither a b h = ground arith

dropped-gone :
    (x : Item) (d : Dict Item) → All (λ entry. same_object entry.1 x ≡ false) (drop_object x d)
unfolding drop_object
dropped-gone x [] = tt
dropped-gone x ((k, v) ∷ d) = ground (arith, dropped-gone x d)

dropped-others :
    (x : Item) (d : Dict Item) (k : String) (y : Item)
    → lookup k d ≡ some y
    → same_object y x ≡ false
    → lookup k (drop_object x d) ≡ some y
unfolding drop_object lookup
dropped-others x [] k y there other = there
dropped-others x ((j, v) ∷ d) k y there other = ground (arith, dropped-others x d k y)

forget-Unkeyed : (x : Item) (d : Dict Item) → Unkeyed x d (forget x d)
unfolding forget
forget-Unkeyed x d = elim (Bool-cases (values_contain x d)) [
  | inl stored ↦ rw stored (record { gone = dropped-gone x d; others = dropped-others x d })
  | inr absent ↦
      rw absent (record { gone = not_stored x d absent; others = λ k y there other. there })
]

take_match-Uses :
    (key : String) (o : Option Item) (idx : DestinationIndex)
    → Uses key idx (take_match o idx).0 (take_match o idx).1
take_match-Uses key none idx = nothing
take_match-Uses key (some x) idx =
    named x (forget-Unkeyed x idx.app_props) (remove_from_name-Unlisted x idx.by_name)

or_by_name-Uses :
    (key : String) (p : Popped) (idx : DestinationIndex) (mode : VerifyMode) (allow : Bool)
    (source : DriveFile)
    → Uses key idx p.0 p.1
    → (p.0 ≡ none → p.1 ≡ idx)
    → let q = or_by_name p mode allow source in Uses key idx q.0 q.1
or_by_name-Uses key (some x, idx') idx mode allow source u same = u
or_by_name-Uses key (none, idx') idx mode allow source u same =
    subst (λ i. let q = or_by_name (none, i) mode allow source in Uses key idx q.0 q.1)
      (sym (same refl))
      (take_match-Uses key (choose mode allow source (bucket source.name idx.by_name)) idx)

-- A match uses the index up by what it gives, and by no more. Without a match the index stays. An item
-- found by its key loses this key, and one found by name every key of this object; other keys lead
-- where they did. Either way the item is taken once from the files of its name, where it is listed, and
-- the files of other names stay.
pub pop_match-Uses :
    (source : DriveFile) (mode : VerifyMode) (allow : Bool) (eff : String) (idx : DestinationIndex)
    → let p = pop_match source mode allow eff idx in Uses (effective_key eff source) idx p.0 p.1
unfolding pop_match
pop_match-Uses source mode allow eff idx =
    let key = effective_key eff source in
    or_by_name-Uses key (pop_by_app_prop key idx) idx mode allow source
      (pop_by_app_prop-Uses key idx) (pop_by_app_prop-none key idx)
