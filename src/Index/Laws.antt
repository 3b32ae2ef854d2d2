-- ===== src/Index/Laws.antt =====
-- The well-formedness of a destination index: `build` establishes it, and a pop by key keeps it.
use gdrive_turbo_copy.Prelude.{
  ℕ, ◌+◌, ◌≡◌, refl, sym, subst, String, true, Option, none, some, List, [], ◌∷◌, ◌++◌, All,
  All-append, All-if, arith, truthy, ◌==◌, eq_of_==, string_eq, Bool-cases, inl, inr, if◌then◌else◌,
}
use gdrive_turbo_copy.Prelude.Dict.{
  Dict, lookup, insert, erase, All-insert, All-erase, lookup-nil, lookup-insert, lookup-erase,
}
use gdrive_turbo_copy.Models.DriveFile.{DriveFile, is_folder}
use gdrive_turbo_copy.Index.{
  Item, DestinationIndex, empty_index, equals, is_in, remove, key_of, bucket, put_key, add_item,
  build_from, build, set_bucket, remove_from_name, pop_item, pop_by_app_prop,
}

-- Each stored item stands under its own key and its own name.
abbrev pub IsKeyed : String × Item → Type 0
IsKeyed (key, item) = (key_of item.file ≡ some key) × (truthy key ≡ true)

pub record WellFormed (idx : DestinationIndex) : Type 0 where
  pub keyed : All IsKeyed idx.app_props
  pub named : (name : String) → All (λ item. item.file.name ≡ name) (bucket name idx.by_name)

pub bucket-nil : (name : String) → bucket name [] ≡ []
bucket-nil name = ground (arith, lookup-nil {V = List Item} name)

empty-WellFormed : WellFormed empty_index
empty-WellFormed = record { keyed = tt; named = λ name. rw (bucket-nil name) tt }

pub bucket-insert :
    (j k : String) (items : List Item) (d : Dict (List Item))
    → bucket j (insert k items d) ≡ (if j == k then items else bucket j d)
bucket-insert j k items d = ground (arith, lookup-insert j k items d)

bucket-erase :
    (j k : String) (d : Dict (List Item))
    → bucket j (erase k d) ≡ (if j == k then [] else bucket j d)
bucket-erase j k d = ground (arith, lookup-erase j k d)

pub bucket-set_bucket :
    (j k : String) (items : List Item) (d : Dict (List Item))
    → bucket j (set_bucket k items d) ≡ (if j == k then items else bucket j d)
bucket-set_bucket j k [] d = bucket-erase j k d
bucket-set_bucket j k (x ∷ items) d = bucket-insert j k (x ∷ items) d

put_key-IsKeyed :
    (k : Option String) (item : Item) (d : Dict Item)
    → key_of item.file ≡ k
    → All IsKeyed d
    → All IsKeyed (put_key k item d)
put_key-IsKeyed none item d k old = old
put_key-IsKeyed (some key) item d k old = elim (Bool-cases (truthy key)) [
  | inl set ↦ rw set (All-insert IsKeyed key item d (k, set) old)
  | inr unset ↦ rw unset old
]

add_item-WellFormed :
    (item : Item) (idx : DestinationIndex) → WellFormed idx → WellFormed (add_item item idx)
unfolding add_item
add_item-WellFormed item idx v = elim (Bool-cases (is_folder item.file)) [
  | inl folder ↦ rw folder v
  | inr plain ↦ rw plain (record {
    keyed = put_key-IsKeyed (key_of item.file) item idx.app_props refl v.keyed;
    named = λ name. rw (bucket-insert name item.file.name _ idx.by_name) (
        All-if _ (name == item.file.name) _ _
          (λ same.
            let own = sym (eq_of_== name item.file.name same) in
            let old = bucket item.file.name idx.by_name in
            subst (λ n. All (λ x. x.file.name ≡ n) (old ++ (item ∷ []))) own
              (All-append _ old (item ∷ []) (v.named item.file.name) (refl, tt)))
          (λ _. v.named name));
  })
]

build_from-WellFormed :
    (n : ℕ) (files : List DriveFile) (idx : DestinationIndex)
    → WellFormed idx
    → WellFormed (build_from n files idx)
unfolding build_from
build_from-WellFormed n [] idx v = v
build_from-WellFormed n (f ∷ files) idx v =
    build_from-WellFormed (n + 1) files _
      (add_item-WellFormed (record { handle = n; file = f }) idx v)

-- An index built from a listing is well formed.
pub build-WellFormed : (files : List DriveFile) → WellFormed (build files)
unfolding build
build-WellFormed files = build_from-WellFormed 0 files empty_index empty-WellFormed

remove-All :
    (P : Item → Type 0) (x : Item) (items : List Item) → All P items → All P (remove x items)
unfolding remove
remove-All P x [] a = tt
remove-All P x (y ∷ items) a =
    All-if P (equals x y) items (y ∷ remove x items) (λ _. a.1)
      (λ _. (a.0, remove-All P x items a.1))

remove_from_name-named :
    (item : Item) (d : Dict (List Item))
    → ((name : String) → All (λ x. x.file.name ≡ name) (bucket name d))
    → (name : String) → All (λ x. x.file.name ≡ name) (bucket name (remove_from_name item d))
unfolding remove_from_name
remove_from_name-named item d old name = elim (Bool-cases (is_in item (bucket item.file.name d))) [
  | inl present ↦
      rw (present, bucket-set_bucket name item.file.name _ d)
        (All-if _ (name == item.file.name) _ _
          (λ same. remove-All _ item _ (
            subst (λ n. All (λ x. x.file.name ≡ name) (bucket n d))
              (eq_of_== name item.file.name same) (old name)))
          (λ _. old name))
  | inr absent ↦ rw absent (old name)
]

pop_item-WellFormed :
    (key : String) (o : Option Item) (idx : DestinationIndex)
    → WellFormed idx
    → WellFormed (pop_item key o idx).1
pop_item-WellFormed key none idx v = v
pop_item-WellFormed key (some item) idx v = record {
  keyed = All-erase IsKeyed key idx.app_props v.keyed;
  named = remove_from_name-named item idx.by_name v.named;
}

-- A pop by key keeps the index well formed.
pub pop_by_app_prop-WellFormed :
    (key : String) (idx : DestinationIndex)
    → WellFormed idx
    → WellFormed (pop_by_app_prop key idx).1
unfolding pop_by_app_prop
pop_by_app_prop-WellFormed key idx v = elim (Bool-cases (truthy key)) [
  | inl set ↦ rw set (pop_item-WellFormed key (lookup key idx.app_props) idx v)
  | inr unset ↦ rw unset v
]
