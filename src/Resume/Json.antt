-- ===== src/Resume/Json.antt =====
-- JSON values, as `json.dumps` takes them.
use gdrive_turbo_copy.Prelude.{
  ℕ, String, Bool, Option, none, some, List, [], ◌∷◌, ◌==◌, string_eq, if◌then◌else◌,
}
use gdrive_turbo_copy.Prelude.Int.{Float, of_ℤ, pos}

mutual
  pub data Json : Type 0 where
    null : Json
    bool : Bool → Json
    num : Float → Json
    str : String → Json
    arr : Items → Json
    obj : Fields → Json

  pub data Items : Type 0 where
    nil : Items
    cons : Json → Items → Items

  pub data Fields : Type 0 where
    end : Fields
    field : String → Json → Fields → Fields

abbrev pub nat : ℕ → Json
nat n = num (of_ℤ (pos n))

-- `None` is written as `null`.
abbrev pub nullable : Option String → Json
nullable none = null
nullable (some s) = str s

abbrev pub texts : List String → Items
texts [] = nil
texts (s ∷ l) = cons (str s) (texts l)

abbrev pub entries : List (String × String) → Fields
entries [] = end
entries ((k, v) ∷ l) = field k (str v) (entries l)

-- `d.get(key)`
unfoldable pub get : String → Fields → Option Json
get key end = none
get key (field k v fs) = if key == k then some v else get key fs

-- `{k: v for k, v in d.items() if k != key}`
unfoldable pub without : String → Fields → Fields
without key end = end
without key (field k v fs) = let rest = without key fs in if key == k then rest else field k v rest

-- `d[key] = v`, for a key that is new.
unfoldable pub append_field : String → Json → Fields → Fields
append_field key v end = field key v end
append_field key v (field k w fs) = field k w (append_field key v fs)
