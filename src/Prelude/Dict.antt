-- ===== src/Prelude/Dict.antt =====
-- Python dicts keyed by texts, in insertion order. Proofs elsewhere go by the laws.
use gdrive_turbo_copy.Prelude.Equality.{◌==◌, eq_of_==, string_eq, is_some}
use gdrive_turbo_copy.Prelude.Lists.{All, All-if}
use gdrive_turbo_copy.Prelude.Tests.{if◌then◌else◌}
use Prim.Native.String.{String}
use mathlib.Core.Path.{◌≡◌, refl, sym, subst}
use mathlib.Core.Bool.{Bool, true, false}
use mathlib.Core.Option.{Option, none, some, none-ne-some, some-injective}
use mathlib.Core.List.{List, [], ◌∷◌}
use native.Mathlib.Omega.{arith}

abbrev pub Dict {ℓ} : Type ℓ → Type ℓ
Dict V = List (String × V)

module _ {ℓ} {V : Type ℓ} where
  -- `d.get(k)`
  unfoldable pub lookup : String → Dict V → Option V
  lookup k [] = none
  lookup k ((j, v) ∷ d) = if k == j then some v else lookup k d

  -- `k in d`
  abbrev pub has_key : String → Dict V → Bool
  has_key k d = is_some (lookup k d)

  -- `d[k] = v`
  unfoldable pub insert : String → V → Dict V → Dict V
  insert k v [] = (k, v) ∷ []
  insert k v ((j, w) ∷ d) = if k == j then (j, v) ∷ d else (j, w) ∷ insert k v d

  -- `d.setdefault(k, v)`
  unfoldable pub set_default : String → V → Dict V → Dict V
  set_default k v d = if has_key k d then d else insert k v d

  -- `d.pop(k, None)`. Every entry of the key goes; a dict has at most one.
  unfoldable pub erase : String → Dict V → Dict V
  erase k [] = []
  erase k ((j, w) ∷ d) = let rest = erase k d in if k == j then rest else (j, w) ∷ rest

  pub lookup-nil : (k : String) → lookup k [] ≡ none
  unfolding lookup
  lookup-nil k = refl

  pub lookup-cons :
      (j k : String) (v : V) (d : Dict V)
      → lookup j ((k, v) ∷ d) ≡ (if j == k then some v else lookup j d)
  unfolding lookup
  lookup-cons j k v d = refl

  pub lookup-insert :
      (j k : String) (v : V) (d : Dict V)
      → lookup j (insert k v d) ≡ (if j == k then some v else lookup j d)
  unfolding insert lookup
  lookup-insert j k v [] = refl
  lookup-insert j k v ((i, w) ∷ d) = ground (arith, lookup-insert j k v d)

  pub lookup-set_default :
      (j k : String) (v : V) (d : Dict V)
      → lookup j (set_default k v d)
        ≡ (if has_key j d then lookup j d else if j == k then some v else none)
  unfolding set_default
  lookup-set_default j k v d = ground (arith, lookup-insert j k v d)

  pub lookup-erase :
      (j k : String) (d : Dict V) → lookup j (erase k d) ≡ (if j == k then none else lookup j d)
  unfolding erase lookup
  lookup-erase j k [] = ground arith
  lookup-erase j k ((i, w) ∷ d) = ground (arith, lookup-erase j k d)

  -- A predicate at every entry.
  pub All-insert {κ} :
      (P : String × V → Type κ) (k : String) (v : V) (d : Dict V)
      → P (k, v)
      → All P d
      → All P (insert k v d)
  unfolding insert
  All-insert P k v [] p a = (p, tt)
  All-insert P k v ((j, w) ∷ d) p a =
      All-if P (k == j) ((j, v) ∷ d) ((j, w) ∷ insert k v d)
        (λ same. (subst (λ i. P (i, v)) (eq_of_== k j same) p, a.1))
        (λ _. (a.0, All-insert P k v d p a.1))

  pub All-erase {κ} :
      (P : String × V → Type κ) (k : String) (d : Dict V) → All P d → All P (erase k d)
  unfolding erase
  All-erase P k [] a = tt
  All-erase P k ((j, w) ∷ d) a =
      All-if P (k == j) (erase k d) ((j, w) ∷ erase k d) (λ _. All-erase P k d a.1)
        (λ _. (a.0, All-erase P k d a.1))

  lookup_here {κ} :
      (P : String × V → Type κ) (b : Bool) (k : String) (v x : V) (later : Option V)
      → (b ≡ true → P (k, v))
      → (later ≡ some x → P (k, x))
      → (if b then some v else later) ≡ some x
      → P (k, x)
  lookup_here P true k v x later here ih e =
      subst (λ y. P (k, y)) (some-injective v x e) (here refl)
  lookup_here P false k v x later here ih e = ih e

  pub All-lookup {κ} :
      (P : String × V → Type κ) (k : String) (d : Dict V) (x : V)
      → All P d
      → lookup k d ≡ some x
      → P (k, x)
  unfolding lookup
  All-lookup P k [] x a e = absurd (none-ne-some x e)
  All-lookup P k ((j, v) ∷ d) x a e =
      lookup_here P (k == j) k v x (lookup k d)
        (λ same. subst (λ i. P (i, v)) (sym (eq_of_== k j same)) a.0) (All-lookup P k d x a.1) e
