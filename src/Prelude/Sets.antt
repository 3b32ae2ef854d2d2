-- ===== src/Prelude/Sets.antt =====
-- Python sets of texts, as lists without regard to order.
use gdrive_turbo_copy.Prelude.Equality.{◌==◌, string_eq}
use gdrive_turbo_copy.Prelude.Tests.{if◌then◌else◌}
use Prim.Native.String.{String}
use mathlib.Core.Path.{◌≡◌, refl}
use mathlib.Core.Bool.{Bool, false, not, ◌&&◌, ◌||◌}
use mathlib.Core.List.{List, [], ◌∷◌, ◌++◌}
use native.Mathlib.Omega.{arith}

-- `x in s`
unfoldable pub contains : String → List String → Bool
contains x [] = false
contains x (y ∷ s) = x == y || contains x s

-- `s.add(x)`
unfoldable pub add : String → List String → List String
add x s = if contains x s then s else x ∷ s

-- `s.discard(x)`
unfoldable pub discard : String → List String → List String
discard x [] = []
discard x (y ∷ s) = let rest = discard x s in if x == y then rest else y ∷ rest

-- `s | t`
unfoldable pub union : List String → List String → List String
unfolding add
union s [] = s
union s (y ∷ t) = union (add y s) t

pub contains-nil : (x : String) → contains x [] ≡ false
unfolding contains
contains-nil x = refl

pub contains-cons : (x y : String) (s : List String) → contains x (y ∷ s) ≡ (x == y || contains x s)
unfolding contains
contains-cons x y s = refl

pub contains-add :
    (x y : String) (s : List String) → contains x (add y s) ≡ (x == y || contains x s)
unfolding add contains
contains-add x y s = ground arith

pub contains-discard :
    (x y : String) (s : List String) → contains x (discard y s) ≡ (not (x == y) && contains x s)
unfolding discard contains
contains-discard x y [] = ground arith
contains-discard x y (z ∷ s) = ground (arith, contains-discard x y s)

pub contains-union :
    (x : String) (s t : List String) → contains x (union s t) ≡ (contains x s || contains x t)
unfolding union contains
contains-union x s [] = ground arith
contains-union x s (y ∷ t) = ground (arith, contains-union x (add y s) t, contains-add x y s)

pub contains-append :
    (x : String) (s t : List String) → contains x (s ++ t) ≡ (contains x s || contains x t)
unfolding contains
contains-append x [] t = refl
contains-append x (y ∷ s) t = ground (arith, contains-append x s t)
