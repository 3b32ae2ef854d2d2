-- ===== src/Prelude/Text.antt =====
-- Texts that the program walks: as their code points. Numbers are shown in decimal.
use gdrive_turbo_copy.Prelude.Tests.{ltb, leb, eqb, if◌then◌else◌}
use Prim.Native.Char.{code}
use Prim.Native.Nat.{ℕ, zero, suc, ◌+◌, ◌-◌, ◌*◌, ◌/◌, ◌%◌}
use Prim.Native.String.{String, ◌++◌ as ◌<>◌}
use mathlib.Core.Bool.{Bool, true, false, ◌&&◌, ◌||◌}
use mathlib.Core.Option.{Option, none, some}
use mathlib.Core.List.{List, [], ◌∷◌, map}

abbrev pub codes : String → List ℕ
codes String.[] = []
codes (String.◌∷◌ c s) = code c ∷ codes s

-- `lower()`, for the ASCII letters; every other character is left as it is.
unfoldable pub lower_code : ℕ → ℕ
lower_code c = if leb b'A' c && leb c b'Z' then c + 32 else c

unfoldable pub lower : String → List ℕ
unfolding lower_code
lower s = map lower_code (codes s)

unfoldable pub same_codes : List ℕ → List ℕ → Bool
same_codes [] [] = true
same_codes (a ∷ s) (b ∷ t) = eqb a b && same_codes s t
same_codes _ _ = false

-- `s.startswith(p)` on code points
unfoldable pub begins : List ℕ → List ℕ → Bool
begins s [] = true
begins [] (b ∷ p) = false
begins (a ∷ s) (b ∷ p) = eqb a b && begins s p

-- `p in s` on code points
unfoldable pub is_infix : List ℕ → List ℕ → Bool
unfolding begins
is_infix p [] = begins [] p
is_infix p (a ∷ s) = begins (a ∷ s) p || is_infix p s

abbrev pub digit : ℕ → String
digit zero = "0"
digit (suc zero) = "1"
digit (suc (suc zero)) = "2"
digit (suc (suc (suc zero))) = "3"
digit (suc (suc (suc (suc zero)))) = "4"
digit (suc (suc (suc (suc (suc zero))))) = "5"
digit (suc (suc (suc (suc (suc (suc zero)))))) = "6"
digit (suc (suc (suc (suc (suc (suc (suc zero))))))) = "7"
digit (suc (suc (suc (suc (suc (suc (suc (suc zero)))))))) = "8"
digit n = "9"

-- `sep.join(texts)`
unfoldable pub join : String → List String → String
join sep [] = ""
join sep (x ∷ []) = x
join sep (x ∷ y ∷ texts) = x <> sep <> join sep (y ∷ texts)

show_fuel : ℕ → ℕ → String
show_fuel zero n = ""
show_fuel (suc f) n =
    let more = show_fuel f (n / 10) <> digit (n % 10) in if ltb n 10 then digit n else more

-- A number in decimal.
unfoldable pub show : ℕ → String
unfolding show_fuel
show n = show_fuel (n + 1) n

-- The number that decimal digits stand for; `none` where `int` raises. Signs, blanks and `_`, which
-- the Drive API never sends, are read as errors.
parse_digits : ℕ → List ℕ → Option ℕ
parse_digits n [] = some n
parse_digits n (c ∷ s) =
    let more = parse_digits (n * 10 + (c - b'0')) s in
    if leb b'0' c && leb c b'9' then more else none

unfoldable pub parse_int : String → Option ℕ
unfolding parse_digits
parse_int s = elim (codes s) [ [] ↦ none | c ∷ rest ↦ parse_digits 0 (c ∷ rest) ]
