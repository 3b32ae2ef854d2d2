-- ===== src/Prelude/Int.antt =====
-- Python's signed integers over the native numbers, and floats that are exact binary fractions.
use gdrive_turbo_copy.Prelude.Tests.{ltb, leb, if◌then◌else◌}
use gdrive_turbo_copy.Prelude.Text.{show}
use Prim.Native.Nat.{ℕ, suc, ◌+◌, ◌-◌, ◌*◌, ◌^◌, ◌≤◌}
use Prim.Native.String.{String, ◌++◌ as ◌<>◌}
use mathlib.Core.Bool.{Bool}

-- `negsuc n` is -(n + 1).
pub data ℤ : Type 0 where
  pos : ℕ → ℤ
  negsuc : ℕ → ℤ

abbrev pub pos_part : ℤ → ℕ
pos_part (pos n) = n
pos_part (negsuc n) = 0

abbrev pub neg_part : ℤ → ℕ
neg_part (pos n) = 0
neg_part (negsuc n) = suc n

abbrev pub ltb_ℤ : ℤ → ℤ → Bool
ltb_ℤ a b = ltb (pos_part a + neg_part b) (pos_part b + neg_part a)

abbrev pub leb_ℤ : ℤ → ℤ → Bool
leb_ℤ a b = leb (pos_part a + neg_part b) (pos_part b + neg_part a)

-- A number times an integer.
abbrev pub scale_ℤ : ℕ → ℤ → ℤ
scale_ℤ k (pos n) = pos (k * n)
scale_ℤ k (negsuc n) = if ltb 0 k then negsuc (k * suc n - 1) else pos 0

infix 50 ◌≤ℤ◌
abbrev pub ◌≤ℤ◌ : ℤ → ℤ → Type 0
a ≤ℤ b = pos_part a + neg_part b ≤ pos_part b + neg_part a

abbrev pub show_ℤ : ℤ → String
show_ℤ (pos n) = show n
show_ℤ (negsuc n) = "-" <> show (suc n)

-- The number mantissa / 2 ^ exponent: every finite float is one.
pub record Float : Type 0 where
  pub mantissa : ℤ
  pub exponent : ℕ

abbrev pub of_ℤ : ℤ → Float
of_ℤ n = record { mantissa = n; exponent = 0 }

abbrev pub zero_float : Float
zero_float = of_ℤ (pos 0)

-- Both sides are brought to one denominator, and the negative parts across.
abbrev pub left_side : Float → Float → ℕ
left_side a b = pos_part a.mantissa * 2 ^ b.exponent + neg_part b.mantissa * 2 ^ a.exponent

abbrev pub ltb_float : Float → Float → Bool
ltb_float a b = ltb (left_side a b) (left_side b a)

-- `min(a, b)` and `max(a, b)`: the second argument only if it is strictly better.
abbrev pub min_float : Float → Float → Float
min_float a b = if ltb_float b a then b else a

abbrev pub max_float : Float → Float → Float
max_float a b = if ltb_float a b then b else a

-- A float times a whole number.
abbrev pub scale_float : ℕ → Float → Float
scale_float k a = record { mantissa = scale_ℤ k a.mantissa; exponent = a.exponent }
