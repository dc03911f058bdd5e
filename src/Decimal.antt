-- ===== src/Decimal.antt =====
-- `math.LegacyDec` of cosmossdk.io/math, which the program takes from its SDK. A value is the
-- integer of its units of 10^-18, which a LegacyDec holds as a math/big integer: sums, differences
-- and comparisons are those of the integer. Products and quotients round, and how they round is
-- not this program's: they are the fields of `Rounding`, a parameter of every definition that uses
-- them. The SDK panics past 315 bits, which is not modelled.
use perp_dex.Base.{ℕ, ◌*◌, ◌-◌, ◌^◌, Bool, if◌then◌else◌}
use perp_dex.Base.{arith}
use perp_dex.Base.Int.{◌≤ℤ◌, ◌<ℤ◌}
use perp_dex.Base.Int.{ℤ, pos, ◌-ℤ◌, ltb_ℤ, leb_ℤ}
use Prim.Native.Nat.{compare, Ordering, ◌+◌}
use perp_dex.Base.Int.{pos_part, neg_part}
use perp_dex.Base.{true, false, ◌⊎◌}

abbrev pub LegacyDec : Type 0
LegacyDec = ℤ

-- `LegacyZeroDec`, `LegacyNewDec`, `LegacyNewDecWithPrec` and `LegacyOneDec`.
abbrev pub zero_dec : LegacyDec
zero_dec = pos 0

abbrev pub new_dec_with_prec : ℕ → ℕ → LegacyDec
new_dec_with_prec n prec = pos (n * 10 ^ (18 - prec))

abbrev pub new_dec : ℕ → LegacyDec
new_dec n = new_dec_with_prec n 0

abbrev pub one_dec : LegacyDec
one_dec = new_dec 1

abbrev pub gt : LegacyDec → LegacyDec → Bool
gt a b = ltb_ℤ b a

abbrev pub gte : LegacyDec → LegacyDec → Bool
gte a b = leb_ℤ b a

abbrev pub lt : LegacyDec → LegacyDec → Bool
lt a b = ltb_ℤ a b

abbrev pub lte : LegacyDec → LegacyDec → Bool
lte a b = leb_ℤ a b

abbrev pub equal : LegacyDec → LegacyDec → Bool
equal a b = elim (compare (pos_part a + neg_part b) (pos_part b + neg_part a)) [
  | Ordering.eq ↦ true
  | _ ↦ false
]

abbrev pub is_zero : LegacyDec → Bool
is_zero a = equal a zero_dec

abbrev pub is_positive : LegacyDec → Bool
is_positive a = gt a zero_dec

abbrev pub is_negative : LegacyDec → Bool
is_negative a = lt a zero_dec

abbrev pub neg : LegacyDec → LegacyDec
neg a = zero_dec -ℤ a

-- `LegacyMinDec`
abbrev pub min_dec : LegacyDec → LegacyDec → LegacyDec
min_dec a b = if lt a b then a else b

-- `Mul` and `Quo`, for a divisor that is not zero. `Quo` panics at zero: that is written out
-- where the program does not test its divisor.
pub record Rounding : Type 0 where
  pub mul : LegacyDec → LegacyDec → LegacyDec
  pub quo : LegacyDec → LegacyDec → LegacyDec

pub min_dec_le_left : (a b : LegacyDec) → min_dec a b ≤ℤ a
min_dec_le_left a b = ground arith

pub min_dec_le_right : (a b : LegacyDec) → min_dec a b ≤ℤ b
min_dec_le_right a b = ground arith

pub min_dec_pos : (a b : LegacyDec) → zero_dec <ℤ a → zero_dec <ℤ b → zero_dec <ℤ min_dec a b
min_dec_pos a b ha hb = ground arith

-- With the two above, what `omega` needs to know of the lesser of two.
pub min_dec-or : (a b : LegacyDec) → (a ≤ℤ min_dec a b) ⊎ (b ≤ℤ min_dec a b)
min_dec-or a b = ground arith
