-- ===== src/Base/Rational.antt =====
-- Python's floats, read as the exact fractions that they stand for: no rounding error, no
-- infinity, no NaN.
pub mod Rounding
pub mod Between
use Prim.Native.Nat.{ℕ, zero, suc, ◌≤◌, ◌+◌, ◌-◌, ◌*◌, ◌/◌, ◌%◌}
use mathlib.Core.Option.{Option, none, some}
use mathlib.Core.Path.{◌≡◌}
use mathlib.Core.Bool.{Bool, true, false, not}
use native.Mathlib.Omega.{arith}
use native.Mathlib.Nat.{mul-le-mul_right, le_of_mul-le-mul_left}
use right_hire.Base.Booleans.{leb, ltb, if◌then◌else◌, leb→le, le→leb}
use right_hire.Base.Int.{ℤ, pos, negsuc, pos_part, neg_part, ◌+ℤ◌, ◌-ℤ◌, ◌*ℤ◌}

-- `num / (den_pred + 1)`.
pub record Rational : Type 0 where
  pub num : ℤ
  pub den_pred : ℕ

abbrev pub den : Rational → ℕ
den a = suc a.den_pred

-- `n / (d + 1)`, for the decimals of the source: 0.70 is `ratio 70 99`.
abbrev pub ratio : ℕ → ℕ → Rational
ratio n d = record { num = pos n; den_pred = d }

-- The two cross products that an order compares.
abbrev pub left_side : Rational → Rational → ℕ
left_side a b = pos_part a.num * den b + neg_part b.num * den a

abbrev pub right_side : Rational → Rational → ℕ
right_side a b = pos_part b.num * den a + neg_part a.num * den b

-- `a <= b` and `a < b`.
unfoldable pub leb_ℚ : Rational → Rational → Bool
leb_ℚ a b = leb (left_side a b) (right_side a b)

unfoldable pub ltb_ℚ : Rational → Rational → Bool
unfolding leb_ℚ
ltb_ℚ a b = not (leb_ℚ b a)

-- `bool(a)`: a float is true unless it is zero.
unfoldable pub is_nonzero : Rational → Bool
is_nonzero a = not (leb (pos_part a.num + neg_part a.num) 0)

pub leb_ℚ_trans : (a b c : Rational) → leb_ℚ a b ≡ true → leb_ℚ b c ≡ true → leb_ℚ a c ≡ true
unfolding leb_ℚ
leb_ℚ_trans a b c h k = le→leb _ _ (
    le_of_mul-le-mul_left {k = den b}
      (omega (
        arith,
        mul-le-mul_right (den c) (leb→le (left_side a b) (right_side a b) h),
        mul-le-mul_right (den a) (leb→le (left_side b c) (right_side b c) k),
      ))
      (omega arith))

pub leb_ℚ_total : (a b : Rational) → leb_ℚ a b ≡ false → leb_ℚ b a ≡ true
unfolding leb_ℚ
leb_ℚ_total a b h = ground arith

pub leb_ℚ_refl : (a : Rational) → leb_ℚ a a ≡ true
unfolding leb_ℚ
leb_ℚ_refl a = le→leb _ _ (omega arith)

infixl 65 ◌+ℚ◌
infixl 70 ◌*ℚ◌
unfoldable pub ◌+ℚ◌ : Rational → Rational → Rational
unfolding ◌+ℤ◌ ◌*ℤ◌
a +ℚ b = record { num = a.num *ℤ pos (den b) +ℤ b.num *ℤ pos (den a); den_pred = den a * den b - 1 }

unfoldable pub ◌*ℚ◌ : Rational → Rational → Rational
unfolding ◌*ℤ◌
a *ℚ b = record { num = a.num *ℤ b.num; den_pred = den a * den b - 1 }

-- `a / b`; none is a `ZeroDivisionError`.
abbrev divided_by : Rational → ℤ → ℕ → Option Rational
divided_by a (pos zero) d = none
divided_by a (pos (suc n)) d = some (record { num = a.num *ℤ pos d; den_pred = den a * suc n - 1 })
divided_by a (negsuc n) d =
    some (record { num = a.num *ℤ negsuc (d - 1); den_pred = den a * suc n - 1 })

unfoldable pub divide : Rational → Rational → Option Rational
unfolding ◌*ℤ◌
divide a b = divided_by a b.num (den b)

-- `max(0.0, min(1.0, a))`
unfoldable pub clamp_unit : Rational → Rational
unfolding leb_ℚ
clamp_unit a =
    if leb_ℚ (ratio 0 0) a then (if leb_ℚ a (ratio 1 0) then a else ratio 1 0) else ratio 0 0

-- The whole number nearest to `n / d`, the even one in the middle.
unfoldable pub nearest : ℕ → ℕ → ℕ
nearest n d =
    let q = n / d in
    let r = 2 * (n % d) in if ltb r d then q else (if ltb d r then q + 1 else q + q % 2)

abbrev signed : ℤ → ℕ → ℤ
signed (pos _) n = pos n
signed (negsuc _) n = pos 0 -ℤ pos n

-- `round(a, 4)`
unfoldable pub round_4 : Rational → Rational
unfolding nearest ◌-ℤ◌
round_4 a = record {
  num = signed a.num (nearest ((pos_part a.num + neg_part a.num) * 10000) (den a));
  den_pred = 9999;
}

pub positive-is_nonzero : (a : Rational) → leb_ℚ a (ratio 0 0) ≡ false → is_nonzero a ≡ true
unfolding leb_ℚ is_nonzero
positive-is_nonzero a h = ground arith

-- A proper fraction lies between 0 and 1.
pub ratio_bounds :
    (n d : ℕ)
    → n ≤ suc d
    → (leb_ℚ (ratio 0 0) (ratio n d) ≡ true) × (leb_ℚ (ratio n d) (ratio 1 0) ≡ true)
unfolding leb_ℚ
ratio_bounds n d h = (le→leb _ _ (omega arith), le→leb _ _ (omega arith))

-- `a - b`, `abs(a)` and `min(a, b)`.
infixl 65 ◌-ℚ◌
unfoldable pub ◌-ℚ◌ : Rational → Rational → Rational
unfolding ◌-ℤ◌ ◌*ℤ◌
a -ℚ b = record { num = a.num *ℤ pos (den b) -ℤ b.num *ℤ pos (den a); den_pred = den a * den b - 1 }

abbrev pub abs_ℚ : Rational → Rational
abs_ℚ a = record { num = pos (pos_part a.num + neg_part a.num); den_pred = a.den_pred }

abbrev pub min_ℚ : Rational → Rational → Rational
min_ℚ a b = if ltb_ℚ b a then b else a

-- `round(a, d)`, where the scale is the power of ten less one.
unfoldable pub round_at : ℕ → Rational → Rational
unfolding nearest ◌-ℤ◌
round_at scale a = record {
  num = signed a.num (nearest ((pos_part a.num + neg_part a.num) * suc scale) (den a));
  den_pred = scale;
}
