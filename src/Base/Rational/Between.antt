-- ===== src/Base/Rational/Between.antt =====
-- A number on the way from one to another lies between them.
use Prim.Native.Nat.{ℕ, suc, ◌≤◌, ◌+◌, ◌-◌, ◌*◌}
use mathlib.Core.Path.{◌≡◌, ◌∙◌, ap, sym, subst}
use mathlib.Core.Bool.{true}
use native.Mathlib.Omega.{arith}
use native.Mathlib.Nat.{mul-le-mul_right}
use right_hire.Base.Booleans.{leb→le, le→leb}
use right_hire.Base.Int.{ℤ, pos, pos_part, neg_part, ◌*ℤ◌, +ℤ_parts, -ℤ_parts}
use right_hire.Base.Rational.{Rational, ratio, den, left_side, right_side, leb_ℚ, ◌+ℚ◌, ◌-ℚ◌, ◌*ℚ◌}

*ℤ_parts :
    (a b : ℤ)
    → pos_part (a *ℤ b) + (pos_part a * neg_part b + neg_part a * pos_part b)
      ≡ neg_part (a *ℤ b) + (pos_part a * pos_part b + neg_part a * neg_part b)
unfolding ◌*ℤ◌
*ℤ_parts a b = ground arith

-- The same of the product with a whole number.
scaled_parts :
    (a : ℤ) (n : ℕ)
    → pos_part (a *ℤ pos n) + neg_part a * n ≡ neg_part (a *ℤ pos n) + pos_part a * n
scaled_parts a n = omega (arith, *ℤ_parts a (pos n))

pub minus_parts :
    (a b : Rational)
    → pos_part (a -ℚ b).num + (neg_part a.num * den b + pos_part b.num * den a)
      ≡ neg_part (a -ℚ b).num + (pos_part a.num * den b + neg_part b.num * den a)
unfolding ◌-ℚ◌
minus_parts a b = omega (
  arith,
  -ℤ_parts (a.num *ℤ pos (den b)) (b.num *ℤ pos (den a)),
  scaled_parts a.num (den b),
  scaled_parts b.num (den a),
)

plus_parts :
    (a b : Rational)
    → pos_part (a +ℚ b).num + (neg_part a.num * den b + neg_part b.num * den a)
      ≡ neg_part (a +ℚ b).num + (pos_part a.num * den b + pos_part b.num * den a)
unfolding ◌+ℚ◌
plus_parts a b = omega (
  arith,
  +ℤ_parts (a.num *ℤ pos (den b)) (b.num *ℤ pos (den a)),
  scaled_parts a.num (den b),
  scaled_parts b.num (den a),
)

times_parts :
    (a : Rational) (n d : ℕ)
    → pos_part (a *ℚ ratio n d).num + neg_part a.num * n
      ≡ neg_part (a *ℚ ratio n d).num + pos_part a.num * n
unfolding ◌*ℚ◌
times_parts a n d = scaled_parts a.num n

den-minus : (a b : Rational) → den (a -ℚ b) ≡ den a * den b
unfolding ◌-ℚ◌
den-minus a b = omega arith

den-plus : (a b : Rational) → den (a +ℚ b) ≡ den a * den b
unfolding ◌+ℚ◌
den-plus a b = omega arith

den-times : (a b : Rational) → den (a *ℚ b) ≡ den a * den b
unfolding ◌*ℚ◌
den-times a b = omega arith

-- The order of the parts, over the natural numbers: of the sum `x = a + m`, and of `m = c * n / s`.
module _ (d e s : ℕ) (a1 a0 b1 b0 c1 c0 m1 m0 x1 x0 : ℕ) where
  scaled_order : (n : ℕ) → c0 ≤ c1 → n ≤ s → m1 + c0 * n ≡ m0 + c1 * n → m1 + c0 * s ≤ m0 + c1 * s
  scaled_order n h k eq =
      let gap : c1 ≡ c0 + (c1 - c0) = omega arith in
      omega (arith, eq, ap (λ t. t * n) gap, ap (λ t. t * s) gap, mul-le-mul_right (c1 - c0) k)

  below_sum :
      m0 ≤ m1
      → x1 + (a0 * (e * d * s) + m0 * d) ≡ x0 + (a1 * (e * d * s) + m1 * d)
      → a1 * (d * (e * d * s)) + x0 * d ≤ x1 * d + a0 * (d * (e * d * s))
  below_sum h eq = omega (arith, ap (λ t. t * d) eq, mul-le-mul_right (d * d) h)

  sum_below :
      m1 + c0 * s ≤ m0 + c1 * s
      → c1 + (b0 * d + a1 * e) ≡ c0 + (b1 * d + a0 * e)
      → x1 + (a0 * (e * d * s) + m0 * d) ≡ x0 + (a1 * (e * d * s) + m1 * d)
      → x1 * e + b0 * (d * (e * d * s)) ≤ b1 * (d * (e * d * s)) + x0 * e
  sum_below h ceq eq =
      omega (arith, ap (λ t. t * e) eq, mul-le-mul_right (d * e) h, ap (λ t. t * (s * d * e)) ceq)

module _ (a b : Rational) (n d : ℕ) where
  abbrev pub step : Rational
  step = (b -ℚ a) *ℚ ratio n d

  den-step : den step ≡ den b * den a * suc d
  den-step = den-times (b -ℚ a) (ratio n d) ∙ ap (λ k. k * suc d) (den-minus b a)

  den_sum : den (a +ℚ step) ≡ den a * (den b * den a * suc d)
  den_sum = den-plus a step ∙ ap (λ k. den a * k) den-step

  sum_parts :
      pos_part (a +ℚ step).num
        + (neg_part a.num * (den b * den a * suc d) + neg_part step.num * den a)
      ≡ neg_part (a +ℚ step).num
        + (pos_part a.num * (den b * den a * suc d) + pos_part step.num * den a)
  sum_parts =
      subst
        (λ k.
          pos_part (a +ℚ step).num + (neg_part a.num * k + neg_part step.num * den a)
          ≡ neg_part (a +ℚ step).num + (pos_part a.num * k + pos_part step.num * den a))
        den-step (plus_parts a step)

  abbrev up : Rational → ℕ
  up q = pos_part q.num

  abbrev down : Rational → ℕ
  down q = neg_part q.num

  module _ (h : leb_ℚ a b ≡ true) where
    gap : down (b -ℚ a) ≤ up (b -ℚ a)
    unfolding leb_ℚ
    gap = omega (arith, leb→le (left_side a b) (right_side a b) h, minus_parts b a)

    grows : down step ≤ up step
    grows = omega (arith, times_parts (b -ℚ a) n d, mul-le-mul_right n gap)

    above : leb_ℚ a (a +ℚ step) ≡ true
    unfolding leb_ℚ
    above = le→leb _ _ (
        subst (λ k. up a * k + down (a +ℚ step) * den a ≤ up (a +ℚ step) * den a + down a * k)
          (sym den_sum)
          (below_sum (den a) (den b) (suc d) (up a) (down a) (up b) (down b) (up (b -ℚ a))
            (down (b -ℚ a)) (up step) (down step) (up (a +ℚ step)) (down (a +ℚ step)) grows
            sum_parts))

    below : n ≤ suc d → leb_ℚ (a +ℚ step) b ≡ true
    unfolding leb_ℚ
    below k = le→leb _ _ (
        subst (λ k. up (a +ℚ step) * den b + down b * k ≤ up b * k + down (a +ℚ step) * den b)
          (sym den_sum)
          (sum_below (den a) (den b) (suc d) (up a) (down a) (up b) (down b) (up (b -ℚ a))
            (down (b -ℚ a)) (up step) (down step) (up (a +ℚ step)) (down (a +ℚ step))
            (scaled_order (den a) (den b) (suc d) (up a) (down a) (up b) (down b) (up (b -ℚ a))
              (down (b -ℚ a)) (up step) (down step) (up (a +ℚ step)) (down (a +ℚ step)) n gap k
              (times_parts (b -ℚ a) n d))
            (minus_parts b a) sum_parts))

  pub between :
      leb_ℚ a b ≡ true → n ≤ suc d → (leb_ℚ a (a +ℚ step) ≡ true) × (leb_ℚ (a +ℚ step) b ≡ true)
  between h k = (above h, below h k)
