-- ===== src/Base/Rational/Rounding.antt =====
-- How far rounding moves a number.
use Prim.Native.Nat.{ℕ, suc, ◌≤◌, ◌<◌, ◌+◌, ◌*◌, ◌/◌, ◌%◌}
use mathlib.Core.Path.{◌≡◌}
use mathlib.Core.Bool.{true}
use mathlib.Core.Logic.{inl, inr, ◌⊎◌}
use native.Mathlib.Omega.{arith}
use native.Mathlib.Nat.{mul-le-mul_right, div-add-mod'}
use right_hire.Base.Booleans.{ltb, Bool-cases, le→leb}
use right_hire.Base.Rational.{ratio, leb_ℚ, nearest, round_at}

-- The quotient is below the bound, or is the bound without a remainder.
quotient_bound : (n d k : ℕ) → n ≤ k * suc d → (n / suc d < k) ⊎ ((n / suc d ≡ k) × (n % suc d ≡ 0))
quotient_bound n d k h =
    let split = div-add-mod' n (suc d) in
    elim (Bool-cases (ltb (n / suc d) k)) [
      | inl l ↦ inl (ground (arith, l))
      | inr g ↦
          let least : k ≤ n / suc d = ground (arith, g) in
          let scaled = mul-le-mul_right (suc d) least in
          elim (Bool-cases (ltb k (n / suc d))) [
            | inl m ↦
                let more : suc k ≤ n / suc d = ground (arith, m) in
                absurd (omega (arith, split, mul-le-mul_right (suc d) more, h))
            | inr m ↦ inr (ground (arith, m, g), omega (arith, split, scaled, h))
          ]
    ]

pub nearest_bound : (n d k : ℕ) → n ≤ k * suc d → nearest n (suc d) ≤ k
unfolding nearest
nearest_bound n d k h = elim (quotient_bound n d k h) [
  | inl l ↦ ground (arith, l)
  | inr e ↦ ground (arith, e.0, e.1)
]

-- A fraction from 0 to a whole number keeps these bounds.
pub round_at_bounds :
    (scale n d k : ℕ)
    → n ≤ k * suc d
    → (leb_ℚ (ratio 0 0) (round_at scale (ratio n d)) ≡ true)
      × (leb_ℚ (round_at scale (ratio n d)) (ratio k 0) ≡ true)
unfolding leb_ℚ round_at
round_at_bounds scale n d k h =
    let near =
      nearest_bound ((n + 0) * suc scale) d (k * suc scale)
        (omega (arith, mul-le-mul_right (suc scale) h)) in
    (le→leb _ _ (omega arith), le→leb _ _ (omega (arith, near)))
