-- ===== src/Results/Stats/Spread.antt =====
-- app/api/results.py: where the percentiles and the suggested cutoffs lie.
use right_hire.Base.{
  ℕ, suc, ◌-◌, ◌*◌, ◌/◌, ◌%◌, ◌≤◌, ◌<◌, ◌≡◌, true, false, inl, inr, arith, Bool-cases, Option, some,
  List, ◌∷◌, length, All, ◌==◌,
}
use native.Mathlib.Nat.{div-add-mod', mul-le-mul_right}
use right_hire.Base.Rational.{Rational, leb_ℚ, leb_ℚ_trans, round_4, round_at}
use right_hire.Base.Rational.Between.{between}
use right_hire.Results.Stats.{
  Floats, sorted, interpolated, percentile_in, percentile, suggest_thresholds,
}
use right_hire.Results.Stats.Sorted.{
  All-sorted, length-sorted, IsSorted, sorted-IsSorted, get_elem?-in_range, All-get_elem?,
  IsSorted-get_elem?,
}

-- A place of at most the last index, in hundredths.
place_in_range :
    (n p : ℕ) → p ≤ 100 → (n * p / 100 ≤ n) × (((n * p % 100 == 0) ≡ false) → suc (n * p / 100) ≤ n)
place_in_range n p h = (
  omega (arith, div-add-mod' (n * p) 100, mul-le-mul_right n h),
  λ e. ground (arith, div-add-mod' (n * p) 100, mul-le-mul_right n h, e),
)

-- The code's number before it is rounded, with its bounds.
pub record IsBetween (lo hi : Rational) (o : Option Rational) : Type 0 where
  pub exact : Rational
  pub value : o ≡ some (round_4 exact)
  pub low : leb_ℚ lo exact ≡ true
  pub high : leb_ℚ exact hi ≡ true

abbrev Within : Rational → Rational → Rational → Type 0
Within lo hi a = (leb_ℚ lo a ≡ true) × (leb_ℚ a hi ≡ true)

module _ (lo hi : Rational) (s : List Rational) (bounds : All (Within lo hi) s) (order : IsSorted s)
    (place : ℕ) where
  on_index :
      (place % 100 == 0) ≡ true → place / 100 < length s → IsBetween lo hi (percentile_in s place)
  on_index e l =
      let (a, at) = get_elem?-in_range s (place / 100) l in
      let within = All-get_elem? (Within lo hi) s (place / 100) a bounds at in
      record { exact = a; value = ground (arith, e, at); low = within.0; high = within.1 }

  off_index :
      (place % 100 == 0) ≡ false
      → suc (place / 100) < length s
      → IsBetween lo hi (percentile_in s place)
  off_index e l =
      let (a, at) = get_elem?-in_range s (place / 100) (omega arith) in
      let (b, next) = get_elem?-in_range s (suc (place / 100)) l in
      let from = All-get_elem? (Within lo hi) s (place / 100) a bounds at in
      let to = All-get_elem? (Within lo hi) s (suc (place / 100)) b bounds next in
      let ordered =
        IsSorted-get_elem? s (place / 100) (suc (place / 100)) a b order (omega arith) at next in
      let inside = between a b (place % 100) 99 ordered (omega arith) in
      record {
        exact = interpolated a b (place % 100);
        value = ground (arith, e, at, next);
        low = leb_ℚ_trans lo a (interpolated a b (place % 100)) from.0 inside.0;
        high = leb_ℚ_trans (interpolated a b (place % 100)) b hi inside.1 to.1;
      }

-- A percentile of a batch with scores is always found, and before it is rounded to four places it
-- lies between any two bounds between which all scores lie.
pub percentile-IsBetween :
    (a : Rational) (scores : List Rational) (p : ℕ) (lo hi : Rational)
    → p ≤ 100
    → All (λ s. (leb_ℚ lo s ≡ true) × (leb_ℚ s hi ≡ true)) (a ∷ scores)
    → IsBetween lo hi (percentile (a ∷ scores) p)
unfolding percentile
percentile-IsBetween a scores p lo hi h bounds =
    let s = sorted (a ∷ scores) in
    let all = All-sorted (Within lo hi) (a ∷ scores) bounds in
    let order = sorted-IsSorted (a ∷ scores) in
    let size = length-sorted (a ∷ scores) in
    let room = place_in_range (length s - 1) p h in
    let place = (length s - 1) * p in
    elim (Bool-cases (place % 100 == 0)) [
      | inl e ↦ on_index lo hi s all order place e (omega (arith, size, room.0))
      | inr e ↦ off_index lo hi s all order place e (omega (arith, size, room.1 e))
    ]

-- What the float products come to: `int(n * 0.30)` and `int(n * 0.70)` for at least three scores.
pub record IsRounding (fl : Floats) : Type 0 where
  pub ordered : (n : ℕ) → fl.thirty_percent n ≤ fl.seventy_percent n
  pub below : (n : ℕ) → 3 ≤ n → fl.seventy_percent n < n

-- The cutoffs before they are rounded to two places.
pub record IsCutoffs (scores : List Rational) (o : Option (Rational × Rational)) : Type 1 where
  pub fit_score : Rational
  pub maybe_score : Rational
  pub value : o ≡ some (round_at 99 fit_score, round_at 99 maybe_score)
  pub order : leb_ℚ maybe_score fit_score ≡ true
  pub from_batch : (P : Rational → Type 0) → All P scores → P fit_score × P maybe_score

-- From three scores on, the suggested cutoffs are two of the batch's scores, rounded, and the cutoff
-- for "maybe" is not above the one for "fit".
pub suggest_thresholds-IsCutoffs :
    (fl : Floats) (scores : List Rational)
    → IsRounding fl
    → 3 ≤ length scores
    → IsCutoffs scores (suggest_thresholds fl scores)
unfolding suggest_thresholds
suggest_thresholds-IsCutoffs fl scores laws h =
    let s = sorted scores in
    let size = length-sorted scores in
    let top = fl.seventy_percent (length s) in
    let bottom = fl.thirty_percent (length s) in
    let in_range : top < length s = laws.below (length s) (omega (arith, size)) in
    let (a, first) = get_elem?-in_range s top in_range in
    let (b, second) =
      get_elem?-in_range s bottom (omega (arith, laws.ordered (length s), in_range)) in
    record {
      fit_score = a;
      maybe_score = b;
      value = ground (arith, h, first, second);
      order =
          IsSorted-get_elem? s bottom top b a (sorted-IsSorted scores) (laws.ordered (length s))
            second first;
      from_batch = λ P all. (
        All-get_elem? P s top a (All-sorted P scores all) first,
        All-get_elem? P s bottom b (All-sorted P scores all) second,
      );
    }
