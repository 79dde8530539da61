-- ===== src/Ui/Queue/Calibrate/Apart.antt =====
-- The two sliders: where Fit is above zero, neither can bring Maybe up to it.
use right_hire.Base.{
  ℕ, suc, ◌+◌, ◌*◌, ◌≤◌, ◌≡◌, true, false, inl, inr, Bool-cases, arith, le→leb, if◌then◌else◌,
}
use right_hire.Base.Int.{ℤ, pos, negsuc, pos_part, neg_part}
use right_hire.Base.Rational.{Rational, ratio, leb_ℚ, ltb_ℚ, leb_ℚ_trans, ◌-ℚ◌, min_ℚ, round_at}
use right_hire.Base.Rational.Rounding.{nearest_bound}
use right_hire.Base.Rational.Between.{minus_parts}
use right_hire.Ui.Queue.{ResultsState}
use right_hire.Ui.Queue.Calibrate.{
  round_2, at_least_0, ceiling, set_draft_fit_threshold, set_draft_maybe_threshold,
}

-- A fraction of at most `k` hundredths is rounded to at most `k` hundredths.
round_2_bound :
    (x : ℤ) (d k : ℕ)
    → pos_part x * 100 ≤ k * suc d
    → leb_ℚ (round_2 (record { num = x; den_pred = d })) (ratio k 99) ≡ true
unfolding leb_ℚ round_at
round_2_bound (pos n) d k h =
    le→leb _ _ (omega (arith, nearest_bound ((n + 0) * 100) d k (omega (arith, h))))
round_2_bound (negsuc n) d k h = ground arith

-- A gap below so many hundredths.
gap_bound :
    (x : ℤ) (k : ℕ) → pos_part x + 500 ≡ neg_part x + suc k * 100 → pos_part x * 100 ≤ k * 10000
gap_bound (pos n) k h = omega (arith, h)
gap_bound (negsuc n) k h = omega arith

ceiling_bound : (k : ℕ) → leb_ℚ (ceiling (ratio (suc k) 99)) (ratio k 99) ≡ true
unfolding ◌-ℚ◌
ceiling_bound k = round_2_bound (ratio (suc k) 99 -ℚ ratio 5 99).num 9999 k (
    gap_bound (ratio (suc k) 99 -ℚ ratio 5 99).num k
      (omega (arith, minus_parts (ratio (suc k) 99) (ratio 5 99))))

module _ (k : ℕ) where
  below_fit : (m : Rational) → leb_ℚ m (ratio k 99) ≡ true → leb_ℚ (ratio (suc k) 99) m ≡ false
  unfolding leb_ℚ
  below_fit m h = elim (Bool-cases (leb_ℚ (ratio (suc k) 99) m)) [
    | inr g ↦ g
    | inl g ↦
        let over = leb_ℚ_trans (ratio (suc k) 99) m (ratio k 99) g h in
        absurd (ground (arith, over))
  ]

  capped : (c : Rational) → leb_ℚ c (ratio k 99) ≡ true → leb_ℚ (at_least_0 c) (ratio k 99) ≡ true
  unfolding leb_ℚ
  capped c h = elim (Bool-cases (ltb_ℚ (ratio 0 0) c)) [
    | inl t ↦ rw t h
    | inr t ↦ rw t (le→leb _ _ (omega arith))
  ]

  under_min : (a c : Rational) → leb_ℚ c (ratio k 99) ≡ true → leb_ℚ (min_ℚ a c) (ratio k 99) ≡ true
  unfolding leb_ℚ ltb_ℚ
  under_min a c h = elim (Bool-cases (ltb_ℚ c a)) [
    | inl t ↦ rw t h
    | inr t ↦ rw t (leb_ℚ_trans a c (ratio k 99) (ground (arith, t)) h)
  ]

  pushed :
      (old : Rational)
      → leb_ℚ
          (if ltb_ℚ (ceiling (ratio (suc k) 99)) old
            then at_least_0 (ceiling (ratio (suc k) 99))
            else old)
          (ratio k 99)
        ≡ true
  unfolding leb_ℚ ltb_ℚ
  pushed old =
      let c = ceiling (ratio (suc k) 99) in
      elim (Bool-cases (ltb_ℚ c old)) [
        | inl t ↦ rw t (capped c (ceiling_bound k))
        | inr t ↦ rw t (leb_ℚ_trans old c (ratio k 99) (ground (arith, t)) (ceiling_bound k))
      ]

  fit_pushes :
      (fit old : Rational)
      → fit ≡ ratio (suc k) 99
      → leb_ℚ fit (if ltb_ℚ (ceiling fit) old then at_least_0 (ceiling fit) else old) ≡ false
  fit_pushes fit old h = rw h (below_fit _ (pushed old))

  maybe_stops :
      (fit value : Rational)
      → fit ≡ ratio (suc k) 99
      → leb_ℚ fit (at_least_0 (min_ℚ value (ceiling fit))) ≡ false
  maybe_stops fit value h =
      let c = ceiling (ratio (suc k) 99) in
      rw h (below_fit _ (capped (min_ℚ value c) (under_min value c (ceiling_bound k))))

-- Where the Fit slider is set to one hundredth or more, Maybe is below Fit after that, and after the
-- Maybe slider is set to whatever it is, so the thresholds can be applied.
pub set_draft_fit_threshold_apart :
    (st : ResultsState) (fit maybe : Rational) (k : ℕ)
    → round_2 fit ≡ ratio (suc k) 99
    → (let st' = set_draft_fit_threshold fit st in
        let st'' = set_draft_maybe_threshold maybe st' in
        (leb_ℚ st'.draft_fit_threshold st'.draft_maybe_threshold ≡ false)
        × (leb_ℚ st''.draft_fit_threshold st''.draft_maybe_threshold ≡ false))
unfolding set_draft_fit_threshold set_draft_maybe_threshold
set_draft_fit_threshold_apart st fit maybe k h = (
  fit_pushes k (round_2 fit) st.draft_maybe_threshold h,
  maybe_stops k (round_2 fit) (round_2 maybe) h,
)
