-- ===== src/Pipeline/Score/Bands.antt =====
-- app/pipeline/score.py: the bands of `apply_thresholds`.
use right_hire.Base.{ℕ, ◌≤◌, ◌≡◌, arith, true, Dict}
use right_hire.Base.Rational.{Rational, leb_ℚ, leb_ℚ_trans}
use right_hire.Schemas.{Verdict, fit, maybe, reject}
use right_hire.Pipeline.Score.{fit_cutoff, maybe_cutoff, apply_thresholds}

-- Reject, Maybe, Fit in this order.
abbrev pub standing : Verdict → ℕ
standing reject = 0
standing maybe = 1
standing fit = 2

-- Under the same thresholds, whatever they are, a higher score never has a lower verdict.
pub apply_thresholds_mono :
    (a b : Rational) (thresholds : Dict Rational)
    → leb_ℚ a b ≡ true
    → standing (apply_thresholds a thresholds) ≤ standing (apply_thresholds b thresholds)
unfolding apply_thresholds
apply_thresholds_mono a b thresholds h =
    ground
      (arith, leb_ℚ_trans (fit_cutoff thresholds) a b, leb_ℚ_trans (maybe_cutoff thresholds) a b)
