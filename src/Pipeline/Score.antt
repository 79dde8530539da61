-- ===== src/Pipeline/Score.antt =====
-- app/pipeline/score.py.
pub mod Bands
use right_hire.Base.{
  Option, none, some, List, [], ◌∷◌, ◌++◌, Text, text, Dict, lookup_or, merge, if◌then◌else◌,
}
use right_hire.Base.Rational.{Rational, ratio, leb_ℚ, ◌+ℚ◌, ◌*ℚ◌, divide, clamp_unit, round_4}
use right_hire.Schemas.{Verdict, fit, maybe, reject, JudgeOutput}
use right_hire.Store.{Breakdown}

-- `_DEFAULT_WEIGHTS` and `_DEFAULT_THRESHOLDS`.
abbrev pub default_weights : Dict Rational
default_weights =
    (text "skill_overlap", ratio 30 99)
    ∷ (text "cosine", ratio 20 99)
    ∷ (text "judge", ratio 50 99)
    ∷ []

abbrev pub default_thresholds : Dict Rational
default_thresholds = (text "fit", ratio 70 99) ∷ (text "maybe", ratio 40 99) ∷ []

-- The cutoffs after the merge with the defaults, which has both keys.
abbrev pub fit_cutoff : Dict Rational → Rational
fit_cutoff thresholds = lookup_or (text "fit") (ratio 70 99) (merge default_thresholds thresholds)

abbrev pub maybe_cutoff : Dict Rational → Rational
maybe_cutoff thresholds =
    lookup_or (text "maybe") (ratio 40 99) (merge default_thresholds thresholds)

unfoldable pub apply_thresholds : Rational → Dict Rational → Verdict
apply_thresholds score thresholds =
    if leb_ℚ (fit_cutoff thresholds) score
    then fit
    else (if leb_ℚ (maybe_cutoff thresholds) score then maybe else reject)

abbrev weight : Text → Dict Rational → Rational
weight key weights = lookup_or key (ratio 0 0) (merge default_weights weights)

abbrev pub total_weight : Dict Rational → Rational
total_weight ws =
    weight (text "skill_overlap") ws +ℚ weight (text "cosine") ws +ℚ weight (text "judge") ws

-- The scores that `aggregate_score` is given, before they are clamped.
pub record Signals : Type 0 where
  pub skill_overlap : Rational
  pub cosine_sim : Rational
  pub overall_score : Rational

abbrev weighted : Dict Rational → Signals → Rational
weighted ws g =
    weight (text "skill_overlap") ws *ℚ clamp_unit g.skill_overlap
    +ℚ weight (text "cosine") ws *ℚ clamp_unit g.cosine_sim
    +ℚ weight (text "judge") ws *ℚ clamp_unit g.overall_score

-- One rounded share of the total; the division is by the total weight.
abbrev share : Dict Rational → Text → Rational → Option Rational
share ws key value = elim (divide (weight key ws *ℚ clamp_unit value) (total_weight ws)) [
  | none ↦ none
  | some q ↦ some (round_4 q)
]

abbrev entry : Dict Rational → Text → Rational → Dict Rational
entry ws key value = elim (share ws key value) [ none ↦ [] | some q ↦ (key, q) ∷ [] ]

abbrev contributions : Dict Rational → Signals → Dict Rational
contributions ws g =
    entry ws (text "skill_overlap") g.skill_overlap
    ++ (entry ws (text "cosine") g.cosine_sim ++ entry ws (text "judge") g.overall_score)

abbrev breakdown_of : Dict Rational → Signals → Breakdown
breakdown_of ws g = record {
  skill_overlap = round_4 (clamp_unit g.skill_overlap);
  cosine_sim = round_4 (clamp_unit g.cosine_sim);
  judge_score = round_4 (clamp_unit g.overall_score);
  weights =
      (text "skill_overlap", weight (text "skill_overlap") ws)
      ∷ (text "cosine", weight (text "cosine") ws)
      ∷ (text "judge", weight (text "judge") ws)
      ∷ [];
  contributions = contributions ws g;
}

-- `aggregate_score`; none is the `ZeroDivisionError` of weights that sum to zero.
unfoldable pub aggregate_score : Dict Rational → Signals → Option (Rational × Verdict × Breakdown)
unfolding apply_thresholds
aggregate_score ws g = elim (divide (weighted ws g) (total_weight ws)) [
  | none ↦ none
  | some q ↦ some (round_4 q, apply_thresholds (round_4 q) [], breakdown_of ws g)
]
