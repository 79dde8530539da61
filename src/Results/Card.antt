-- ===== src/Results/Card.antt =====
-- app/api/results.py: `_build_reasoning_card`. What str() makes of an exception is an argument.
pub mod Rank
use right_hire.Base.{
  ℕ, zero, suc, ◌+◌, ◌*◌, ◌-◌, ◌/◌, ◌%◌, ◌^◌, Bool, true, false, not, ◌&&◌, ◌||◌, Option, none,
  some, List, [], ◌∷◌, ◌++◌, Text, text, text_eq, Dict, lookup, lookup_or, length, count_where, leb,
  ltb, ◌==◌, is_empty, is_some, if◌then◌else◌,
}
use right_hire.Base.Int.{ℤ, pos, negsuc, pos_part, neg_part}
use right_hire.Base.Rational.{
  Rational, ratio, den, ltb_ℚ, leb_ℚ, nearest, ◌-ℚ◌, abs_ℚ, min_ℚ, round_at,
}
use right_hire.Schemas.{Verdict, fit, maybe, reject}
use right_hire.Store.{Evaluation, Failure, Breakdown, Reason, said, error, skills, breakdown}
use right_hire.Pipeline.Score.{default_thresholds}
use right_hire.Results.{verdict_text}
use right_hire.Results.Messages.{decimal, friendly_error}

pub data Confidence : Type 0 where
  low medium high : Confidence

pub record ReasoningCard : Type 0 where
  pub verdict : Text
  pub final_score : Rational
  pub rank : Option ℕ
  pub cohort_size : ℕ
  pub percentile : Option Rational
  pub score_breakdown : Option Breakdown
  pub criterion_scores : Dict Rational
  pub criterion_reasons : Dict Text
  pub matched_skills : List Text
  pub summary : Text
  pub confidence : Option Confidence
  pub error : Option Text

-- `_confidence_band`
unfoldable pub confidence_band : Rational → Dict Rational → Confidence
unfolding ◌-ℚ◌ ltb_ℚ
confidence_band score thresholds =
    let fit = lookup_or (text "fit") (ratio 70 99) thresholds in
    let maybe = lookup_or (text "maybe") (ratio 40 99) thresholds in
    let distance = min_ℚ (abs_ℚ (score -ℚ fit)) (abs_ℚ (score -ℚ maybe)) in
    if ltb_ℚ distance (ratio 5 99)
    then low
    else if ltb_ℚ distance (ratio 15 99)
    then medium
    else high

-- `1 + sum(1 for s in all_scores if s > score)` where there are scores.
unfoldable pub rank_of : Rational → List Rational → Option ℕ
unfolding ltb_ℚ
rank_of score [] = none
rank_of score (s ∷ scores) = some (1 + count_where (ltb_ℚ score) (s ∷ scores))

-- `round(below / cohort_size * 100, 1)` from ten scores on, where `below` scores are lower.
unfoldable pub percentile_of : Rational → List Rational → Option Rational
unfolding ltb_ℚ round_at
percentile_of score scores =
    if leb 10 (length scores)
    then some
        (round_at 9 (ratio (count_where (λ s. ltb_ℚ s score) scores * 100) (length scores - 1)))
    else none

-- A reason that is a string, as text; the skills and the breakdown are none.
abbrev pub reason_text : (Failure → Text) → Reason → Option Text
reason_text shown (said t) = some t
reason_text shown (Reason.error f) = some (shown f)
reason_text shown (skills _) = none
reason_text shown (breakdown _) = none

-- Without the breakdown, which was popped, and the skills.
abbrev is_criterion : Text → Bool
is_criterion k = not (text_eq k (text "_score_breakdown") || text_eq k (text "matched_skills"))

abbrev pub criterion_reasons : (Failure → Text) → Dict Reason → Dict Text
criterion_reasons shown [] = []
criterion_reasons shown ((k, r) ∷ d) =
    let rest = criterion_reasons shown d in
    elim (reason_text shown r) [
      | none ↦ rest
      | some t ↦ if is_criterion k then (k, t) ∷ rest else rest
    ]

-- `reasons.get("error")`
abbrev pub error_text : (Failure → Text) → Dict Reason → Option Text
error_text shown d = elim (lookup (text "error") d) [ none ↦ none | some r ↦ reason_text shown r ]

abbrev pub matched_skills : Dict Reason → List Text
matched_skills d = elim (lookup (text "matched_skills") d) [ some (skills l) ↦ l | _ ↦ [] ]

abbrev breakdown_in : Dict Reason → Option Breakdown
breakdown_in d = elim (lookup (text "_score_breakdown") d) [
  | some (breakdown b) ↦ some b
  | _ ↦ none
]

-- `min(scores, key=scores.get)`, with its score: the first of the lowest.
abbrev lower_of : Text × Rational → Option (Text × Rational) → Text × Rational
lower_of a none = a
lower_of a (some b) = if ltb_ℚ b.1 a.1 then b else a

unfoldable pub weakest : Dict Rational → Option (Text × Rational)
unfolding ltb_ℚ
weakest [] = none
weakest (e ∷ d) = some (lower_of e (weakest d))

-- `k.replace("_", " ")`
abbrev spaced : Text → Text
spaced [] = []
spaced (c ∷ t) = (if c == 95 then 32 else c) ∷ spaced t

-- `f"{a:.2f}"`, for a number of places: the digits behind the point are those of what is left of the
-- whole part.
abbrev pub sign_text : ℤ → Text
sign_text (pos _) = []
sign_text (negsuc _) = text "-"

abbrev places_from : ℕ → ℕ → Text → Text
places_from zero n tail = tail
places_from (suc k) n tail = places_from k (n / 10) ((48 + n % 10) ∷ tail)

unfoldable pub fixed : ℕ → Rational → Text
unfolding nearest decimal
fixed places a =
    let n = nearest ((pos_part a.num + neg_part a.num) * 10 ^ places) (den a) in
    sign_text a.num ++ (decimal (n / 10 ^ places) ++ (text "." ++ places_from places n []))

abbrev plural : List Text → Text
plural l = if length l == 1 then [] else text "s"

abbrev skills_str : List Text → Text
skills_str [] = text "no required skills matched"
skills_str (t ∷ l) =
    decimal (length (t ∷ l)) ++ (text " required skill" ++ (plural (t ∷ l) ++ text " confirmed"))

abbrev lead : List Text → Text
lead [] = text "Strong match"
lead ([] ∷ l) = text "Strong match"
lead ((c ∷ t) ∷ l) = text "Strong match (incl. " ++ ((c ∷ t) ++ text ")")

abbrev no_requirements : Text
no_requirements = text "Does not meet the minimum requirements for this role"

abbrev weak_summary : Text × Rational → Option Text → Text
weak_summary (k, s) (some (c ∷ t)) =
    text "Weak on " ++ (spaced k ++ (text " (" ++ (fixed 2 s ++ (text ") — " ++ (c ∷ t)))))
weak_summary (k, s) _ = no_requirements ++ (text " (weak " ++ (spaced k ++ text ")"))

abbrev reject_summary : Dict Text → Dict Rational → Text
reject_summary reasons rubric = elim (lookup (text "filter") reasons) [
  | some t ↦ t
  | none ↦ elim (weakest rubric) [
    | none ↦ no_requirements
    | some w ↦ weak_summary w (lookup w.0 reasons)
  ]
]

abbrev verdict_summary : Verdict → List Text → Dict Text → Dict Rational → Text
verdict_summary fit matched reasons rubric = lead matched ++ (text " — " ++ skills_str matched)
verdict_summary maybe matched reasons rubric =
    text "Borderline candidate — "
    ++ (skills_str matched ++ text ". Review manually before deciding")
verdict_summary reject matched reasons rubric = reject_summary reasons rubric

-- The rank, only where there is someone to rank against, and the full stop.
abbrev rank_suffix : Option ℕ → ℕ → Text
rank_suffix none size = text "."
rank_suffix (some r) size =
    if leb 2 size
    then text " (ranked #" ++ (decimal r ++ (text " of " ++ (decimal size ++ text ").")))
    else text "."

unfoldable pub summary_of : Verdict → List Text → Dict Text → Dict Rational → Option ℕ → ℕ → Text
unfolding weakest fixed decimal
summary_of v matched reasons rubric rank size =
    verdict_summary v matched reasons rubric ++ rank_suffix rank size

-- `eval_obj.reasons or {}`, and the like.
abbrev pub or_empty : {A : Type 0} → Option (Dict A) → Dict A
or_empty none = []
or_empty (some d) = d

abbrev pub score_or_zero : Option Rational → Rational
score_or_zero none = ratio 0 0
score_or_zero (some s) = s

abbrev unprocessed_card : (Failure → Text) → Evaluation → List Rational → ReasoningCard
unprocessed_card shown e scores = record {
  verdict = text "Unprocessed";
  final_score = ratio 0 0;
  rank = none;
  cohort_size = length scores;
  percentile = none;
  score_breakdown = none;
  criterion_scores = [];
  criterion_reasons = [];
  matched_skills = [];
  summary = friendly_error (error_text shown (or_empty e.reasons));
  confidence = none;
  error = some (friendly_error (error_text shown (or_empty e.reasons)));
}

abbrev decided_card :
    (Failure → Text) → Evaluation → Verdict → List Rational → Dict Rational → ReasoningCard
decided_card shown e v scores thresholds =
    let score = score_or_zero e.score in
    let reasons = or_empty e.reasons in
    record {
      verdict = verdict_text v;
      final_score = score;
      rank = rank_of score scores;
      cohort_size = length scores;
      percentile = percentile_of score scores;
      score_breakdown = breakdown_in reasons;
      criterion_scores = or_empty e.rubric;
      criterion_reasons = criterion_reasons shown reasons;
      matched_skills = matched_skills reasons;
      summary =
          summary_of v (matched_skills reasons) (criterion_reasons shown reasons)
            (or_empty e.rubric) (rank_of score scores) (length scores);
      confidence = some (confidence_band score thresholds);
      error = none;
    }

abbrev pub card_of :
    (Failure → Text) → Evaluation → List Rational → Dict Rational → Option Verdict → ReasoningCard
card_of shown e scores thresholds none = unprocessed_card shown e scores
card_of shown e scores thresholds (some v) = decided_card shown e v scores thresholds

-- `_build_reasoning_card`, with the thresholds of the caller.
unfoldable pub build_reasoning_card :
    (Failure → Text) → Evaluation → List Rational → Dict Rational → ReasoningCard
unfolding friendly_error rank_of percentile_of summary_of confidence_band
build_reasoning_card shown e scores thresholds = card_of shown e scores thresholds e.verdict
