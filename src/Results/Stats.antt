-- ===== src/Results/Stats.antt =====
-- app/api/results.py: `batch_stats`. What the float products of the code come to is an argument.
pub mod Sorted
pub mod Spread
pub mod Counted
pub mod Answer
use right_hire.Base.{
  ℕ, zero, suc, ◌+◌, ◌-◌, ◌*◌, ◌/◌, ◌%◌, Bool, true, false, Option, none, some, List, [], ◌∷◌, ◌++◌,
  Text, text, Dict, lookup, insert, get_elem?, length, map, ltb, leb, ◌==◌, min, select_where,
  if◌then◌else◌,
}
use right_hire.Base.Int.{ℤ, pos, negsuc}
use right_hire.Base.Rational.{Rational, ratio, leb_ℚ, ltb_ℚ, ◌+ℚ◌, ◌-ℚ◌, ◌*ℚ◌, round_4, round_at}
use right_hire.Schemas.{Verdict, fit, maybe, reject}
use right_hire.Store.{User, Job, Candidate, Evaluation, System, of_job}
use right_hire.Http.{Handler, or_raise, ◌>>=◌, ◌>>◌}
use right_hire.Jobs.{get_owned_job}
use right_hire.Pipeline.Score.{default_thresholds}
use right_hire.Results.{scores_of, current_thresholds, verdict_text}
use right_hire.Results.Messages.{decimal}

-- `int(n * 0.70)`, `int(n * 0.30)` and `int(s / step)` in floats.
pub record Floats : Type 0 where
  pub seventy_percent : ℕ → ℕ
  pub thirty_percent : ℕ → ℕ
  pub bucket : Rational → ℤ

-- `sorted(scores)`
abbrev pub insert_score : Rational → List Rational → List Rational
insert_score a [] = a ∷ []
insert_score a (b ∷ s) = elim (leb_ℚ a b) [ true ↦ a ∷ b ∷ s | false ↦ b ∷ insert_score a s ]

unfoldable pub sorted : List Rational → List Rational
unfolding leb_ℚ
sorted [] = []
sorted (a ∷ s) = insert_score a (sorted s)

-- `s[lo] + (s[hi] - s[lo]) * (idx - lo)`
abbrev pub interpolated : Rational → Rational → ℕ → Rational
interpolated a b hundredths = a +ℚ (b -ℚ a) *ℚ ratio hundredths 99

abbrev interpolated_at : Option Rational → Option Rational → ℕ → Option Rational
interpolated_at (some a) (some b) n = some (round_4 (interpolated a b n))
interpolated_at _ _ n = none

abbrev rounded : Option Rational → Option Rational
rounded none = none
rounded (some a) = some (round_4 a)

-- Where the percentile lies, in hundredths of an index.
abbrev pub percentile_in : List Rational → ℕ → Option Rational
percentile_in s place =
    if place % 100 == 0
    then rounded (get_elem? s (place / 100))
    else interpolated_at (get_elem? s (place / 100)) (get_elem? s (suc (place / 100))) (place % 100)

-- `_percentile` for a whole `p`; none is an `IndexError`.
unfoldable pub percentile : List Rational → ℕ → Option Rational
unfolding sorted round_4 ◌+ℚ◌ ◌-ℚ◌ ◌*ℚ◌
percentile [] p = some (ratio 0 0)
percentile (a ∷ scores) p =
    percentile_in (sorted (a ∷ scores)) ((length (sorted (a ∷ scores)) - 1) * p)

-- Two optional values, both there.
abbrev pub both : {A B : Type 0} → Option A → Option B → Option (A × B)
both (some a) (some b) = some (a, b)
both _ _ = none

abbrev pub rounded_2 : Option Rational → Option Rational
rounded_2 none = none
rounded_2 (some a) = some (round_at 99 a)

-- `_suggest_thresholds`: the cutoffs "fit" and "maybe"; none is an `IndexError`.
unfoldable pub suggest_thresholds : Floats → List Rational → Option (Rational × Rational)
unfolding sorted round_at
suggest_thresholds fl scores =
    let s = sorted scores in
    if ltb (length scores) 3
    then some (ratio 70 99, ratio 40 99)
    else both (rounded_2 (get_elem? s (fl.seventy_percent (length s))))
        (rounded_2 (get_elem? s (fl.thirty_percent (length s))))

-- The label of a bucket, as `round(i * step, 1)` gives its ends.
abbrev tenth : ℕ → Text
tenth i = decimal (i / 10) ++ (text "." ++ decimal (i % 10))

unfoldable pub bucket_label : ℕ → Text
unfolding decimal
bucket_label i = tenth i ++ (text "–" ++ tenth (suc i))

-- The buckets from one on, all empty.
unfoldable pub empty_buckets : (left i : ℕ) → Dict ℕ
unfolding bucket_label
empty_buckets zero i = []
empty_buckets (suc left) i = (bucket_label i, 0) ∷ empty_buckets left (suc i)

-- `hist[label] += 1`; none is a `KeyError`, and a negative index has a label that is not there.
abbrev pub bump_label : Text → Dict ℕ → Option (Dict ℕ)
bump_label label hist = elim (lookup label hist) [
  | none ↦ none
  | some n ↦ some (insert label (suc n) hist)
]

abbrev pub bump_bucket : ℤ → Dict ℕ → Option (Dict ℕ)
bump_bucket (pos i) hist = bump_label (bucket_label (min i 9)) hist
bump_bucket (negsuc i) hist = none

unfoldable pub fill_buckets : Floats → List Rational → Dict ℕ → Option (Dict ℕ)
unfolding bucket_label
fill_buckets fl [] hist = some hist
fill_buckets fl (s ∷ scores) hist = elim (bump_bucket (fl.bucket s) hist) [
  | none ↦ none
  | some hist' ↦ fill_buckets fl scores hist'
]

-- `_build_histogram`
unfoldable pub build_histogram : Floats → List Rational → Option (Dict ℕ)
unfolding fill_buckets empty_buckets
build_histogram fl [] = some []
build_histogram fl (s ∷ scores) = fill_buckets fl (s ∷ scores) (empty_buckets 10 0)

-- `verdict_counts`
pub record VerdictCounts : Type 0 where
  pub fits : ℕ
  pub maybes : ℕ
  pub rejects : ℕ

abbrev pub count_verdict : Option Verdict → VerdictCounts → VerdictCounts
count_verdict none n = n
count_verdict (some fit) n = record n { fits = suc n.fits }
count_verdict (some maybe) n = record n { maybes = suc n.maybes }
count_verdict (some reject) n = record n { rejects = suc n.rejects }

unfoldable pub verdict_counts : List Evaluation → VerdictCounts
verdict_counts [] = record { fits = 0; maybes = 0; rejects = 0 }
verdict_counts (e ∷ es) = count_verdict e.verdict (verdict_counts es)

pub record BatchStats : Type 0 where
  pub total_candidates : ℕ
  pub evaluated : ℕ
  pub verdict_counts : VerdictCounts
  pub p25 : Rational
  pub p50 : Rational
  pub p75 : Rational
  pub p90 : Rational
  pub histogram : Dict ℕ
  pub suggested_thresholds : Rational × Rational
  pub current_thresholds : Dict Rational

abbrev pub of_same_job : ℕ → Evaluation → Bool
of_same_job job_id e = e.job_id == job_id

abbrev pub job_scores : ℕ → System → List Rational
job_scores job_id s = scores_of (select_where (of_same_job job_id) s.evaluations)

-- The four percentiles, and the histogram with the suggestion, put together.
abbrev pub assembled :
    Job
    → System
    → Option ((Rational × Rational) × (Rational × Rational))
    → Option (Dict ℕ × (Rational × Rational))
    → Option BatchStats
assembled job s (some ((p25, p50), (p75, p90))) (some (histogram, suggested)) =
    let es = select_where (of_same_job job.id) s.evaluations in
    some (record {
      total_candidates = length (select_where (of_job job.id) s.candidates);
      evaluated = length es;
      verdict_counts = verdict_counts es;
      p25 = p25;
      p50 = p50;
      p75 = p75;
      p90 = p90;
      histogram = histogram;
      suggested_thresholds = suggested;
      current_thresholds = current_thresholds job;
    })
assembled job s _ _ = none

abbrev pub stats_of : Floats → Job → System → Option BatchStats
stats_of fl job s =
    let scores = job_scores job.id s in
    assembled job s
      (both (both (percentile scores 25) (percentile scores 50))
        (both (percentile scores 75) (percentile scores 90)))
      (both (build_histogram fl scores) (suggest_thresholds fl scores))

-- The statistics, or the 500 of an exception.
abbrev pub stats : Floats → Job → Handler BatchStats
stats fl job s = or_raise (stats_of fl job s) 500 s

-- `batch_stats`
unfoldable pub batch_stats : Floats → ℕ → User → Handler BatchStats
unfolding percentile build_histogram suggest_thresholds verdict_counts
batch_stats fl job_id user = do job ← get_owned_job job_id user; stats fl job
