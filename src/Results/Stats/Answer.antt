-- ===== src/Results/Stats/Answer.antt =====
-- app/api/results.py: when `batch_stats` answers, and with what counts.
use right_hire.Base.{
  ℕ, ◌≤◌, ◌≡◌, refl, ◌⊎◌, inl, inr, true, false, Bool-cases, arith, Option, none, some, List, [],
  ◌∷◌, Dict, length, All, ltb, All-map_imp, All-both, count_where, length-select_where,
  select_where,
}
use right_hire.Base.Rational.{Rational, ratio, leb_ℚ, leb_ℚ_total, leb_ℚ_refl, leb_ℚ_trans}
use right_hire.Store.{User, Job, Evaluation, System, of_job}
use right_hire.Http.{Result, ok, err, or_raise}
use right_hire.Http.Reads.{raised, went_on, ran}
use right_hire.Jobs.{get_owned_job, Reads-get_owned_job, IsOwnedJob, get_owned_job-IsOwnedJob}
use right_hire.Results.{scores_of, current_thresholds}
use right_hire.Results.Stats.{
  Floats, of_same_job, job_scores, percentile, build_histogram, suggest_thresholds, BatchStats,
  both, assembled, stats_of, stats, batch_stats,
}
use right_hire.Results.Stats.Spread.{IsRounding, percentile-IsBetween, suggest_thresholds-IsCutoffs}
use right_hire.Results.Stats.Counted.{
  total, all_counted, Histogram, build_histogram-Histogram, Judged, verdict_counts-Judged,
}

lower_bound : (scores : List Rational) → (lo : Rational) × All (λ s. leb_ℚ lo s ≡ true) scores
lower_bound [] = (ratio 0 0, tt)
lower_bound (a ∷ scores) =
    let (lo, h) = lower_bound scores in
    elim (Bool-cases (leb_ℚ a lo)) [
      | inl t ↦ (
        a,
        (
          leb_ℚ_refl a,
          All-map_imp (λ s. leb_ℚ lo s ≡ true) (λ s. leb_ℚ a s ≡ true) scores
              (λ s. leb_ℚ_trans a lo s t) h,
        ),
      )
      | inr t ↦ (lo, (leb_ℚ_total a lo t, h))
    ]

upper_bound : (scores : List Rational) → (hi : Rational) × All (λ s. leb_ℚ s hi ≡ true) scores
upper_bound [] = (ratio 0 0, tt)
upper_bound (a ∷ scores) =
    let (hi, h) = upper_bound scores in
    elim (Bool-cases (leb_ℚ hi a)) [
      | inl t ↦ (
        a,
        (
          leb_ℚ_refl a,
          All-map_imp (λ s. leb_ℚ s hi ≡ true) (λ s. leb_ℚ s a ≡ true) scores
              (λ s k. leb_ℚ_trans s hi a k t) h,
        ),
      )
      | inr t ↦ (hi, (leb_ℚ_total hi a t, h))
    ]

-- A percentile is found for any list.
percentile_found :
    (scores : List Rational) (p : ℕ) → p ≤ 100 → (a : Rational) × (percentile scores p ≡ some a)
unfolding percentile
percentile_found [] p h = (ratio 0 0, refl)
percentile_found (a ∷ scores) p h =
    let (lo, low) = lower_bound (a ∷ scores) in
    let (hi, high) = upper_bound (a ∷ scores) in
    let found =
      percentile-IsBetween a scores p lo hi h
        (All-both (λ s. leb_ℚ lo s ≡ true) (λ s. leb_ℚ s hi ≡ true) (a ∷ scores) low high) in
    (_, found.value)

few_scores :
    (fl : Floats) (scores : List Rational)
    → ltb (length scores) 3 ≡ true
    → suggest_thresholds fl scores ≡ some (ratio 70 99, ratio 40 99)
unfolding suggest_thresholds
few_scores fl scores t = rw t refl

suggestion_found :
    (fl : Floats) (scores : List Rational)
    → IsRounding fl
    → (c : Rational × Rational) × (suggest_thresholds fl scores ≡ some c)
suggestion_found fl scores laws = elim (Bool-cases (ltb (length scores) 3)) [
  | inl t ↦ (_, few_scores fl scores t)
  | inr t ↦ let c = suggest_thresholds-IsCutoffs fl scores laws (ground (arith, t)) in (_, c.value)
]

-- The numbers of an answer, against the rows of the job.
pub record Adds (fl : Floats) (job : Job) (s : System) (b : BatchStats) : Type 0 where
  pub candidates : b.total_candidates ≡ count_where (of_job job.id) s.candidates
  pub evaluated : b.evaluated ≡ count_where (of_same_job job.id) s.evaluations
  pub verdicts : Judged (select_where (of_same_job job.id) s.evaluations) b.verdict_counts
  pub p25 : percentile (job_scores job.id s) 25 ≡ some b.p25
  pub p50 : percentile (job_scores job.id s) 50 ≡ some b.p50
  pub p75 : percentile (job_scores job.id s) 75 ≡ some b.p75
  pub p90 : percentile (job_scores job.id s) 90 ≡ some b.p90
  pub suggested : suggest_thresholds fl (job_scores job.id s) ≡ some b.suggested_thresholds
  pub current : b.current_thresholds ≡ current_thresholds job
  pub histogram : total b.histogram ≡ length (job_scores job.id s)
  pub scored : total b.histogram ≤ b.evaluated

length-scores_of : (es : List Evaluation) → length (scores_of es) ≤ length es
length-scores_of [] = omega arith
length-scores_of (e ∷ es) = ground (arith, length-scores_of es)

abbrev pub Answer : Floats → Job → System → Option BatchStats → Type 0
Answer fl job s none = all_counted fl (job_scores job.id s) ≡ false
Answer fl job s (some b) = Adds fl job s b

module _ (fl : Floats) (laws : IsRounding fl) (job : Job) (s : System) where
  abbrev es : List Evaluation
  es = select_where (of_same_job job.id) s.evaluations

  abbrev scores : List Rational
  scores = job_scores job.id s

  -- The percentiles and the suggestion are there; the histogram decides.
  assembled-Answer :
      (ps : (Rational × Rational) × (Rational × Rational)) (c : Rational × Rational)
      (hist : Option (Dict ℕ))
      → percentile scores 25 ≡ some ps.0.0
      → percentile scores 50 ≡ some ps.0.1
      → percentile scores 75 ≡ some ps.1.0
      → percentile scores 90 ≡ some ps.1.1
      → suggest_thresholds fl scores ≡ some c
      → Histogram fl scores hist
      → Answer fl job s (assembled job s (some ps) (both hist (some c)))
  assembled-Answer ps c none h25 h50 h75 h90 hc h = h
  assembled-Answer ps c (some d) h25 h50 h75 h90 hc h = record {
    candidates = length-select_where (of_job job.id) s.candidates;
    evaluated = length-select_where (of_same_job job.id) s.evaluations;
    verdicts = verdict_counts-Judged es;
    p25 = h25;
    p50 = h50;
    p75 = h75;
    p90 = h90;
    suggested = hc;
    current = refl;
    histogram = h.0;
    scored = omega (arith, h.0, length-scores_of es);
  }

  stats_of-Answer : Answer fl job s (stats_of fl job s)
  stats_of-Answer =
      let p25 = percentile_found scores 25 (omega arith) in
      let p50 = percentile_found scores 50 (omega arith) in
      let p75 = percentile_found scores 75 (omega arith) in
      let p90 = percentile_found scores 90 (omega arith) in
      let c = suggestion_found fl scores laws in
      rw (p25.1, p50.1, p75.1, p90.1, c.1)
        (assembled-Answer ((p25.0, p50.0), (p75.0, p90.0)) c.0 (build_histogram fl scores) p25.1
          p50.1 p75.1 p90.1 c.1 (build_histogram-Histogram fl scores))

-- What the request answers with.
abbrev pub Outcome : Floats → ℕ → User → System → Result BatchStats × System → Type 0
Outcome fl job_id user s (ok b, s') =
    (s' ≡ s) × ((job : Job) × IsOwnedJob job_id user s job × Adds fl job s b)
Outcome fl job_id user s (err e, s') =
    (s' ≡ s)
    × ((e ≡ 404)
        ⊎ ((e ≡ 500)
            × ((job : Job) × IsOwnedJob job_id user s job
                × (all_counted fl (job_scores job.id s) ≡ false))))

module _ (fl : Floats) (laws : IsRounding fl) (job_id : ℕ) (user : User) (s : System) where
  answered :
      (job : Job) (o : Option BatchStats)
      → IsOwnedJob job_id user s job
      → Answer fl job s o
      → Outcome fl job_id user s (or_raise o 500 s)
  answered job none own h = (refl, inr (refl, (job, own, h)))
  answered job (some b) own h = (refl, (job, own, h))

  refused_404 : {e : ℕ} → (get_owned_job job_id user s).0 ≡ err e → e ≡ 404
  refused_404 h = ground (arith, h)

  -- For a job that is the user's, the statistics are answered: with the number of its candidates and of
  -- its evaluations, the number of each verdict, which with those without one add up to the evaluations,
  -- a histogram that adds up to the scores, and the percentiles, the suggestion and the thresholds of the
  -- job. They fail with 500 just when the bucket of some score
  -- has a negative number; any other job is a 404.
  pub batch_stats-Outcome : Outcome fl job_id user s (batch_stats fl job_id user s)
  unfolding batch_stats
  batch_stats-Outcome =
      elim (ran (get_owned_job job_id user) (stats fl) s (Reads-get_owned_job job_id user)) [
        | raised e h out ↦ rw out (refl, inl (refused_404 h))
        | went_on job h out ↦ rw out (
            answered job (stats_of fl job s) (get_owned_job-IsOwnedJob job_id user s h)
              (stats_of-Answer fl laws job s))
      ]
