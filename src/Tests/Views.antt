-- ===== src/Tests/Views.antt =====
-- Concrete requests to the results API.
use right_hire.Base.{
  ℕ, ◌+◌, ◌*◌, ◌/◌, ◌≡◌, refl, arith, true, Option, none, some, List, [], ◌∷◌, Text, text, All, any,
}
use right_hire.Base.Int.{pos, negsuc}
use right_hire.Base.Rational.{Rational, ratio, leb_ℚ}
use right_hire.Schemas.{EvaluationUpdate, fit, maybe, reject}
use right_hire.Store.{Failure, Evaluation, System}
use right_hire.Http.{ok, err}
use right_hire.Results.{latest_evaluation}
use right_hire.Results.Latest.{LatestOf, latest_evaluation-LatestOf}
use right_hire.Results.Messages.{Details, message}
use right_hire.Results.Card.{rank_of, build_reasoning_card}
use right_hire.Results.Card.Rank.{Presents, build_reasoning_card-Presents}
use right_hire.Store.{Candidate}
use right_hire.Results.Pages.{list_results, export_results_csv}
use right_hire.Results.Pages.Listed.{Listing, list_results-Listing}
use right_hire.Results.Pages.Export.{Exported, export_results_csv-Exported}
use right_hire.Results.Overrides.{update_evaluation}
use right_hire.Results.Overrides.Kept
use right_hire.Results.Overrides.Kept.{
  DeleteOutcome, update_evaluation-Outcome, delete_evaluation-Outcome,
}
use right_hire.Results.Stats.{Floats, batch_stats}
use right_hire.Results.Stats.Spread.{IsRounding}
use right_hire.Results.Stats.Answer
use right_hire.Results.Stats.Answer.{batch_stats-Outcome}
use right_hire.Tests.{recruiter, stored}

abbrev details : Details
details = record { link = text "'drive'"; path = text "storage/11.pdf"; cause = text "timeout" }

abbrev shown : Failure → Text
shown = message details

abbrev evaluation : ℕ → ℕ → ℕ → Option Rational → Evaluation
evaluation i candidate_id created_at score = record {
  id = i;
  candidate_id = candidate_id;
  job_id = 7;
  rubric = some ((text "technical_fit", ratio 1 3) ∷ []);
  score = score;
  verdict = elim score [ none ↦ none | some s ↦ some reject ];
  reasons = none;
  model_used = some (text "judge");
  cache_key = none;
  created_at = created_at;
}

-- A candidate with a failed evaluation and a later one, and a candidate who fits.
abbrev pub evaluated : System
evaluated = record stored {
  db = record stored.db {
    evaluations =
        evaluation 91 11 30 none
        ∷ evaluation 92 11 40 (some (ratio 1 3))
        ∷ record (evaluation 93 12 40 (some (ratio 3 3))) { verdict = some fit }
        ∷ [];
  };
}

latest_evaluation-LatestOf_example :
    LatestOf 11 evaluated.evaluations (latest_evaluation 11 evaluated.evaluations)
latest_evaluation-LatestOf_example = latest_evaluation-LatestOf 11 evaluated.evaluations

abbrev scores : List Rational
scores = ratio 1 1 ∷ ratio 1 3 ∷ ratio 3 3 ∷ []

half_below : leb_ℚ (ratio 1 1) (ratio 3 3) ≡ true
unfolding leb_ℚ
half_below = refl

half_there : any (λ s. leb_ℚ s (ratio 1 1)) scores ≡ true
unfolding leb_ℚ
half_there = refl

half_ranks : rank_of (ratio 1 1) scores ≡ some 2
unfolding rank_of
half_ranks = refl

most_ranks : rank_of (ratio 3 3) scores ≡ some 1
unfolding rank_of
most_ranks = refl

build_reasoning_card-Presents_example :
    Presents
      (evaluation 91 11 30 none)
      3
      none
      (build_reasoning_card shown (evaluation 91 11 30 none) scores [])
build_reasoning_card-Presents_example =
    build_reasoning_card-Presents shown (evaluation 91 11 30 none) scores []

card_summary :
    (build_reasoning_card shown (evaluation 92 11 40 (some (ratio 1 3))) scores []).summary
    ≡ text
        "Does not meet the minimum requirements for this role (weak technical fit) (ranked #3 of 3)."
unfolding build_reasoning_card
card_summary = refl

-- The order of the table.
abbrev stored_order : List Candidate → List Candidate
stored_order cs = cs

list_results-Listing_example :
    Listing shown 7
      (some (text "Reject"))
      50
      recruiter
      evaluated
      (list_results shown stored_order 7 (some (text "Reject")) 0 50 recruiter evaluated)
list_results-Listing_example =
    list_results-Listing shown stored_order 7 (some (text "Reject")) 0 50 recruiter evaluated
      (λ p cs. refl)

-- The filter comes after the limit: the first page is empty though the second is not.
empty_page :
    (list_results shown stored_order 7 (some (text "Fit")) 0 1 recruiter evaluated).0 ≡ ok []
unfolding list_results
empty_page = refl

export_results_csv-Exported_example :
    Exported shown 7 evaluated (export_results_csv shown 7 none recruiter evaluated)
export_results_csv-Exported_example = export_results_csv-Exported shown 7 recruiter evaluated

abbrev to_maybe : EvaluationUpdate
to_maybe = record { verdict = some maybe; score = none }

update_evaluation-Outcome_example :
    Kept.Outcome shown 92 to_maybe recruiter evaluated
      (update_evaluation shown 92 to_maybe recruiter evaluated)
update_evaluation-Outcome_example = update_evaluation-Outcome shown 92 to_maybe recruiter evaluated

scores_bounded : All (λ s. (leb_ℚ (ratio 1 3) s ≡ true) × (leb_ℚ s (ratio 3 3) ≡ true)) scores
unfolding leb_ℚ
scores_bounded = ((refl, refl), ((refl, refl), ((refl, refl), tt)))

-- The exact products, and a bucket for each score.
abbrev exact : Floats
exact = record {
  seventy_percent = λ n. n * 70 / 100;
  thirty_percent = λ n. n * 30 / 100;
  bucket = λ s. elim s.num [ pos n ↦ pos (n * 10 / (1 + s.den_pred)) | negsuc n ↦ negsuc n ];
}

exact-IsRounding : IsRounding exact
exact-IsRounding = record { ordered = λ n. omega arith; below = λ n h. omega arith }

batch_stats-Outcome_example :
    Answer.Outcome exact 7 recruiter evaluated (batch_stats exact 7 recruiter evaluated)
batch_stats-Outcome_example = batch_stats-Outcome exact exact-IsRounding 7 recruiter evaluated

-- An override may give a score below zero, and the statistics then fail.
abbrev overridden : System
overridden = record evaluated {
  db = record evaluated.db {
    evaluations = evaluation 92 11 40 (some (record { num = negsuc 0; den_pred = 0 })) ∷ [];
  };
}

batch_stats_fails : batch_stats exact 7 recruiter overridden ≡ (err 500, overridden)
unfolding batch_stats
batch_stats_fails = refl
