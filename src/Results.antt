-- ===== src/Results.antt =====
-- app/api/results.py: what the routes over a job's evaluations share.
pub mod Messages
pub mod Card
pub mod Latest
pub mod Pages
pub mod Overrides
pub mod Stats
use right_hire.Base.{
  ℕ, Bool, true, false, ◌&&◌, ◌||◌, not, Option, none, some, List, [], ◌∷◌, Text, text, Dict, merge,
  ltb, ◌==◌, is_some, first_where, select_where, if◌then◌else◌,
}
use right_hire.Base.Rational.{Rational}
use right_hire.Schemas.{Verdict, fit, maybe, reject}
use right_hire.Store.{Job, Evaluation}
use right_hire.Pipeline.Score.{default_thresholds}

-- The values of the column `verdict`.
abbrev pub verdict_text : Verdict → Text
verdict_text fit = text "Fit"
verdict_text maybe = text "Maybe"
verdict_text reject = text "Reject"

-- `order_by(created_at.desc(), id.desc())`: the first row comes before the second.
abbrev pub is_newer : Evaluation → Evaluation → Bool
is_newer e f = ltb f.created_at e.created_at || ((e.created_at == f.created_at) && ltb f.id e.id)

abbrev newer_of : Evaluation → Option Evaluation → Evaluation
newer_of e none = e
newer_of e (some f) = if is_newer f e then f else e

-- `.order_by(...).limit(1)`
unfoldable pub newest : List Evaluation → Option Evaluation
newest [] = none
newest (e ∷ es) = some (newer_of e (newest es))

abbrev pub of_candidate : ℕ → Evaluation → Bool
of_candidate i e = e.candidate_id == i

-- The evaluation that is shown for a candidate.
unfoldable pub latest_evaluation : ℕ → List Evaluation → Option Evaluation
unfolding newest
latest_evaluation candidate_id es = newest (select_where (of_candidate candidate_id) es)

-- The scores of the rows that have one.
abbrev pub scores_of : List Evaluation → List Rational
scores_of [] = []
scores_of (e ∷ es) = elim e.score [ none ↦ scores_of es | some s ↦ s ∷ scores_of es ]

abbrev pub all_scores : ℕ → List Evaluation → List Rational
all_scores job_id es = scores_of (select_where (λ e. e.job_id == job_id) es)

-- `{**_DEFAULT_THRESHOLDS, **(job.thresholds or {})}`
abbrev pub current_thresholds : Job → Dict Rational
current_thresholds job = elim job.thresholds [
  | none ↦ default_thresholds
  | some t ↦ merge default_thresholds t
]

abbrev pub find_evaluation : ℕ → List Evaluation → Option Evaluation
find_evaluation i = first_where (λ e. e.id == i)
