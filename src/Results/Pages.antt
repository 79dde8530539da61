-- ===== src/Results/Pages.antt =====
-- app/api/results.py: `list_results` and `export_results_csv`. The query parameters are in the range
-- that FastAPI checks. The order in which the database gives the rows of a page is an argument; the
-- export has them as the table does.
pub mod Listed
pub mod Export
use right_hire.Base.{
  ℕ, ◌≡◌, count_where, Bool, true, false, not, ◌&&◌, ◌||◌, Option, none, some, List, [], ◌∷◌, ◌++◌,
  map, Text, text, text_eq, Dict, lookup, is_empty, take, drop, select_where, if◌then◌else◌,
}
use right_hire.Base.Rational.{Rational}
use right_hire.Schemas.{Verdict}
use right_hire.Store.{User, Job, Candidate, CandidateStatus, Evaluation, Failure, System, of_job}
use right_hire.Http.{Handler, gets, ◌>>=◌, ◌>>◌}
use right_hire.Jobs.{get_owned_job}
use right_hire.Results.{verdict_text, latest_evaluation, all_scores, current_thresholds}
use right_hire.Results.Messages.{friendly_error}
use right_hire.Results.Card.{ReasoningCard, build_reasoning_card, error_text, or_empty, fixed}

-- An evaluation with its card.
pub record EvaluationResponse : Type 0 where
  pub evaluation : Evaluation
  pub reasoning_card : ReasoningCard

pub record CandidateWithEval : Type 0 where
  pub candidate : Candidate
  pub evaluation : Option EvaluationResponse

-- `not eval_obj or eval_obj.verdict != verdict`
abbrev has_verdict : Text → Option Evaluation → Bool
has_verdict wanted none = false
has_verdict wanted (some e) = elim e.verdict [
  | none ↦ false
  | some v ↦ text_eq (verdict_text v) wanted
]

-- The candidate passes the filter; an empty one is none.
abbrev pub passes : Option Text → Option Evaluation → Bool
passes none e = true
passes (some []) e = true
passes (some (c ∷ wanted)) e = has_verdict (c ∷ wanted) e

module _ (shown : Failure → Text) where
  unfoldable pub response : Job → System → Evaluation → EvaluationResponse
  unfolding build_reasoning_card
  response job s e = record {
    evaluation = e;
    reasoning_card =
        build_reasoning_card shown e (all_scores job.id s.evaluations) (current_thresholds job);
  }

  abbrev pub with_card : Job → System → Option Evaluation → Option EvaluationResponse
  with_card job s none = none
  with_card job s (some e) = some (response job s e)

  -- The loop over the candidates of a page.
  unfoldable pub listed : Job → Option Text → System → List Candidate → List CandidateWithEval
  unfolding response latest_evaluation
  listed job verdict s [] = []
  listed job verdict s (c ∷ cs) =
      let rest = listed job verdict s cs in
      let e = latest_evaluation c.id s.evaluations in
      if passes verdict e
      then record { candidate = c; evaluation = with_card job s e } ∷ rest
      else rest

-- A select without an order gives the rows that fit in an order of the database's own, which may be
-- another one for each request.
abbrev pub IsOrder : (List Candidate → List Candidate) → Type 0
IsOrder order =
    (p : Candidate → Bool) (cs : List Candidate) → count_where p (order cs) ≡ count_where p cs

module _ (shown : Failure → Text) (order : List Candidate → List Candidate) where
  abbrev page : (offset limit : ℕ) → Job → System → List Candidate
  page offset limit job s =
      take limit (drop offset (order (select_where (of_job job.id) s.candidates)))

  -- `list_results`
  unfoldable pub list_results :
      ℕ → Option Text → (offset limit : ℕ) → User → Handler (List CandidateWithEval)
  unfolding listed
  list_results job_id verdict offset limit user = do
    job ← get_owned_job job_id user
    gets (λ s. listed shown job verdict s (page offset limit job s))

-- A row of the CSV file, without the csv module's quoting.
pub record ExportRow : Type 0 where
  pub name : Text
  pub email : Text
  pub yoe : Option Rational
  pub location : Text
  pub status : CandidateStatus
  pub verdict : Text
  pub score : Text
  pub notes : Text
  pub model_used : Text

abbrev or_blank : Option Text → Text
or_blank none = []
or_blank (some t) = t

abbrev score_cell : Evaluation → Text
score_cell e = elim e.score [ none ↦ [] | some a ↦ fixed 4 a ]

-- The cells for the verdict, the score, the notes and the model.
pub record Cells : Type 0 where
  pub verdict : Text
  pub score : Text
  pub notes : Text
  pub model : Text

module _ (shown : Failure → Text) where
  -- The cells for the verdict and the notes.
  abbrev pub verdict_cell : Evaluation → Option Verdict → Text × Text
  verdict_cell e none = (text "Unprocessed", friendly_error (error_text shown (or_empty e.reasons)))
  verdict_cell e (some v) = (verdict_text v, [])

  abbrev pub cells : Option Evaluation → Cells
  cells none = record {
    verdict = text "Not evaluated";
    score = [];
    notes = text "Still queued for processing.";
    model = [];
  }
  cells (some e) = record {
    verdict = (verdict_cell e e.verdict).0;
    score = score_cell e;
    notes = (verdict_cell e e.verdict).1;
    model = or_blank e.model_used;
  }

  abbrev pub export_row : Candidate → Option Evaluation → ExportRow
  export_row c e = record {
    name = or_blank c.name;
    email = or_blank c.email;
    yoe = c.yoe;
    location = or_blank c.location;
    status = c.status;
    verdict = (cells e).verdict;
    score = (cells e).score;
    notes = (cells e).notes;
    model_used = (cells e).model;
  }

  unfoldable pub exported : Option Text → System → List Candidate → List ExportRow
  unfolding latest_evaluation friendly_error fixed
  exported verdict s [] = []
  exported verdict s (c ∷ cs) =
      let rest = exported verdict s cs in
      let e = latest_evaluation c.id s.evaluations in
      if passes verdict e then export_row c e ∷ rest else rest

  -- `export_results_csv`: the rows below the heading.
  unfoldable pub export_results_csv : ℕ → Option Text → User → Handler (List ExportRow)
  unfolding exported
  export_results_csv job_id verdict user = do
    get_owned_job job_id user
    gets (λ s. exported verdict s (select_where (of_job job_id) s.candidates))
