-- ===== src/Ui/Rows.antt =====
-- ui/right_hire_ui/states/results_state.py: `_build_row`, over what app/api/results.py answers. What
-- str() makes of a float is an argument.
pub mod Honest
use right_hire.Base.{
  ℕ, ◌+◌, ◌*◌, Bool, true, false, not, ◌&&◌, Option, none, some, List, [], ◌∷◌, ◌++◌, map, Text,
  text, text_eq, Dict, lookup, lookup_or, leb, is_empty, any, lower, select_where, if◌then◌else◌,
}
use right_hire.Base.Int.{pos_part, neg_part}
use right_hire.Base.Rational.{Rational, ratio, den, nearest}
use right_hire.Schemas.{Verdict}
use right_hire.Store.{Candidate, CandidateStatus, Evaluation, Failure, Breakdown, Reason}
use right_hire.Results.{verdict_text}
use right_hire.Results.Messages.{decimal}
use right_hire.Results.Card.{
  ReasoningCard, Confidence, low, medium, high, fixed, sign_text, reason_text, or_empty,
  matched_skills,
}
use right_hire.Results.Pages.{EvaluationResponse, CandidateWithEval}

pub record BreakdownRow : Type 0 where
  pub signal : Text
  pub raw : Text
  pub weight : Text
  pub contribution : Text

pub record RubricRow : Type 0 where
  pub criterion : Text
  pub score : Text
  pub reason : Text

-- The verdict is none where the evaluation's is null.
pub record QueueRow : Type 0 where
  pub candidate_id : ℕ
  pub name : Text
  pub email : Text
  pub yoe : Text
  pub location : Text
  pub status : CandidateStatus
  pub has_eval : Bool
  pub is_error : Bool
  pub error : Text
  pub verdict : Option Text
  pub score_display : Text
  pub score_pct_display : Text
  pub rank_display : Text
  pub summary : Text
  pub confidence : Text
  pub matched_skills : List Text
  pub missing_skills : List Text
  pub breakdown_rows : List BreakdownRow
  pub model_used : Text
  pub rubric_rows : List RubricRow

abbrev pub status_text : CandidateStatus → Text
status_text CandidateStatus.pending = text "pending"
status_text CandidateStatus.processing = text "processing"
status_text CandidateStatus.done = text "done"
status_text CandidateStatus.failed = text "failed"

-- `value or default`, for a text that may be null.
abbrev pub or_default : Option Text → Text → Text
or_default none other = other
or_default (some []) other = other
or_default (some (c ∷ t)) other = c ∷ t

-- `f"{a:.0%}"`
unfoldable pub percent : Rational → Text
unfolding nearest decimal
percent a =
    sign_text a.num
    ++ (decimal (nearest ((pos_part a.num + neg_part a.num) * 100) (den a)) ++ text "%")

abbrev verdict_shown : Option Verdict → Option Text
verdict_shown none = none
verdict_shown (some v) = some (verdict_text v)

abbrev confidence_text : Option Confidence → Text
confidence_text none = []
confidence_text (some low) = text "Low"
confidence_text (some medium) = text "Medium"
confidence_text (some high) = text "High"

abbrev score_text : (Rational → Text) → Text → Option Rational → Text
score_text f other none = other
score_text f other (some a) = f a

-- The rank, where there is someone to rank against.
abbrev rank_text : Option ℕ → ℕ → Text
rank_text none size = []
rank_text (some r) size =
    if leb 1 r && leb 2 size then text "#" ++ (decimal r ++ (text " of " ++ decimal size)) else []

-- The required skills that are not among the matched ones, in any case of letters.
unfoldable pub missing_from : List Text → List Text → List Text
unfolding lower
missing_from required matched =
    select_where (λ s. not (any (λ m. text_eq (lower m) (lower s)) matched)) required

-- `reasons.get("matched_skills", [])` where the card has none.
abbrev skills_shown : List Text → Option (Dict Reason) → List Text
skills_shown [] reasons = matched_skills (or_empty reasons)
skills_shown (t ∷ l) reasons = t ∷ l

-- `d.get(raw_key, d.get(key, 0))`
abbrev either_key : Text → Text → Dict Rational → Rational
either_key key raw_key d = lookup_or raw_key (lookup_or key (ratio 0 0) d) d

abbrev breakdown_row : Breakdown → Text → Text → Text → Rational → BreakdownRow
breakdown_row b label key raw_key value = record {
  signal = label;
  raw = fixed 2 value;
  weight = percent (either_key key raw_key b.weights);
  contribution = fixed 2 (either_key key raw_key b.contributions);
}

abbrev breakdown_rows_of : Option Breakdown → List BreakdownRow
breakdown_rows_of none = []
breakdown_rows_of (some b) =
    breakdown_row b (text "Skill overlap") (text "skill_overlap") (text "skill_overlap")
      b.skill_overlap
    ∷ breakdown_row b (text "Semantic similarity") (text "cosine_sim") (text "cosine") b.cosine_sim
    ∷ breakdown_row b (text "LLM judge") (text "judge_score") (text "judge") b.judge_score
    ∷ []

module _ (shown : Failure → Text) (repr : Rational → Text) where
  -- `criterion_reasons.get(criterion) or reasons.get(criterion, "")`, a reason that is no text left blank.
  abbrev reason_for : Dict Text → Dict Reason → Text → Text
  reason_for criterion_reasons reasons k =
      or_default (lookup k criterion_reasons)
        (elim (lookup k reasons) [ none ↦ [] | some r ↦ or_default (reason_text shown r) [] ])

  abbrev rubric_rows_of : Dict Text → Dict Reason → Dict Rational → List RubricRow
  rubric_rows_of criterion_reasons reasons [] = []
  rubric_rows_of criterion_reasons reasons ((k, score) ∷ rubric) =
      record {
        criterion = k;
        score = fixed 2 score;
        reason = reason_for criterion_reasons reasons k;
      }
      ∷ rubric_rows_of criterion_reasons reasons rubric

  abbrev plain_row : Candidate → QueueRow
  plain_row c = record {
    candidate_id = c.id;
    name = or_default c.name (text "Unknown");
    email = or_default c.email (text "N/A");
    yoe = score_text repr (text "N/A") c.yoe;
    location = or_default c.location (text "N/A");
    status = c.status;
    has_eval = false;
    is_error = false;
    error = [];
    verdict = some (status_text c.status);
    score_display = text "—";
    score_pct_display = [];
    rank_display = [];
    summary = [];
    confidence = [];
    matched_skills = [];
    missing_skills = [];
    breakdown_rows = [];
    model_used = text "N/A";
    rubric_rows = [];
  }

  -- The row of a candidate with an evaluation, by the text of the card's error.
  abbrev pub row_with : List Text → Candidate → Evaluation → ReasoningCard → Text → QueueRow
  row_with required c e rc failure =
      let is_error = not (is_empty failure) in
      let matched = skills_shown rc.matched_skills e.reasons in
      let score : Option Rational = if is_error then none else e.score in
      record (plain_row c) {
        has_eval = not is_error;
        is_error = is_error;
        error = failure;
        verdict = if is_error then some (text "Unprocessed") else verdict_shown e.verdict;
        score_display = score_text (fixed 2) (text "—") score;
        score_pct_display = score_text percent [] score;
        rank_display = if is_error then [] else rank_text rc.rank rc.cohort_size;
        summary = rc.summary;
        confidence = confidence_text rc.confidence;
        matched_skills = matched;
        missing_skills = if is_error then [] else missing_from required matched;
        breakdown_rows = breakdown_rows_of rc.score_breakdown;
        model_used = or_default e.model_used (text "N/A");
        rubric_rows = rubric_rows_of rc.criterion_reasons (or_empty e.reasons) (or_empty e.rubric);
      }

  -- `_build_row`
  unfoldable pub build_row : List Text → CandidateWithEval → QueueRow
  unfolding missing_from fixed percent
  build_row required item = elim item.evaluation [
    | none ↦ plain_row item.candidate
    | some r ↦
        row_with required item.candidate r.evaluation r.reasoning_card
          (or_default r.reasoning_card.error [])
  ]
