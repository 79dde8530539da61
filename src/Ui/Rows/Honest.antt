-- ===== src/Ui/Rows/Honest.antt =====
-- What the queue shows of a candidate, from the evaluation that is stored to the row on the page.
use right_hire.Base.{
  ◌≡◌, refl, true, false, Option, none, some, List, [], ◌∷◌, Text, text, is_empty,
}
use right_hire.Base.Rational.{Rational}
use right_hire.Schemas.{Verdict}
use right_hire.Store.{Job, Candidate, Evaluation, Failure, System}
use right_hire.Results.{verdict_text}
use right_hire.Results.Messages.{friendly_error}
use right_hire.Results.Card.{build_reasoning_card, error_text, or_empty}
use right_hire.Results.Card.Rank.{friendly_error-blank}
use right_hire.Results.Pages.{with_card, response}
use right_hire.Ui.Rows.{QueueRow, status_text, or_default, missing_from, build_row}

-- A row without an assessment: no score, no rank, and no skill that is said to be missing.
pub record IsUnscored (row : QueueRow) : Type 0 where
  pub not_evaluated : row.has_eval ≡ false
  pub no_score : row.score_display ≡ text "—"
  pub no_percentage : row.score_pct_display ≡ []
  pub no_rank : row.rank_display ≡ []
  pub none_missing : row.missing_skills ≡ []

-- What the row says of a candidate with an evaluation, by its verdict.
abbrev pub SaysOf : (Failure → Text) → List Text → Evaluation → Option Verdict → QueueRow → Type 0
SaysOf shown required e none row =
    (row.verdict ≡ some (text "Unprocessed"))
    × (row.is_error ≡ true)
    × (row.error ≡ friendly_error (error_text shown (or_empty e.reasons)))
    × IsUnscored row
SaysOf shown required e (some v) row =
    (row.verdict ≡ some (verdict_text v))
    × (row.is_error ≡ false)
    × (row.error ≡ [])
    × (row.has_eval ≡ true)
    × (row.missing_skills ≡ missing_from required row.matched_skills)

abbrev pub Says : (Failure → Text) → List Text → Candidate → Option Evaluation → QueueRow → Type 0
Says shown required c none row =
    (row.verdict ≡ some (status_text c.status)) × (row.is_error ≡ false) × IsUnscored row
Says shown required c (some e) row = SaysOf shown required e e.verdict row

or_default_full : (t : Text) → is_empty t ≡ false → or_default (some t) [] ≡ t
or_default_full [] h = absurd cc
or_default_full (c ∷ t) h = refl

module _ (shown : Failure → Text) (repr : Rational → Text) (job : Job) (s : System)
    (required : List Text) where
  -- The row of a candidate as the API answers with it.
  abbrev pub row_of : Candidate → Option Evaluation → QueueRow
  row_of c e =
      build_row shown repr required (record { candidate = c; evaluation = with_card shown job s e })

  evaluated :
      (c : Candidate) (e : Evaluation) (v : Option Verdict)
      → e.verdict ≡ v
      → SaysOf shown required e v (row_of c (some e))
  unfolding build_row response build_reasoning_card
  evaluated c e none h =
      let t = friendly_error (error_text shown (or_empty e.reasons)) in
      let full = friendly_error-blank (error_text shown (or_empty e.reasons)) in
      rw (h, or_default_full t full, full)
        (
          refl,
          refl,
          refl,
          record {
            not_evaluated = refl;
            no_score = refl;
            no_percentage = refl;
            no_rank = refl;
            none_missing = refl;
          },
        )
  evaluated c e (some v) h = rw h (refl, refl, refl, refl, refl)

  -- A candidate whose processing failed is shown as unprocessed, with the explanation, and without a
  -- score, a rank or missing skills; one with a verdict is shown with that verdict and no error, and
  -- misses the required skills that are not among the matched ones; one without an evaluation is shown
  -- with its status.
  pub build_row-Says :
      (c : Candidate) (e : Option Evaluation) → Says shown required c e (row_of c e)
  unfolding build_row
  build_row-Says c none = (
    refl,
    refl,
    record {
      not_evaluated = refl;
      no_score = refl;
      no_percentage = refl;
      no_rank = refl;
      none_missing = refl;
    },
  )
  build_row-Says c (some e) = evaluated c e e.verdict refl
