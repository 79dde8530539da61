-- ===== src/Ui/Queue/Counts.antt =====
-- The summary panel of the results page: the counts of the candidates by what they are shown as.
use mathlib.Core.Path.{subst}
use right_hire.Base.{
  ℕ, ◌+◌, ◌≡◌, refl, sym, Bool, false, Option, none, some, List, [], ◌∷◌, map, Text, text, text_eq,
  All, arith, is_some, count_where, if◌then◌else◌,
}
use right_hire.Base.Rational.{Rational}
use right_hire.Schemas.{Verdict, fit, maybe, reject}
use right_hire.Store.{Job, Candidate, CandidateStatus, Evaluation, Failure, System}
use right_hire.Results.{verdict_text, latest_evaluation}
use right_hire.Results.Pages.{CandidateWithEval, with_card}
use right_hire.Results.Pages.Listed.{IsEntry}
use right_hire.Ui.Rows.{QueueRow, build_row, status_text}
use right_hire.Ui.Rows.Honest.{Says, SaysOf, row_of, build_row-Says}
use right_hire.Ui.Queue.{
  ResultsState, in_verdict, display_rows, selected_job_required_skills, needs_attention_count,
  fit_count, maybe_count, reject_count,
}

abbrev one_if : Bool → ℕ
one_if b = if b then 1 else 0

abbrev is_row : Text → QueueRow → Bool
is_row wanted row = elim row.verdict [ none ↦ false | some v ↦ text_eq v wanted ]

-- How many of the four counts take in a row.
abbrev places : QueueRow → ℕ
places row =
    one_if (is_row (text "Fit") row)
    + (one_if (is_row (text "Maybe") row)
        + (one_if (is_row (text "Reject") row) + one_if row.is_error))

status_place :
    (s : CandidateStatus) (row : QueueRow)
    → row.verdict ≡ some (status_text s)
    → row.is_error ≡ false
    → places row ≡ 0
status_place CandidateStatus.pending row h k = rw (h, k) refl
status_place CandidateStatus.processing row h k = rw (h, k) refl
status_place CandidateStatus.done row h k = rw (h, k) refl
status_place CandidateStatus.failed row h k = rw (h, k) refl

verdict_place :
    (v : Verdict) (row : QueueRow)
    → row.verdict ≡ some (verdict_text v)
    → row.is_error ≡ false
    → places row ≡ 1
verdict_place fit row h k = rw (h, k) refl
verdict_place maybe row h k = rw (h, k) refl
verdict_place reject row h k = rw (h, k) refl

module _ (shown : Failure → Text) where
  judged_place :
      (required : List Text) (e : Evaluation) (v : Option Verdict) (row : QueueRow)
      → SaysOf shown required e v row
      → places row ≡ 1
  judged_place required e none row h = rw (h.0, h.1) refl
  judged_place required e (some v) row h = verdict_place v row h.0 h.1

  Says-place :
      (required : List Text) (c : Candidate) (e : Option Evaluation) (row : QueueRow)
      → Says shown required c e row
      → places row ≡ one_if (is_some e)
  Says-place required c none row h = status_place c.status row h.0 h.1
  Says-place required c (some e) row h = judged_place required e e.verdict row h

module _ (shown : Failure → Text) (repr : Rational → Text) (job : Job) (verdict : Option Text)
    (s : System) where
  is_some-with_card : (e : Option Evaluation) → is_some (with_card shown job s e) ≡ is_some e
  is_some-with_card none = refl
  is_some-with_card (some e) = refl

  entry_place :
      (required : List Text) (x : CandidateWithEval)
      → IsEntry shown job verdict s x
      → places (build_row shown repr required x) ≡ one_if (is_some x.evaluation)
  entry_place required x h =
      let e = latest_evaluation x.candidate.id s.evaluations in
      let there : places (row_of shown repr job s required x.candidate e)
          ≡ one_if (is_some (with_card shown job s e)) =
        rw (is_some-with_card e) (
          Says-place shown required x.candidate e _
            (build_row-Says shown repr job s required x.candidate e)) in
      subst
        (λ o.
          places
            (build_row shown repr required (record { candidate = x.candidate; evaluation = o }))
          ≡ one_if (is_some o))
        (sym h.with_latest) there

  counted :
      (required : List Text) (xs : List CandidateWithEval)
      → All (IsEntry shown job verdict s) xs
      → (let rows = map (build_row shown repr required) xs in
          count_where (in_verdict shown repr (text "Fit")) rows
          + count_where (in_verdict shown repr (text "Maybe")) rows
          + count_where (in_verdict shown repr (text "Reject")) rows
          + count_where (λ row. row.is_error) rows)
        ≡ count_where (λ x. is_some x.evaluation) xs
  counted required [] h = refl
  counted required (x ∷ xs) h = ground (arith, entry_place required x h.0, counted required xs h.1)

  -- Over what the API lists, each candidate with an evaluation is counted once, as fit, maybe, reject or
  -- in need of attention, and a candidate without one is not counted.
  pub counts_add_up :
      (st : ResultsState)
      → All (IsEntry shown job verdict s) st.results
      → fit_count shown repr st
          + maybe_count shown repr st
          + reject_count shown repr st
          + needs_attention_count shown repr st
        ≡ count_where (λ x. is_some x.evaluation) st.results
  unfolding fit_count maybe_count reject_count needs_attention_count display_rows
  counts_add_up st h = counted (selected_job_required_skills st) st.results h
