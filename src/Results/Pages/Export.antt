-- ===== src/Results/Pages/Export.antt =====
-- app/api/results.py: the rows of the CSV file.
use right_hire.Base.{
  ℕ, ◌≡◌, refl, false, Option, none, some, List, [], ◌∷◌, Text, text, is_empty, select_where,
}
use right_hire.Schemas.{Verdict}
use right_hire.Store.{User, Candidate, Evaluation, Failure, System, of_job}
use right_hire.Http.{Result, ok, err, gets}
use right_hire.Http.Reads.{raised, went_on, ran}
use right_hire.Jobs.{get_owned_job, Reads-get_owned_job}
use right_hire.Results.{verdict_text, latest_evaluation}
use right_hire.Base.Rational.{Rational}
use right_hire.Results.Messages.{friendly_error}
use right_hire.Results.Card.{error_text, or_empty, fixed}
use right_hire.Results.Card.Rank.{friendly_error-blank}
use right_hire.Results.Pages.{
  ExportRow, or_blank, score_cell, export_row, exported, export_results_csv,
}

-- A cell for a text or a score that may be missing.
abbrev pub Shows : Option Text → Text → Type 0
Shows none cell = cell ≡ []
Shows (some t) cell = cell ≡ t

abbrev pub ShowsScore : Option Rational → Text → Type 0
ShowsScore none cell = cell ≡ []
ShowsScore (some a) cell = cell ≡ fixed 4 a

module _ (shown : Failure → Text) where
  -- The verdict; or none, with what is made of the stored error.
  abbrev pub TellsVerdict : Evaluation → Option Verdict → ExportRow → Type 0
  TellsVerdict e none row =
      (row.verdict ≡ text "Unprocessed")
      × (row.notes ≡ friendly_error (error_text shown (or_empty e.reasons)))
      × (is_empty row.notes ≡ false)
  TellsVerdict e (some v) row = (row.verdict ≡ verdict_text v) × (row.notes ≡ [])

  abbrev pub Told : Option Evaluation → ExportRow → Type 0
  Told none row =
      (row.verdict ≡ text "Not evaluated")
      × (row.notes ≡ text "Still queued for processing.")
      × (row.score ≡ [])
      × (row.model_used ≡ [])
  Told (some e) row =
      TellsVerdict e e.verdict row
      × ShowsScore e.score row.score
      × Shows e.model_used row.model_used

  -- The row of a candidate with its latest evaluation.
  pub record IsRow (c : Candidate) (e : Option Evaluation) (row : ExportRow) : Type 0 where
    pub name : Shows c.name row.name
    pub email : Shows c.email row.email
    pub yoe : row.yoe ≡ c.yoe
    pub location : Shows c.location row.location
    pub status : row.status ≡ c.status
    pub told : Told e row

  -- One row for each candidate, in order.
  abbrev pub Rows : System → List Candidate → List ExportRow → Type 0
  Rows s [] [] = Unit
  Rows s [] (r ∷ rows) = ⊥
  Rows s (c ∷ cs) [] = ⊥
  Rows s (c ∷ cs) (r ∷ rows) = IsRow c (latest_evaluation c.id s.evaluations) r × Rows s cs rows

  Shows-or_blank : (o : Option Text) → Shows o (or_blank o)
  Shows-or_blank none = refl
  Shows-or_blank (some t) = refl

  ShowsScore-score_cell :
      (e : Evaluation) (o : Option Rational) → e.score ≡ o → ShowsScore o (score_cell e)
  ShowsScore-score_cell e none h = rw h refl
  ShowsScore-score_cell e (some a) h = rw h refl

  TellsVerdict-export_row :
      (c : Candidate) (e : Evaluation) (v : Option Verdict)
      → e.verdict ≡ v
      → TellsVerdict e v (export_row shown c (some e))
  TellsVerdict-export_row c e none h =
      let blank = friendly_error-blank (error_text shown (or_empty e.reasons)) in
      simp h (refl, refl, blank)
  TellsVerdict-export_row c e (some v) h = simp h (refl, refl)

  Told-export_row : (c : Candidate) (e : Option Evaluation) → Told e (export_row shown c e)
  Told-export_row c none = (refl, refl, refl, refl)
  Told-export_row c (some e) = (
    TellsVerdict-export_row c e e.verdict refl,
    ShowsScore-score_cell e e.score refl,
    Shows-or_blank e.model_used,
  )

  exported-Rows : (s : System) (cs : List Candidate) → Rows s cs (exported shown none s cs)
  unfolding exported
  exported-Rows s [] = tt
  exported-Rows s (c ∷ cs) = (
    record {
      name = Shows-or_blank c.name;
      email = Shows-or_blank c.email;
      yoe = refl;
      location = Shows-or_blank c.location;
      status = refl;
      told = Told-export_row c (latest_evaluation c.id s.evaluations);
    },
    exported-Rows s cs,
  )

abbrev pub Exported : (Failure → Text) → ℕ → System → Result (List ExportRow) × System → Type 0
Exported shown job_id s (ok rows, s') =
    (s' ≡ s) × Rows shown s (select_where (of_job job_id) s.candidates) rows
Exported shown job_id s (err e, s') = s' ≡ s

-- Without a filter the file has one row for each candidate of the job, in the order of the select, with
-- the candidate's name, address, experience, location and status. Without an evaluation it says "Not
-- evaluated"; else it has the score and the model of the latest one with its verdict, or, where that
-- has none, "Unprocessed" and the advice for the error that is stored. Nothing changes.
pub export_results_csv-Exported :
    (shown : Failure → Text) (job_id : ℕ) (user : User) (s : System)
    → Exported shown job_id s (export_results_csv shown job_id none user s)
unfolding export_results_csv
export_results_csv-Exported shown job_id user s =
    elim (ran (get_owned_job job_id user)
      (λ _. gets (λ s. exported shown none s (select_where (of_job job_id) s.candidates))) s
      (Reads-get_owned_job job_id user)) [
        | raised _ _ out ↦ rw out refl
        | went_on _ _ out ↦
            rw out (refl, exported-Rows shown s (select_where (of_job job_id) s.candidates))
      ]
