-- ===== src/Tests/Network.antt =====
-- Links, the watchdog's schedule and the web pages on concrete inputs.
use right_hire.Base.{◌≡◌, refl, true, false, none, [], ◌∷◌, ◌++◌, Text, text, count_where, arith}
use right_hire.Base.{ℕ, zero, suc, List, length, count_where-append, some, All, ◌+◌}
use right_hire.Base.Rational.{Rational}
use right_hire.Results.Pages.{IsOrder}
use right_hire.Store.{Candidate, Failure, failed, of_job}
use right_hire.Results.{latest_evaluation}
use right_hire.Results.Pages.{with_card}
use right_hire.Tests.{recruiter, opening, applicant, system}
use right_hire.Tests.Views.{evaluated}
use right_hire.Ui.Rows.Honest.{Says, row_of, build_row-Says}
use right_hire.Ui.Queue.{
  ResultsState, new_state, fit_count, maybe_count, reject_count, needs_attention_count,
}
use right_hire.Ui.Queue.Counts.{counts_add_up}
use right_hire.Ui.Queue.Loads.{route, load_results}
use right_hire.Ui.Queue.Loads.Complete.{load_more_times, load_more_times_complete}
use right_hire.Base.Rational.{ratio, leb_ℚ, round_at, nearest}
use right_hire.Ui.Queue.Calibrate.{round_2, set_draft_fit_threshold, set_draft_maybe_threshold}
use right_hire.Ui.Queue.Calibrate.Apart.{set_draft_fit_threshold_apart}
use right_hire.Ui.Create.{criteria_from_parse, split_criteria}
use right_hire.Ui.Create.Sent.{IsRequired, IsMust, IsPreferred, criteria_from_parse-sent}
use right_hire.Worker.Schedule.{Watchdog, Event, rq_changes}
use right_hire.Drive.{slash, ampersand, drive_to_direct}
use right_hire.Drive.Links.{drive_to_direct-id}

abbrev at_first : Watchdog
at_first = record { started = false; scheduled = [] }

abbrev taken_off : Event
taken_off = rq_changes [] (omega arith)

drive_to_direct-id_example :
    (drive_to_direct
        (text "https://drive.google.com/file/d/" ++ (text "1aB-x" ++ slash ∷ text "view"))
      ≡ text "https://drive.google.com/uc?export=download&id=" ++ text "1aB-x")
    × (drive_to_direct (text "https://drive.google.com/open?id=" ++ text "1aB-x")
        ≡ text "https://drive.google.com/uc?export=download&id=" ++ text "1aB-x")
    × (drive_to_direct
          (text "https://drive.google.com/open?id=" ++ (text "1aB-x" ++ ampersand ∷ text "usp=a"))
        ≡ text "https://drive.google.com/uc?export=download&id=" ++ text "1aB-x")
drive_to_direct-id_example =
    drive_to_direct-id (text "1aB-x") (text "view") (text "usp=a") refl
      (refl, (refl, (refl, (refl, (refl, tt))))) (refl, (refl, (refl, (refl, (refl, tt)))))
      (refl, (refl, (refl, (refl, (refl, tt)))))

abbrev shown : Failure → Text
shown _ = text "Resume text is too short to evaluate (12 chars, minimum 100)"

abbrev details : ℕ → Text
details _ = text "Not found"

abbrev on_page : ResultsState
on_page = record new_state { selected_job_id = some 7; page_size = 1 }

-- The first request meets the rows as they are stored, the others with the first one at the end.
abbrev last : List Candidate → List Candidate
last [] = []
last (c ∷ cs) = cs ++ c ∷ []

abbrev turned : ℕ → List Candidate → List Candidate
turned zero cs = cs
turned (suc offset) cs = last cs

turned-IsOrder : (offset : ℕ) → IsOrder (turned offset)
turned-IsOrder zero p cs = refl
turned-IsOrder (suc offset) p [] = refl
turned-IsOrder (suc offset) p (c ∷ cs) = ground (arith, count_where-append p cs (c ∷ []))

-- The pages of one candidate each.
load_more_times_complete_example :
    (let api = route shown turned details recruiter system in
      let st' = load_more_times 3 api (load_results api on_page).0 in
      (st'.has_more ≡ false)
      × (length st'.results ≡ count_where (of_job opening.id) system.db.candidates)
      × All (λ x. of_job opening.id x.candidate ≡ true) st'.results)
load_more_times_complete_example =
    load_more_times_complete shown turned details recruiter system 7 3 opening on_page
      turned-IsOrder refl refl refl refl (omega arith)

abbrev repr : Rational → Text
repr _ = text "3.0"

-- The newest evaluation has a verdict, the one before has none.
build_row-Says_example :
    Says shown
      (text "go" ∷ [])
      (applicant 11 failed none)
      (latest_evaluation 11 evaluated.evaluations)
      (row_of shown repr opening evaluated
        (text "go" ∷ [])
        (applicant 11 failed none)
        (latest_evaluation 11 evaluated.evaluations))
build_row-Says_example =
    build_row-Says shown repr opening evaluated (text "go" ∷ []) (applicant 11 failed none)
      (latest_evaluation 11 evaluated.evaluations)

abbrev with_results : ResultsState
with_results = record on_page {
  results =
      record {
        candidate = applicant 11 failed none;
        evaluation = with_card shown opening evaluated (latest_evaluation 11 evaluated.evaluations);
      }
      ∷ record {
        candidate = applicant 12 failed none;
        evaluation = with_card shown opening evaluated (latest_evaluation 12 evaluated.evaluations);
      }
      ∷ [];
}

counts_add_up_example :
    fit_count shown repr with_results
      + maybe_count shown repr with_results
      + reject_count shown repr with_results
      + needs_attention_count shown repr with_results
    ≡ 2
unfolding latest_evaluation
counts_add_up_example = counts_add_up shown repr opening none evaluated with_results (
  record { in_job = refl; passed = refl; with_latest = refl },
  (record { in_job = refl; passed = refl; with_latest = refl }, tt),
)

-- "GO" is a must-have and "go" a required skill.
criteria_from_parse-sent_example :
    (let l =
        split_criteria
          (criteria_from_parse (text "go" ∷ []) (text "rust" ∷ []) (text "GO" ∷ text "sql" ∷ [])) in
      All (IsRequired (text "GO" ∷ text "sql" ∷ []) l) (text "go" ∷ [])
      × All (IsMust (text "go" ∷ []) l) (text "GO" ∷ text "sql" ∷ [])
      × All (IsPreferred (text "go" ∷ []) (text "GO" ∷ text "sql" ∷ []) l) (text "rust" ∷ []))
criteria_from_parse-sent_example =
    criteria_from_parse-sent (text "go" ∷ []) (text "rust" ∷ []) (text "GO" ∷ text "sql" ∷ [])

seventy : round_2 (ratio 70 99) ≡ ratio 70 99
unfolding round_at nearest
seventy = refl

-- Fit is set to 0.7, and then Maybe to 0.9.
set_draft_fit_threshold_apart_example :
    (let st' = set_draft_fit_threshold (ratio 70 99) with_results in
      let st'' = set_draft_maybe_threshold (ratio 90 99) st' in
      (leb_ℚ st'.draft_fit_threshold st'.draft_maybe_threshold ≡ false)
      × (leb_ℚ st''.draft_fit_threshold st''.draft_maybe_threshold ≡ false))
set_draft_fit_threshold_apart_example =
    set_draft_fit_threshold_apart with_results (ratio 70 99) (ratio 90 99) 69 seventy
