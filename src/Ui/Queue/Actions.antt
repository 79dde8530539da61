-- ===== src/Ui/Queue/Actions.antt =====
-- ui/right_hire_ui/states/results_state.py: the handlers that act on candidates and jobs, over what the
-- API answers. The flags that are set only while a handler runs are left out.
pub mod Deleted
use right_hire.Base.{
  ℕ, ◌+◌, ◌-◌, Bool, true, false, not, ◌&&◌, Option, none, some, List, [], ◌∷◌, ◌++◌, map, Text,
  text, text_eq, length, mem, any, count_where, select_where, is_empty, is_some, ◌==◌,
  if◌then◌else◌,
}
use right_hire.Store.{Job, Failure}
use right_hire.Base.Rational.{Rational}
use right_hire.Results.Messages.{decimal}
use right_hire.Results.Pages.{CandidateWithEval}
use right_hire.Ui.{Answer, answered, refused, Notice, success, info, failure, event, Event}
use right_hire.Ui.Queue.{ResultsState, selected_rows}

abbrev ends_in_s : ℕ → Text
ends_in_s n = if n == 1 then [] else text "s"

-- `{n} candidate{'s' if n != 1 else ''}`
unfoldable pub candidates_text : ℕ → Text
unfolding decimal
candidates_text n = decimal n ++ (text " candidate" ++ ends_in_s n)

abbrev is_refused : {A : Type 0} → Answer A → Bool
is_refused (answered _) = false
is_refused (refused _) = true

abbrev pub failed_count : (ℕ → Answer (Unit {0})) → List ℕ → ℕ
failed_count request ids = count_where (λ i. is_refused (request i)) ids

abbrev without : (CandidateWithEval → Bool) → ResultsState → ResultsState
without gone st =
    let left = select_where (λ item. not (gone item)) st.results in
    record st { results = left; offset = length left }

abbrev if_any : ℕ → Notice → List Notice
if_any n notice = if n == 0 then [] else notice ∷ []

-- `delete_selected`, over the answer to the deletion of each candidate.
unfoldable pub delete_selected : (ℕ → Answer (Unit {0})) → ResultsState → ResultsState × List Notice
unfolding candidates_text decimal
delete_selected delete st =
    let targets = st.selected_ids in
    let failed = failed_count delete targets in
    let deleted = length targets - failed in
    if is_empty targets then (st, []) else (
      record (without (λ item. mem item.candidate.id targets) st) { selected_ids = [] },
      if_any deleted (success (text "Deleted " ++ (candidates_text deleted ++ text ".")))
          ++ if_any failed (failure (decimal failed ++ text " could not be deleted.")),
    )

-- `retry_selected`, over the answer to the retry of each candidate.
unfoldable pub retry_selected :
    (Failure → Text) → (Rational → Text) → (ℕ → Answer (Unit {0})) → ResultsState → List Notice
unfolding candidates_text decimal selected_rows
retry_selected shown repr retry st =
    let targets =
      map (λ row. row.candidate_id)
        (select_where (λ row. row.is_error) (selected_rows shown repr st)) in
    let failed = failed_count retry targets in
    let ok = length targets - failed in
    if is_empty targets
    then info (text "No selected candidate is in an error state.") ∷ []
    else if_any ok (success (text "Re-queued " ++ (candidates_text ok ++ text ".")))
      ++ (if_any failed (
            failure
              (decimal failed ++ text " could not be re-queued — they may have no resume on file."))
          ++ event Event.load_results ∷ [])

-- `delete_candidate`
abbrev deleted_one : ℕ → Answer (Unit {0}) → ResultsState → ResultsState × List Notice
deleted_one i (answered _) st =
    (without (λ item. item.candidate.id == i) st, success (text "Candidate deleted.") ∷ [])
deleted_one i (refused e) st = (st, failure (text "Delete failed: " ++ e) ∷ [])

abbrev no_dialog : ResultsState × List Notice → ResultsState × List Notice
no_dialog (st, notices) = (record st { pending_delete_candidate_id = none }, notices)

unfoldable pub delete_candidate :
    (ℕ → Answer (Unit {0})) → ℕ → ResultsState → ResultsState × List Notice
delete_candidate delete i st =
    if is_some st.selected_job_id then no_dialog (deleted_one i (delete i) st) else (st, [])

-- `delete_all_candidates`
abbrev deleted_all : Answer ℕ → ResultsState → ResultsState × List Notice
deleted_all (answered n) st = (
  record st { results = []; offset = 0; has_more = false; batch_stats = none },
  if n == 0
      then info (text "No candidates to delete.") ∷ []
      else success (text "Deleted " ++ (candidates_text n ++ text ".")) ∷ [],
)
deleted_all (refused e) st = (st, failure (text "Delete failed: " ++ e) ∷ [])

unfoldable pub delete_all_candidates : (ℕ → Answer ℕ) → ResultsState → ResultsState × List Notice
unfolding candidates_text
delete_all_candidates delete st = elim st.selected_job_id [
  | none ↦ (st, [])
  | some job_id ↦ deleted_all (delete job_id) st
]

-- `delete_job`
abbrev deleted_job : ℕ → Answer (Unit {0}) → ResultsState → ResultsState × List Notice
deleted_job job_id (answered _) st = (
  record st {
    jobs = select_where (λ (j : Job). not (j.id == job_id)) st.jobs;
    results = [];
    has_loaded = false;
    selected_job_id = none;
  },
  success (text "Job deleted.") ∷ [],
)
deleted_job job_id (refused e) st = (st, failure (text "Delete failed: " ++ e) ∷ [])

unfoldable pub delete_job : (ℕ → Answer (Unit {0})) → ℕ → ResultsState → ResultsState × List Notice
delete_job delete job_id st = deleted_job job_id (delete job_id) st

-- `cancel_pending`, `retry_candidate`
abbrev cancelled : Answer ℕ → List Notice
cancelled (answered n) =
    (if n == 0
      then info (text "No pending candidates to cancel.")
      else info (
          text "Cancelled "
          ++ (decimal n ++ (text " pending candidate" ++ (ends_in_s n ++ text ".")))))
    ∷ event Event.load_results
    ∷ []
cancelled (refused e) = failure (text "Cancel failed: " ++ e) ∷ []

unfoldable pub cancel_pending : (ℕ → Answer ℕ) → ResultsState → List Notice
unfolding decimal
cancel_pending cancel st = elim st.selected_job_id [
  | none ↦ []
  | some job_id ↦ cancelled (cancel job_id)
]

abbrev retried : Answer (Unit {0}) → List Notice
retried (answered _) =
    info (text "Candidate re-queued for evaluation.") ∷ event Event.load_results ∷ []
retried (refused e) = failure e ∷ []

unfoldable pub retry_candidate : (ℕ → Answer (Unit {0})) → ℕ → ResultsState → List Notice
retry_candidate retry i st = if is_some st.selected_job_id then retried (retry i) else []

-- `set_selected_job_id`, and `init_from_query` over the id in the link, if it has one.
unfoldable pub set_selected_job_id : Option ℕ → ResultsState → ResultsState × List Notice
set_selected_job_id value st = (
  record st { selected_job_id = value; results = []; batch_stats = none; has_loaded = false },
  event Event.load_results ∷ [],
)

abbrev from_link : Option ℕ → ResultsState → ResultsState
from_link none st = st
from_link (some i) st =
    if any (λ (j : Job). j.id == i) st.jobs
    then record st { selected_job_id = some i }
    else record st { selected_job_id = none; results = []; has_loaded = false; batch_stats = none }

unfoldable pub init_from_query : Option ℕ → ResultsState → ResultsState × List Notice
init_from_query linked st =
    let st' = from_link linked st in
    (
      st',
      if is_some st'.selected_job_id && not st'.has_loaded
          then event Event.load_results ∷ []
          else [],
    )

-- `run_job_action`; the job that is deleted is the selected one.
unfoldable pub run_job_action : ResultsState → ResultsState × List Notice
run_job_action st =
    let kind = st.confirm_job_action in
    (
      record st { confirm_job_action = [] },
      if text_eq kind (text "job")
          then event Event.delete_job ∷ []
          else if text_eq kind (text "candidates")
          then event Event.delete_all_candidates ∷ []
          else if text_eq kind (text "selected")
          then event Event.delete_selected ∷ []
          else [],
    )
