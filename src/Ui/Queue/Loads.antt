-- ===== src/Ui/Queue/Loads.antt =====
-- ui/right_hire_ui/states/results_state.py: the loading of results, page by page, and their polling.
pub mod Complete
use right_hire.Base.{
  ℕ, ◌+◌, Bool, true, false, not, ◌&&◌, ◌||◌, Option, none, some, List, [], ◌∷◌, ◌++◌, Text, text,
  text_eq, any, take, length, max, leb, ◌==◌, if◌then◌else◌,
}
use right_hire.Store.{User, Candidate, Failure, System}
use right_hire.Http.{Result, ok, err}
use right_hire.Results.Pages.{CandidateWithEval, list_results}
use right_hire.Ui.{Answer, answered, refused, Notice, failure, event, Event}
use right_hire.Ui.Queue.{ResultsState, is_active}

-- What the route for results answers, to a job and its query parameters.
abbrev pub Server : Type 0
Server = ℕ → Option Text → (offset limit : ℕ) → Answer (List CandidateWithEval)

-- `api_client.get_results`: all verdicts are asked for by no parameter.
abbrev pub get_results : Server → ℕ → Text → (offset limit : ℕ) → Answer (List CandidateWithEval)
get_results server job_id verdict_filter offset limit =
    server job_id (if text_eq verdict_filter (text "All") then none else some verdict_filter) offset
      limit

abbrev answer_of : {A : Type 0} → (ℕ → Text) → Result A → Answer A
answer_of detail (ok a) = answered a
answer_of detail (err status) = refused (detail status)

-- `list_results` of app/api/results.py, with the bounds of its query parameters. The order that the
-- database gives the rows may be another one for each offset.
unfoldable pub route :
    (Failure → Text)
    → (order : ℕ → List Candidate → List Candidate) → (detail : ℕ → Text) → User
    → System
    → Server
unfolding list_results
route shown order detail user s job_id verdict offset limit =
    if leb 1 limit && leb limit 200
    then answer_of detail (list_results shown (order offset) job_id verdict offset limit user s).0
    else refused (detail 422)

-- The state in which a fresh load starts, and what the first page makes of it.
abbrev pub reset : ResultsState → ResultsState
reset st = record st {
  offset = 0;
  results = [];
  has_more = true;
  load_error = [];
  selected_ids = [];
}

abbrev loaded : Answer (List CandidateWithEval) → ResultsState → ResultsState × List Notice
loaded (answered page) st = (
  record st {
    results = page;
    offset = length page;
    has_more = length page == st.page_size;
    has_loaded = true;
  },
  [],
)
loaded (refused e) st =
    (record st { load_error = e; results = []; has_loaded = true }, failure e ∷ [])

unfoldable pub load_results : Server → ResultsState → ResultsState × List Notice
load_results server st = elim st.selected_job_id [
  | none ↦ (st, [])
  | some job_id ↦
      let out = loaded (get_results server job_id st.verdict_filter 0 st.page_size) (reset st) in
      (out.0, out.1 ++ (event Event.poll_for_updates ∷ event Event.load_stats ∷ []))
]

abbrev appended : Answer (List CandidateWithEval) → ResultsState → ResultsState × List Notice
appended (answered page) st = (
  record st {
    results = st.results ++ page;
    offset = st.offset + length page;
    has_more = length page == st.page_size;
  },
  [],
)
appended (refused e) st = (record st { load_error = e }, failure e ∷ [])

unfoldable pub load_more : Server → ResultsState → ResultsState × List Notice
load_more server st = elim st.selected_job_id [
  | none ↦ (st, [])
  | some job_id ↦
      if not st.has_more
      then (st, [])
      else appended (get_results server job_id st.verdict_filter st.offset st.page_size) st
]

-- One round of `poll_for_updates`, which asks for as many results as are loaded; none ends the loop.
abbrev polled : Answer (List CandidateWithEval) → ResultsState → ResultsState
polled (answered page) st = record st { results = page; offset = length page }
polled (refused e) st = st

unfoldable pub poll_once : Server → ResultsState → Option ResultsState
poll_once server st = elim st.selected_job_id [
  | none ↦ none
  | some job_id ↦
      if any is_active st.results
      then some (
          polled
            (get_results server job_id st.verdict_filter 0 (max (length st.results) st.page_size))
            st)
      else none
]

abbrev poll_rounds : List Server → ResultsState → ResultsState
poll_rounds [] st = st
poll_rounds (server ∷ servers) st = elim (poll_once server st) [
  | none ↦ st
  | some st' ↦ poll_rounds servers st'
]

-- `poll_for_updates`, over the server as it is in each round.
unfoldable pub poll_for_updates : List Server → ResultsState → ResultsState
unfolding poll_once
poll_for_updates servers st = poll_rounds (take 24 servers) st
