-- ===== src/Ui/Queue.antt =====
-- ui/right_hire_ui/states/results_state.py: the state of the results page, what it shows, and the
-- handlers that do not call the API. The flags that are set only while a handler runs are left out.
pub mod Loads
pub mod Actions
pub mod Calibrate
pub mod Counts
pub mod Selection
use right_hire.Base.{
  ℕ, ◌+◌, ◌≡◌, Bool, true, false, not, ◌&&◌, ◌||◌, Option, none, some, List, [], ◌∷◌, ◌++◌, map,
  Text, text, text_eq, all, length, mem, is_empty, contains, any, count_where, select_where,
  first_where, is_some, ltb, ◌==◌, Dict, insert, lookup_or, if◌then◌else◌,
}
use right_hire.Base.Rational.{Rational, ratio}
use right_hire.Store.{Job, CandidateStatus, Failure}
use right_hire.Results.Pages.{CandidateWithEval}
use right_hire.Results.Stats.{BatchStats}
use right_hire.Ui.Rows.{QueueRow, build_row, status_text}

-- An id that is the empty text is none.
pub record ResultsState : Type 0 where
  pub jobs : List Job
  pub selected_job_id : Option ℕ
  pub verdict_filter : Text
  pub results : List CandidateWithEval
  pub load_error : Text
  pub has_loaded : Bool
  pub offset : ℕ
  pub page_size : ℕ
  pub has_more : Bool
  pub resume_target_id : Option ℕ
  pub batch_stats : Option BatchStats
  pub draft_fit_threshold : Rational
  pub draft_maybe_threshold : Rational
  pub inspect_candidate_id : Option ℕ
  pub queue_tab : Text
  pub show_calibrate : Bool
  pub show_attach : Bool
  pub pending_delete_candidate_id : Option ℕ
  pub confirm_job_action : Text
  pub selected_ids : List ℕ

-- The state of a new session.
abbrev pub new_state : ResultsState
new_state = record {
  jobs = [];
  selected_job_id = none;
  verdict_filter = text "All";
  results = [];
  load_error = [];
  has_loaded = false;
  offset = 0;
  page_size = 50;
  has_more = true;
  resume_target_id = none;
  batch_stats = none;
  draft_fit_threshold = ratio 70 99;
  draft_maybe_threshold = ratio 40 99;
  inspect_candidate_id = none;
  queue_tab = text "All";
  show_calibrate = false;
  show_attach = false;
  pending_delete_candidate_id = none;
  confirm_job_action = [];
  selected_ids = [];
}

-- `selected_job_required_skills`, `selected_job_title`
abbrev skills_of : Option Job → List Text
skills_of none = []
skills_of (some j) = elim j.jd_parsed [ none ↦ [] | some jd ↦ jd.required_skills ]

abbrev selected_job : ResultsState → Option Job
selected_job st = elim st.selected_job_id [
  | none ↦ none
  | some i ↦ first_where (λ (j : Job). j.id == i) st.jobs
]

unfoldable pub selected_job_required_skills : ResultsState → List Text
selected_job_required_skills st = skills_of (selected_job st)

-- `toggle_queue_tab`
unfoldable pub toggle_queue_tab : Text → ResultsState → ResultsState
toggle_queue_tab value st = record st {
  queue_tab = if text_eq st.queue_tab value then text "All" else value;
}

abbrev pub without_id : ℕ → List ℕ → List ℕ
without_id i ids = select_where (λ j. not (j == i)) ids

unfoldable pub toggle_selected : ℕ → ResultsState → ResultsState
toggle_selected i st = record st {
  selected_ids =
      if mem i st.selected_ids then without_id i st.selected_ids else st.selected_ids ++ i ∷ [];
}

-- `any_dialog_open`
unfoldable pub any_dialog_open : ResultsState → Bool
any_dialog_open st =
    is_some st.pending_delete_candidate_id
    || (not (is_empty st.confirm_job_action) || is_some st.inspect_candidate_id)

module _ (shown : Failure → Text) (repr : Rational → Text) where
  unfoldable pub display_rows : ResultsState → List QueueRow
  unfolding selected_job_required_skills
  display_rows st = map (build_row shown repr (selected_job_required_skills st)) st.results

  abbrev pub in_verdict : Text → QueueRow → Bool
  in_verdict wanted row = elim row.verdict [ none ↦ false | some v ↦ text_eq v wanted ]

  unfoldable pub queue_rows : ResultsState → List QueueRow
  unfolding display_rows
  queue_rows st =
      if text_eq st.queue_tab (text "All")
      then display_rows st
      else select_where (in_verdict st.queue_tab) (display_rows st)

  abbrev pub visible : ResultsState → List ℕ
  visible st = map (λ row. row.candidate_id) (queue_rows st)

  abbrev pub all_in : List ℕ → List ℕ → Bool
  all_in selected ids = all (λ i. mem i selected) ids

  abbrev pub all_visible_selected : ResultsState → Bool
  all_visible_selected st = not (is_empty (visible st)) && all_in st.selected_ids (visible st)

  -- `toggle_select_all`
  abbrev pub without_ids : List ℕ → List ℕ → List ℕ
  without_ids gone ids = select_where (λ i. not (mem i gone)) ids

  unfoldable pub toggle_select_all : ResultsState → ResultsState
  unfolding queue_rows
  toggle_select_all st =
      let ids = visible st in
      if all_in st.selected_ids ids && not (is_empty ids)
      then record st { selected_ids = without_ids ids st.selected_ids }
      else record st { selected_ids = st.selected_ids ++ without_ids st.selected_ids ids }

  unfoldable pub selected_rows : ResultsState → List QueueRow
  unfolding display_rows
  selected_rows st = select_where (λ row. mem row.candidate_id st.selected_ids) (display_rows st)

  unfoldable pub needs_attention_count : ResultsState → ℕ
  unfolding display_rows
  needs_attention_count st = count_where (λ row. row.is_error) (display_rows st)

  unfoldable pub fit_count : ResultsState → ℕ
  unfolding display_rows
  fit_count st = count_where (in_verdict (text "Fit")) (display_rows st)

  unfoldable pub maybe_count : ResultsState → ℕ
  unfolding display_rows
  maybe_count st = count_where (in_verdict (text "Maybe")) (display_rows st)

  unfoldable pub reject_count : ResultsState → ℕ
  unfolding display_rows
  reject_count st = count_where (in_verdict (text "Reject")) (display_rows st)

  abbrev pub reason_label : Text → Text
  reason_label error =
      if contains error (text "Google Drive link is PRIVATE")
      then text "Private Google Drive link"
      else if contains error (text "LLM provider unavailable")
      then text "Temporarily unavailable — retry processing"
      else if not (is_empty error)
      then text "Other error"
      else text "Unknown error"

  abbrev count_reasons : List QueueRow → Dict ℕ → Dict ℕ
  count_reasons [] counts = counts
  count_reasons (row ∷ rows) counts =
      let label = reason_label row.error in
      count_reasons rows
        (if row.is_error then insert label (lookup_or label 0 counts + 1) counts else counts)

  -- `sorted(counts.items(), key=lambda kv: -kv[1])`, which is stable.
  abbrev insert_count : Text × ℕ → Dict ℕ → Dict ℕ
  insert_count a [] = a ∷ []
  insert_count a (b ∷ counts) = if ltb a.1 b.1 then b ∷ insert_count a counts else a ∷ b ∷ counts

  abbrev sort_counts : Dict ℕ → Dict ℕ
  sort_counts [] = []
  sort_counts (a ∷ counts) = insert_count a (sort_counts counts)

  unfoldable pub failure_reason_counts : ResultsState → Dict ℕ
  unfolding display_rows
  failure_reason_counts st = sort_counts (count_reasons (display_rows st) [])

abbrev has_status : CandidateStatus → CandidateWithEval → Bool
has_status status item = text_eq (status_text item.candidate.status) (status_text status)

unfoldable pub pending_count : ResultsState → ℕ
pending_count st = count_where (has_status CandidateStatus.pending) st.results

unfoldable pub processing_count : ResultsState → ℕ
processing_count st = count_where (has_status CandidateStatus.processing) st.results

-- A row of `_ACTIVE_STATUSES`.
abbrev pub is_active : CandidateWithEval → Bool
is_active item =
    has_status CandidateStatus.pending item || has_status CandidateStatus.processing item
