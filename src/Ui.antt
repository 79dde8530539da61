-- ===== src/Ui.antt =====
-- ui/right_hire_ui: the states behind the pages of the web interface. What a page shows follows from
-- the state; the answers of the API are arguments.
pub mod Rows
pub mod Queue
pub mod Create
use right_hire.Base.{Text}

-- What a request answers: a value, or the text of an `httpx.HTTPError` or an `ApiError`.
pub data Answer {ℓ} (A : Type ℓ) : Type ℓ where
  answered : A → Answer A
  refused : Text → Answer A

-- The handlers that another one starts when it is done.
pub data Event : Type 0 where
  load_results load_stats poll_for_updates delete_job delete_all_candidates delete_selected : Event

-- What a handler yields: a toast, a file offered for download, or an event.
pub data Notice : Type 0 where
  success info failure : Text → Notice
  download : (filename content : Text) → Notice
  event : Event → Notice
