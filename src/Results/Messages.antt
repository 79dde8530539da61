-- ===== src/Results/Messages.antt =====
-- The texts of failures: as app/workers/tasks.py and app/api/ingest.py store them, and as
-- app/api/results.py shows them.
pub mod Explained
use right_hire.Base.{
  ℕ, zero, suc, ◌+◌, ◌/◌, ◌%◌, Bool, true, false, ◌||◌, Option, none, some, List, [], ◌∷◌, ◌++◌,
  Text, text, text_eq, lower, strip, contains, take, ltb, is_empty, if◌then◌else◌,
}
use right_hire.Store.{
  Failure, no_resume, unresolved_file, fetch_failed, too_short, too_little_text, llm_unavailable,
  exception, cancelled, queue_failed, requeue_failed, timed_out,
}

-- `str(n)`: its last digits, before those that are there.
abbrev digits : (fuel : ℕ) → ℕ → Text → Text
digits zero n tail = tail
digits (suc fuel) n tail = elim (ltb n 10) [
  | true ↦ (48 + n) ∷ tail
  | false ↦ digits fuel (n / 10) ((48 + n % 10) ∷ tail)
]

unfoldable pub decimal : ℕ → Text
decimal n = digits (suc n) n []

-- What a message quotes: the link, the path of the file, and the text of the exception underneath.
pub record Details : Type 0 where
  pub link : Text
  pub path : Text
  pub cause : Text

abbrev unavailable_message : Text → Text → Text
unavailable_message step cause =
    if text_eq step (text "provider")
    then cause
    else text "LLM provider unavailable for " ++ (step ++ (text " parsing: " ++ cause))

-- `str(exc)[:500]`, and the messages that are stored as they are.
unfoldable pub message : Details → Failure → Text
unfolding decimal
message d no_resume = text "Candidate has no resume_text and no resume_url"
message d unresolved_file =
    take 500 (text "Could not resolve resume file for resume_url=" ++ d.link)
message d fetch_failed = take 500 d.cause
message d (too_short n) =
    take 500
      (text "Resume text is too short to evaluate (" ++ (decimal n ++ text " chars, minimum 100)"))
message d (too_little_text n) = take 500 (
    text "Resume file at "
    ++ (d.path
        ++ (text " produced too little text to evaluate ("
            ++ (decimal n ++ text " chars, minimum 100)"))))
message d (llm_unavailable step) = take 500 (unavailable_message step d.cause)
message d (exception t) = take 500 t
message d cancelled = text "Cancelled by user before processing started"
message d queue_failed = text "Failed to queue for processing — check Redis connectivity"
message d requeue_failed = take 500 (text "Could not requeue after stale timeout: " ++ d.cause)
message d (timed_out n) =
    text "Processing timed out after "
    ++ (decimal n
        ++ text
            " automatic retries — the worker likely crashed mid-job. Retry manually once the worker is confirmed healthy.")

-- What is shown for a failure.
abbrev pub unknown_advice : Text
unknown_advice = text "This candidate could not be processed. Try re-queuing them."

abbrev pub no_resume_advice : Text
no_resume_advice =
    text
      "No resume was provided for this candidate — the uploaded sheet had no resume link. Attach a resume file below to evaluate them."

abbrev pub link_advice : Text
link_advice =
    text
      "The resume link couldn't be opened. It may be private, expired, or not a direct file link. Attach the resume file below instead."

abbrev pub little_text_advice : Text
little_text_advice =
    text
      "The resume file was downloaded but too little text could be read from it — it may be a scanned image or an unsupported format. Try a text-based PDF."

abbrev pub too_short_advice : Text
too_short_advice =
    text
      "This candidate's resume is too short to assess. Attach the full resume file below and re-queue them."

abbrev pub queue_advice : Text
queue_advice = text "This candidate was never queued for processing. Re-queue them to try again."

abbrev system_advice : Text → Text
system_advice t =
    text
      "The AI model couldn't complete this evaluation — this is a system issue, not a reflection of the candidate. Re-queue them to retry. (Details: "
    ++ (take 300 t ++ text ")")

-- The branches on the lowered text.
abbrev advice_for : Text → Text → Text
advice_for lowered t =
    if contains lowered (text "no resume_text and no resume_url")
    then no_resume_advice
    else if contains lowered (text "could not resolve resume file")
    then link_advice
    else if contains lowered (text "no extractable text")
        || contains lowered (text "too little text")
    then little_text_advice
    else if contains lowered (text "too short to evaluate")
    then too_short_advice
    else if contains lowered (text "failed to queue")
    then queue_advice
    else if contains lowered (text "complete_json failed")
        || (contains lowered (text "embed failed")
            || contains lowered (text "llm provider unavailable"))
    then system_advice t
    else text "Processing failed: " ++ t

unfoldable pub friendly_text : Text → Text
unfolding lower
friendly_text t = if is_empty t then unknown_advice else advice_for (lower t) t

-- `_friendly_error`
unfoldable pub friendly_error : Option Text → Text
unfolding strip friendly_text
friendly_error none = unknown_advice
friendly_error (some raw) = friendly_text (strip raw)
