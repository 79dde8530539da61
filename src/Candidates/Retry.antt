-- ===== src/Candidates/Retry.antt =====
-- app/api/ingest.py: `retry_candidate` and `retry_failed_candidates`.
pub mod Single
pub mod Bulk
use right_hire.Base.{
  ℕ, ◌+◌, ◌-◌, ◌≡◌, Bool, true, false, not, ◌&&◌, Option, none, some, List, [], ◌∷◌, ◌++◌, map,
  length, is_empty, select_where, if◌then◌else◌,
}
use right_hire.Store.{
  User, Candidate, CandidateStatus, pending, failed, status_eq, set_status, System, World, of_job,
}
use right_hire.Http.{Handler, Result, ok, err, raise_if, ◌>>=◌, ◌>>◌}
use right_hire.Queue.{enqueue_candidates}
use right_hire.Jobs.{get_owned_job}
use right_hire.Candidates.{get_owned_candidate, mark, has_resume, save_status}

abbrev pub is_failed : Candidate → Bool
is_failed c = status_eq c.status failed

-- `retry_candidate` from its first write on.
unfoldable pub requeue : World → ℕ → Candidate → Handler Candidate
requeue w job_id candidate s =
    let sent =
      enqueue_candidates w job_id (candidate.id ∷ []) (save_status w candidate.id pending s) in
    if is_empty sent.failed
    then (ok (set_status w.now pending candidate), sent.after)
    else (err 503, save_status w candidate.id failed sent.after)

unfoldable pub retry_candidate : World → ℕ → ℕ → User → Handler Candidate
unfolding requeue get_owned_candidate
retry_candidate w job_id candidate_id user = do
  candidate ← get_owned_candidate job_id candidate_id user
  raise_if (not (is_failed candidate)) 400
  raise_if (not (has_resume candidate)) 400
  requeue w job_id candidate

pub record RetryCandidatesResponse : Type 0 where
  pub retried_count : ℕ
  pub skipped_count : ℕ
  pub candidate_ids : List ℕ

abbrev pub failed_candidates : ℕ → List Candidate → List Candidate
failed_candidates job_id = select_where (λ c. of_job job_id c && is_failed c)

abbrev pub retryable : ℕ → List Candidate → List Candidate
retryable job_id cs = select_where has_resume (failed_candidates job_id cs)

abbrev skipped_count : ℕ → List Candidate → ℕ
skipped_count job_id cs = length (failed_candidates job_id cs) - length (retryable job_id cs)

abbrev pub save_mark : World → CandidateStatus → List ℕ → System → System
save_mark w status ids s = record s {
  db = record s.db { candidates = mark w.now status ids s.candidates };
}

-- `retry_failed_candidates` after the check of the owner.
unfoldable pub requeue_failed : World → ℕ → Handler RetryCandidatesResponse
requeue_failed w job_id s =
    let ids = map (λ c. c.id) (retryable job_id s.candidates) in
    let skipped = skipped_count job_id s.candidates in
    let sent = enqueue_candidates w job_id ids (save_mark w pending ids s) in
    if is_empty ids
    then (ok (record { retried_count = 0; skipped_count = skipped; candidate_ids = [] }), s)
    else (
      ok (record {
        retried_count = length sent.queued;
        skipped_count = skipped;
        candidate_ids = sent.queued;
      }),
      save_mark w failed sent.failed sent.after,
    )

unfoldable pub retry_failed_candidates : World → ℕ → User → Handler RetryCandidatesResponse
unfolding requeue_failed
retry_failed_candidates w job_id user = do get_owned_job job_id user; requeue_failed w job_id
