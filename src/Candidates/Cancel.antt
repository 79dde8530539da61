-- ===== src/Candidates/Cancel.antt =====
-- app/api/ingest.py: `cancel_pending_candidates`.
pub mod Effect
use right_hire.Base.{
  ℕ, ◌+◌, ◌≡◌, Bool, true, false, ◌&&◌, List, [], ◌∷◌, ◌++◌, map, length, text, select_where,
}
use right_hire.Store.{User, Candidate, pending, failed, cancelled, status_eq, System, World, of_job}
use right_hire.Http.{Handler, Result, ok, ◌>>=◌, ◌>>◌}
use right_hire.Jobs.{get_owned_job}
use right_hire.Candidates.{mark, failure_evaluations}

abbrev pub is_pending : Candidate → Bool
is_pending c = status_eq c.status pending

abbrev pub pending_ids : ℕ → List Candidate → List ℕ
pending_ids job_id cs = map (λ c. c.id) (select_where (λ c. of_job job_id c && is_pending c) cs)

-- The writes, and the count that is returned. With no pending id they write nothing, which is the
-- early return.
unfoldable pub cancel : World → ℕ → Handler ℕ
cancel w job_id s =
    let ids = pending_ids job_id s.candidates in
    (
      ok (length ids),
      record s {
        db = record s.db {
          candidates = mark w.now failed ids s.candidates;
          evaluations =
              s.evaluations
              ++ failure_evaluations w s.drawn job_id cancelled (text "cancelled") ids;
        };
        drawn = s.drawn + length ids;
      },
    )

unfoldable pub cancel_pending_candidates : World → ℕ → User → Handler ℕ
unfolding cancel
cancel_pending_candidates w job_id user = do get_owned_job job_id user; cancel w job_id
