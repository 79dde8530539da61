-- ===== src/Linked/Routes.antt =====
-- app/api: each route over candidates, and the foreign keys.
use right_hire.Base.{ℕ, inl, inr, Bool-cases, [], ◌∷◌, map, text, is_empty}
use right_hire.Store.{User, Candidate, pending, failed, cancelled, System, World}
use right_hire.Http.Reads.{Reads-raise_if}
use right_hire.Queue.{enqueue_candidates}
use right_hire.Jobs.{Reads-get_owned_job}
use right_hire.Candidates.{Reads-get_owned_candidate, save_status}
use right_hire.Candidates.Retry.{
  requeue, retry_candidate, requeue_failed, save_mark, retry_failed_candidates, retryable,
}
use right_hire.Candidates.Cancel.{is_pending, pending_ids, cancel, cancel_pending_candidates}
use right_hire.Linked.{Extends-same, Extends-trans, Owns-selected}
use right_hire.Linked.Requests.{
  Extending, Extending-bind, Extends-mark, Extends-save_status, Extends-fail, Extends-sent,
}

Extending-requeue :
    (w : World) (job_id : ℕ) (s : System) (c : Candidate) → Extending s (requeue w job_id c)
unfolding requeue
Extending-requeue w job_id s c =
    let saved = save_status w c.id pending s in
    let sent = enqueue_candidates w job_id (c.id ∷ []) saved in
    record {
      run = Extends-trans s.db saved.db _ (Extends-save_status w c.id pending s) (
          Extends-sent w job_id (c.id ∷ []) saved (elim (Bool-cases (is_empty sent.failed)) [
            | inl t ↦ rw t (Extends-same sent.after.db)
            | inr t ↦ rw t (Extends-save_status w c.id failed sent.after)
          ]));
    }

pub Extending-retry_candidate :
    (w : World) (job_id candidate_id : ℕ) (user : User) (s : System)
    → Extending s (retry_candidate w job_id candidate_id user)
unfolding retry_candidate
Extending-retry_candidate w job_id i user s =
    search (Extending-bind, Reads-get_owned_candidate, Reads-raise_if, Extending-requeue) depth 12

Extending-requeue_failed :
    (w : World) (job_id : ℕ) (s : System) → Extending s (requeue_failed w job_id)
unfolding requeue_failed
Extending-requeue_failed w job_id s =
    let ids = map (λ c. c.id) (retryable job_id s.candidates) in
    let marked = save_mark w pending ids s in
    let sent = enqueue_candidates w job_id ids marked in
    elim (Bool-cases (is_empty ids)) [
      | inl t ↦ record { run = rw t (Extends-same s.db) }
      | inr t ↦ record {
        run = rw t (
            Extends-trans s.db marked.db _ (Extends-mark w pending ids s.db)
              (Extends-sent w job_id ids marked (Extends-mark w failed sent.failed sent.after.db)));
      }
    ]

pub Extending-retry_failed_candidates :
    (w : World) (job_id : ℕ) (user : User) (s : System)
    → Extending s (retry_failed_candidates w job_id user)
unfolding retry_failed_candidates
Extending-retry_failed_candidates w job_id user s =
    search (Extending-bind, Reads-get_owned_job, Extending-requeue_failed) depth 8

Extending-cancel : (w : World) (job_id : ℕ) (s : System) → Extending s (cancel w job_id)
unfolding cancel
Extending-cancel w job_id s = record {
  run =
      Extends-fail w s.drawn job_id cancelled (text "cancelled") (pending_ids job_id s.candidates)
        s.db (Owns-selected job_id is_pending s.candidates);
}

pub Extending-cancel_pending_candidates :
    (w : World) (job_id : ℕ) (user : User) (s : System)
    → Extending s (cancel_pending_candidates w job_id user)
unfolding cancel_pending_candidates
Extending-cancel_pending_candidates w job_id user s =
    search (Extending-bind, Reads-get_owned_job, Extending-cancel) depth 8
