-- ===== src/Worker/Sweep/Body.antt =====
-- app/workers/tasks.py: what one turn of the loop of `sweep_stale_candidates` does.
use right_hire.Base.{
  suc, ◌≤◌, ◌≡◌, refl, ◌⊎◌, inl, inr, false, [], ◌∷◌, ◌++◌, arith, none, some, text, leb,
  Bool-cases, update_where,
}
use right_hire.Config.{Settings}
use right_hire.Store.{
  error, timed_out, requeue_failed, Candidate, CandidateStatus, pending, failed, Evaluation,
  Message, World, has_id, process_candidate,
}
use right_hire.Queue.Laws.{enqueue_sent, enqueue_lost}
use right_hire.Worker.Sweep.{is_stale, Swept, given_up, tried_again, requeue_stale, sweep_one}

-- The task of a candidate, and an evaluation of it that says that the watchdog gave up.
abbrev pub task_of : Candidate → Message
task_of c = process_candidate c.id c.job_id

pub record GaveUp (c : Candidate) (e : Evaluation) : Type 0 where
  pub of_it : e.candidate_id ≡ c.id
  pub in_job : e.job_id ≡ c.job_id
  pub unjudged : e.verdict ≡ none
  pub reason :
      (e.reasons ≡ some ((text "error", error (timed_out c.stale_retries)) ∷ []))
      ⊎ (e.reasons ≡ some ((text "error", error requeue_failed) ∷ []))
  pub by : e.model_used ≡ some (text "watchdog_timeout")

-- The row is requeued, with its task; or it has failed, with its evaluation.
pub data Ends (c : Candidate) (change : Candidate → Candidate) (r r' : Swept) : Type 0 where
  is_requeued :
      ((x : Candidate) → (change x).status ≡ pending)
      → r'.requeued ≡ suc r.requeued
      → r'.failed ≡ r.failed
      → r'.after.queue ≡ r.after.queue ++ task_of c ∷ []
      → r'.after.evaluations ≡ r.after.evaluations
      → Ends c change r r'
  has_failed :
      (e : Evaluation)
      → ((x : Candidate) → (change x).status ≡ failed)
      → GaveUp c e
      → r'.requeued ≡ r.requeued
      → r'.failed ≡ suc r.failed
      → r'.after.queue ≡ r.after.queue
      → r'.after.evaluations ≡ r.after.evaluations ++ e ∷ []
      → Ends c change r r'

-- What the loop's body does to the counters, the queue and the row.
pub record SweptOne (w : World) (conf : Settings) (c : Candidate) (r r' : Swept) : Type 0 where
  pub change : Candidate → Candidate
  pub fresh : (x : Candidate) → is_stale w conf (change x) ≡ false
  pub bounded :
      (x : Candidate)
      → x.stale_retries ≤ conf.stale_candidate_max_retries
      → (change x).stale_retries ≤ conf.stale_candidate_max_retries
  pub placed : (x : Candidate) → ((change x).status ≡ pending) ⊎ ((change x).status ≡ failed)
  pub keeps : (x : Candidate) → (change x).id ≡ x.id
  pub candidates : r'.after.candidates ≡ update_where (has_id c.id) change r.after.candidates
  pub ends : Ends c change r r'
  pub users : r'.after.users ≡ r.after.users
  pub jobs : r'.after.jobs ≡ r.after.jobs

fresh_now :
    (w : World) (conf : Settings) (c : Candidate) → c.updated_at ≡ w.now → is_stale w conf c ≡ false
fresh_now w conf c h = ground arith

module _ (w : World) (conf : Settings) (c : Candidate) (r : Swept) where
  pub sweep_one-SweptOne : SweptOne w conf c r (sweep_one w conf c r)
  unfolding sweep_one
  sweep_one-SweptOne = elim (Bool-cases (leb conf.stale_candidate_max_retries c.stale_retries)) [
    | inl spent ↦
        rw (sweep_one, spent)
          (record {
            change = given_up w;
            fresh = λ x. fresh_now w conf (given_up w x) refl;
            bounded = λ x h. h;
            placed = λ x. inr refl;
            keeps = λ x. refl;
            candidates = refl;
            ends =
                has_failed _ (λ x. refl)
                  (record {
                    of_it = refl;
                    in_job = refl;
                    unjudged = refl;
                    reason = inl refl;
                    by = refl;
                  })
                  refl refl refl refl;
            users = refl;
            jobs = refl;
          })
    | inr left ↦ elim (Bool-cases (w.accepts r.after.attempts)) [
      | inl t ↦
          rw
            (
              sweep_one,
              left,
              requeue_stale,
              enqueue_sent w (process_candidate c.id c.job_id) r.after t,
            )
            (record {
              change = tried_again w pending c;
              fresh = λ x. fresh_now w conf (tried_again w pending c x) refl;
              bounded = λ x h. ground arith;
              placed = λ x. inl refl;
              keeps = λ x. refl;
              candidates = refl;
              ends = is_requeued (λ x. refl) refl refl refl refl;
              users = refl;
              jobs = refl;
            })
      | inr t ↦
          rw
            (
              sweep_one,
              left,
              requeue_stale,
              enqueue_lost w (process_candidate c.id c.job_id) r.after t,
            )
            (record {
              change = tried_again w CandidateStatus.failed c;
              fresh = λ x. fresh_now w conf (tried_again w CandidateStatus.failed c x) refl;
              bounded = λ x h. ground arith;
              placed = λ x. inr refl;
              keeps = λ x. refl;
              candidates = refl;
              ends =
                  has_failed _ (λ x. refl)
                    (record {
                      of_it = refl;
                      in_job = refl;
                      unjudged = refl;
                      reason = inr refl;
                      by = refl;
                    })
                    refl refl refl refl;
              users = refl;
              jobs = refl;
            })
    ]
  ]
