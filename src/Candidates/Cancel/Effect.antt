-- ===== src/Candidates/Cancel/Effect.antt =====
-- app/api/ingest.py: the rows and evaluations after `cancel_pending_candidates`.
use right_hire.Base.{
  ℕ, ◌≡◌, refl, ◌∙◌, ap, Bool, true, ◌&&◌, map, arith, mem, any, any-append_right, text,
  count_where, update_where, length-map, length-select_where, count_where-update_where, Distinct,
  update_where-selected, ◌==◌,
}
use right_hire.Store.{User, Candidate, failed, cancelled, System, World, of_job}
use right_hire.Http.{Result, ok, err}
use right_hire.Http.Reads.{raised, went_on, ran}
use right_hire.Jobs.{get_owned_job, Reads-get_owned_job}
use right_hire.Candidates.{any-failure_evaluations}
use right_hire.Candidates.Cancel.{is_pending, pending_ids, cancel, cancel_pending_candidates}

abbrev pub waits_in : ℕ → Candidate → Bool
waits_in job_id c = of_job job_id c && is_pending c

abbrev pub cancelled_row : World → Candidate → Candidate
cancelled_row w c = record c { status = failed; updated_at = w.now }

pub record Cancelled (w : World) (job_id : ℕ) (s : System) (n : ℕ) (s' : System) : Type 0 where
  pub counted : n ≡ count_where (waits_in job_id) s.candidates
  -- The pending candidates of the job have failed, and no other row has changed.
  pub marked : s'.candidates ≡ update_where (waits_in job_id) (cancelled_row w) s.candidates
  pub none_left : count_where (waits_in job_id) s'.candidates ≡ 0
  pub explained :
      (c : ℕ)
      → mem c (pending_ids job_id s.candidates) ≡ true
      → any (λ e. e.candidate_id == c) s'.evaluations ≡ true
  -- No credit is given back, and the messages stay in the queue.
  pub uncharged : s'.users ≡ s.users
  pub queue_kept : s'.queue ≡ s.queue

abbrev pub Outcome : World → ℕ → System → Result ℕ × System → Type 0
Outcome w job_id s (ok n, s') = Cancelled w job_id s n s'
Outcome w job_id s (err e, s') = s' ≡ s

cancel-Outcome :
    (w : World) (job_id : ℕ) (s : System)
    → Distinct (map (λ c. c.id) s.candidates)
    → Outcome w job_id s (cancel w job_id s)
unfolding cancel
cancel-Outcome w job_id s d =
    let marked =
      update_where-selected (λ (c : Candidate). c.id) (waits_in job_id) (cancelled_row w)
        s.candidates d in
    record {
      counted =
          length-map (λ (c : Candidate). c.id) _
          ∙ length-select_where (waits_in job_id) s.candidates;
      marked = marked;
      none_left =
          ap (count_where (waits_in job_id)) marked
          ∙ count_where-update_where (waits_in job_id) (cancelled_row w) s.candidates
              (λ c. ground arith);
      explained = λ c h.
          any-append_right (λ e. e.candidate_id == c) s.evaluations _
            (any-failure_evaluations w s.drawn job_id cancelled (text "cancelled") c _ h);
      uncharged = refl;
      queue_kept = refl;
    }

-- Where candidate ids are distinct, a cancellation is refused and changes nothing, or it fails
-- exactly the pending candidates of the job, counts them, leaves none pending, records an evaluation
-- for each, and changes neither the credits nor the queue.
pub cancel_pending_candidates-Outcome :
    (w : World) (job_id : ℕ) (user : User) (s : System)
    → Distinct (map (λ c. c.id) s.candidates)
    → Outcome w job_id s (cancel_pending_candidates w job_id user s)
unfolding cancel_pending_candidates
cancel_pending_candidates-Outcome w job_id user s d =
    elim (ran (get_owned_job job_id user) (λ _. cancel w job_id) s
      (Reads-get_owned_job job_id user)) [
        | raised e _ out ↦ rw out refl
        | went_on _ _ out ↦ rw out (cancel-Outcome w job_id s d)
      ]
