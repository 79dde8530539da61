-- ===== src/Candidates/Retry/Bulk.antt =====
-- app/api/ingest.py: the counts, rows and messages after `retry_failed_candidates`.
use right_hire.Base.{
  ℕ, ◌+◌, ◌-◌, ◌≡◌, refl, ◌∙◌, ap, inl, inr, Bool, true, false, not, Parts, no_items, count_where,
  List, [], ◌∷◌, ◌++◌, map, arith, length, is_empty, sym, append-nil, Bool-cases, select_where,
  is_empty→nil,
}
use mathlib.Core.Path.{subst}
use right_hire.Store.{User, Candidate, CandidateStatus, pending, failed, System, World}
use right_hire.Http.{Result, ok, err}
use right_hire.Http.Reads.{raised, went_on, ran}
use right_hire.Jobs.{get_owned_job, Reads-get_owned_job}
use right_hire.Queue.Laws.{Parts-accepted, refused, sent_to, enqueue_candidates_lem}
use right_hire.Candidates.{has_resume, mark}
use right_hire.Candidates.Retry.{
  RetryCandidatesResponse, failed_candidates, retryable, save_mark, requeue_failed,
  retry_failed_candidates,
}

pub record Retried (job_id : ℕ) (s : System) (r : RetryCandidatesResponse) (s' : System)
    : Type 0 where
  pub lost : List ℕ
  -- Each failed candidate of the job with a resume was queued or lost, and the others are skipped.
  pub parts : Parts (map (λ c. c.id) (retryable job_id s.candidates)) r.candidate_ids lost
  pub skipped :
      r.skipped_count
      ≡ count_where (λ c. not (has_resume c)) (failed_candidates job_id s.candidates)
  pub listed : length r.candidate_ids ≡ r.retried_count
  pub sent : s'.queue ≡ s.queue ++ sent_to job_id r.candidate_ids
  -- The rows: all that may be retried wait, and then the lost ones fail again.
  pub marked :
      (now : ℕ) × (s'.candidates
        ≡ mark now failed lost
            (mark now pending (map (λ c. c.id) (retryable job_id s.candidates)) s.candidates))
  pub uncharged : s'.users ≡ s.users

abbrev pub Outcome : ℕ → System → Result RetryCandidatesResponse × System → Type 0
Outcome job_id s (ok r, s') = Retried job_id s r s'
Outcome job_id s (err e, s') = s' ≡ s

split :
    (p : Candidate → Bool) (cs : List Candidate)
    → length (select_where p cs) + count_where (λ c. not (p c)) cs ≡ length cs
split p [] = omega arith
split p (c ∷ cs) = ground (arith, split p cs)

left_out :
    (p : Candidate → Bool) (cs : List Candidate)
    → length cs - length (select_where p cs) ≡ count_where (λ c. not (p c)) cs
left_out p cs = omega (arith, split p cs)

mark-nil : (now : ℕ) (st : CandidateStatus) (cs : List Candidate) → mark now st [] cs ≡ cs
mark-nil now st [] = refl
mark-nil now st (c ∷ cs) = ap (λ l. c ∷ l) (mark-nil now st cs)

module _ (w : World) (job_id : ℕ) (s : System) where
  abbrev ids : List ℕ
  ids = map (λ c. c.id) (retryable job_id s.candidates)

  requeue_failed-Retried : is_empty ids ≡ false → Outcome job_id s (requeue_failed w job_id s)
  unfolding requeue_failed
  requeue_failed-Retried h =
      rw (enqueue_candidates_lem w job_id ids (save_mark w pending ids s), h)
        (record {
          lost = refused w s.attempts ids;
          parts = Parts-accepted w s.attempts ids;
          skipped = left_out has_resume (failed_candidates job_id s.candidates);
          listed = refl;
          sent = refl;
          marked = (w.now, refl);
          uncharged = refl;
        })

  early-Retried : is_empty ids ≡ true → Outcome job_id s (requeue_failed w job_id s)
  unfolding requeue_failed
  early-Retried h =
      let nothing = is_empty→nil ids h in
      rw h (record {
        lost = [];
        parts = subst (λ l. Parts l [] []) (sym nothing) no_items;
        skipped = left_out has_resume (failed_candidates job_id s.candidates);
        listed = refl;
        sent = sym (append-nil s.queue);
        marked = (
          0,
          sym (
              mark-nil 0 failed (mark 0 pending ids s.candidates)
              ∙ ap (λ l. mark 0 pending l s.candidates) nothing
              ∙ mark-nil 0 pending s.candidates),
        );
        uncharged = refl;
      })

-- A bulk retry is refused and changes nothing; or each failed candidate of the job that has a resume is
-- retried or lost, and those without one are counted as skipped; the answer lists and counts the retried
-- ones, and the queue receives a message for each of them and no other; the rows with a resume are
-- marked pending and the lost ones failed again, and no credit is taken.
pub retry_failed_candidates-Outcome :
    (w : World) (job_id : ℕ) (user : User) (s : System)
    → Outcome job_id s (retry_failed_candidates w job_id user s)
unfolding retry_failed_candidates
retry_failed_candidates-Outcome w job_id user s =
    elim (ran (get_owned_job job_id user) (λ _. requeue_failed w job_id) s
      (Reads-get_owned_job job_id user)) [
        | raised e _ out ↦ rw out refl
        | went_on _ _ out ↦ rw out (elim (Bool-cases (is_empty (ids w job_id s))) [
          | inl h ↦ early-Retried w job_id s h
          | inr h ↦ requeue_failed-Retried w job_id s h
        ])
      ]
