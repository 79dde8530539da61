-- ===== src/Candidates/Retry/Single.antt =====
-- app/api/ingest.py: the row and the queue after `retry_candidate`.
use right_hire.Base.{
  ℕ, suc, ◌≡◌, ◌≢◌, refl, ◌∙◌, ap, ◌⊎◌, inl, inr, not, some, [], ◌∷◌, ◌++◌, arith, Bool-cases, ◌==◌,
  if◌then◌else◌,
}
use mathlib.Core.Option
use right_hire.Store.{
  User, Candidate, CandidateStatus, pending, failed, set_status, System, World, process_candidate,
}
use right_hire.Http.{Handler, Result, ok, err, raise_if, ◌>>◌}
use right_hire.Http.Reads.{Reads-raise_if, raised, went_on, ran}
use right_hire.Queue.Laws.{after_one, enqueue_one_sent, enqueue_one_lost}
use right_hire.Candidates.{
  find_candidate, find_candidate-update, get_owned_candidate, Reads-get_owned_candidate, IsOwned,
  get_owned_candidate-IsOwned, has_resume, save_status,
}
use right_hire.Candidates.Retry.{is_failed, requeue, retry_candidate}

-- The rows of the other candidates are untouched.
abbrev pub OthersKept : ℕ → System → System → Type 0
OthersKept i s s' = (j : ℕ) → j ≢ i → find_candidate j s'.candidates ≡ find_candidate j s.candidates

pub record Requeued (job_id candidate_id : ℕ) (s : System) (c : Candidate) (s' : System)
    : Type 0 where
  pub waits : c.status ≡ pending
  pub stored : find_candidate candidate_id s'.candidates ≡ some c
  pub others : OthersKept candidate_id s s'
  pub queued : s'.queue ≡ s.queue ++ process_candidate candidate_id job_id ∷ []
  pub uncharged : s'.users ≡ s.users

-- After a 503 the candidate has failed, as before.
pub record PutBack (candidate_id : ℕ) (s s' : System) : Type 0 where
  pub restored :
      Option.map (λ c. c.status) (find_candidate candidate_id s'.candidates) ≡ some failed
  pub others : OthersKept candidate_id s s'
  pub unsent : s'.queue ≡ s.queue
  pub uncharged : s'.users ≡ s.users

abbrev pub Outcome : ℕ → ℕ → System → Result Candidate × System → Type 0
Outcome job_id candidate_id s (ok c, s') = Requeued job_id candidate_id s c s'
Outcome job_id candidate_id s (err e, s') = (s' ≡ s) ⊎ (e ≡ 503) × PutBack candidate_id s s'

find-save_status :
    (w : World) (i j : ℕ) (status : CandidateStatus) (s : System)
    → find_candidate j (save_status w i status s).candidates ≡ (
        if j == i
        then Option.map (set_status w.now status) (find_candidate j s.candidates)
        else find_candidate j s.candidates)
find-save_status w i j status s =
    find_candidate-update i j (set_status w.now status) s.candidates (λ c. ground arith)

module _ (w : World) (job_id i : ℕ) (s : System) (c : Candidate) (o : IsOwned job_id i s c) where
  abbrev waiting : System
  waiting = save_status w c.id pending s

  sent-Requeued :
      Requeued job_id i s
        (set_status w.now pending c)
        (after_one (process_candidate c.id job_id) waiting)
  sent-Requeued = record {
    waits = ground arith;
    stored = ground (arith, find-save_status w c.id i pending s, o.found, o.named);
    others = λ j ne. ground (arith, find-save_status w c.id j pending s, o.named);
    queued = ap (λ k. s.queue ++ process_candidate k job_id ∷ []) o.named;
    uncharged = refl;
  }

  lost-PutBack :
      PutBack i s (save_status w c.id failed (record waiting { attempts = suc s.attempts }))
  lost-PutBack = record {
    restored = ground (
      arith,
      find-save_status w c.id i pending s,
      find-save_status w c.id i failed waiting,
      o.found,
      o.named,
    );
    others = λ j ne. ground (
      arith,
      find-save_status w c.id j pending s,
      find-save_status w c.id j failed waiting,
      o.named,
    );
    unsent = refl;
    uncharged = refl;
  }

  requeue-Outcome : Outcome job_id i s (requeue w job_id c s)
  unfolding requeue
  requeue-Outcome = elim (Bool-cases (w.accepts s.attempts)) [
    | inl t ↦ rw (enqueue_one_sent w job_id c.id waiting t) sent-Requeued
    | inr t ↦ rw (enqueue_one_lost w job_id c.id waiting t) (inr (refl, lost-PutBack))
  ]

-- The handler behind its first check and behind its second.
abbrev with_resume : World → ℕ → Candidate → Handler Candidate
with_resume w job_id c = raise_if (not (has_resume c)) 400 >> requeue w job_id c

abbrev checked : World → ℕ → Candidate → Handler Candidate
checked w job_id c = raise_if (not (is_failed c)) 400 >> with_resume w job_id c

-- A retry is refused and changes nothing; or it answers with the candidate, which is then pending
-- under its id, with a message for it in the queue; or it answers 503, and the candidate has failed
-- as before and nothing is queued. No other candidate changes, and no credit is taken.
pub retry_candidate-Outcome :
    (w : World) (job_id candidate_id : ℕ) (user : User) (s : System)
    → Outcome job_id candidate_id s (retry_candidate w job_id candidate_id user s)
unfolding retry_candidate
retry_candidate-Outcome w job_id i user s =
    elim (ran (get_owned_candidate job_id i user) (checked w job_id) s
      (Reads-get_owned_candidate job_id i user)) [
        | raised e _ out ↦ rw out (inl refl)
        | went_on c owned out ↦
            elim (ran (raise_if (not (is_failed c)) 400) (λ _. with_resume w job_id c) s
              (Reads-raise_if _ _)) [
                | raised e _ refused ↦ rw (out ∙ refused) (inl refl)
                | went_on _ _ has_failed ↦
                    elim (ran (raise_if (not (has_resume c)) 400) (λ _. requeue w job_id c) s
                      (Reads-raise_if _ _)) [
                        | raised e _ refused ↦ rw (out ∙ has_failed ∙ refused) (inl refl)
                        | went_on _ _ ready ↦ rw (out ∙ has_failed ∙ ready) (
                            requeue-Outcome w job_id i s c
                              (get_owned_candidate-IsOwned job_id i user s owned))
                      ]
              ]
      ]
