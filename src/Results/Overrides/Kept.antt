-- ===== src/Results/Overrides/Kept.antt =====
-- app/api/results.py: what an override and a deletion of an evaluation keep.
use right_hire.Base.{
  ℕ, ◌≡◌, ◌≢◌, refl, ap, Option, none, some, Takes, arith, Text, ◌==◌, ==_self, first_where_holds,
  first_where-update_at, first_where-delete_at,
}
use right_hire.Schemas.{EvaluationUpdate}
use right_hire.Store.{User, Job, Evaluation, Failure, System}
use right_hire.Http.{Handler, Result, ok, err, modify, ◌>>=◌, ◌>>◌}
use right_hire.Http.Reads.{Reads, Reads-or_raise, raised, went_on, ran}
use right_hire.Jobs.{get_owned_job, Reads-get_owned_job, IsOwnedJob, get_owned_job-IsOwnedJob}
use right_hire.Results.{find_evaluation, all_scores, current_thresholds}
use right_hire.Results.Card.{build_reasoning_card}
use right_hire.Results.Pages.{EvaluationResponse, response}
use right_hire.Results.Overrides.{
  get_evaluation_row, or_old, overridden, save_override, without_evaluation, delete_evaluation,
  override_with, update_evaluation,
}

pub Reads-get_evaluation_row : (eval_id : ℕ) → Reads (get_evaluation_row eval_id)
Reads-get_evaluation_row eval_id = record {
  keeps = λ s. (Reads-or_raise (find_evaluation eval_id s.evaluations) 404).keeps s;
}

-- The row that a request names, and its job, which is the user's.
pub record IsOwnEvaluation (eval_id : ℕ) (user : User) (s : System) (e : Evaluation) (job : Job)
    : Type 0 where
  pub found : find_evaluation eval_id s.evaluations ≡ some e
  pub named : e.id ≡ eval_id
  pub owned : IsOwnedJob e.job_id user s job

get_evaluation_row_found :
    (eval_id : ℕ) (s : System) {e : Evaluation}
    → (get_evaluation_row eval_id s).0 ≡ ok e
    → find_evaluation eval_id s.evaluations ≡ some e
get_evaluation_row_found eval_id s h = ground arith

own_evaluation :
    (eval_id : ℕ) (user : User) (s : System) (e : Evaluation) (job : Job)
    → (get_evaluation_row eval_id s).0 ≡ ok e
    → (get_owned_job e.job_id user s).0 ≡ ok job
    → IsOwnEvaluation eval_id user s e job
own_evaluation eval_id user s e job h k =
    let found = get_evaluation_row_found eval_id s h in
    record {
      found = found;
      named =
          ground
            (arith, first_where_holds (λ (x : Evaluation). x.id == eval_id) s.evaluations e found);
      owned = get_owned_job-IsOwnedJob e.job_id user s k;
    }

-- What an answered override leaves.
pub record Overridden (shown : Failure → Text) (eval_id : ℕ) (body : EvaluationUpdate) (user : User)
    (s : System) (r : EvaluationResponse) (s' : System) : Type 0 where
  pub before : Evaluation
  pub job : Job
  pub own : IsOwnEvaluation eval_id user s before job
  pub is : find_evaluation eval_id s'.evaluations ≡ some r.evaluation
  pub verdict : Takes body.verdict before.verdict r.evaluation.verdict
  pub score : Takes body.score before.score r.evaluation.score
  pub same_candidate : r.evaluation.candidate_id ≡ before.candidate_id
  pub same_job : r.evaluation.job_id ≡ before.job_id
  pub same_rubric : r.evaluation.rubric ≡ before.rubric
  pub same_reasons : r.evaluation.reasons ≡ before.reasons
  pub same_model : r.evaluation.model_used ≡ before.model_used
  pub same_key : r.evaluation.cache_key ≡ before.cache_key
  pub same_date : r.evaluation.created_at ≡ before.created_at
  -- The card ranks the new score among the scores after the change.
  pub card :
      r.reasoning_card
      ≡ build_reasoning_card shown r.evaluation
          (all_scores before.job_id s'.evaluations)
          (current_thresholds job)
  pub others :
      (j : ℕ) → j ≢ eval_id → find_evaluation j s'.evaluations ≡ find_evaluation j s.evaluations
  pub candidates : s'.candidates ≡ s.candidates
  pub queue : s'.queue ≡ s.queue

abbrev pub Outcome :
    (Failure → Text)
    → ℕ
    → EvaluationUpdate
    → User
    → System
    → Result EvaluationResponse × System
    → Type 0
Outcome shown eval_id body user s (ok r, s') = Overridden shown eval_id body user s r s'
Outcome shown eval_id body user s (err e, s') = s' ≡ s

Takes-or_old : {A : Type 0} (new old : Option A) → Takes new old (or_old new old)
Takes-or_old (some a) old = refl
Takes-or_old none old = refl

module _ (shown : Failure → Text) (eval_id : ℕ) (body : EvaluationUpdate) (user : User)
    (s : System) where
  override_with-Overridden :
      (e : Evaluation) (job : Job)
      → (o : IsOwnEvaluation eval_id user s e job)
      → Outcome shown eval_id body user s (override_with shown body e job s)
  unfolding response
  override_with-Overridden e job o = record {
    before = e;
    job = job;
    own = o;
    is = ground (
      arith,
      first_where-update_at (λ x. x.id) e.id eval_id (overridden body) s.evaluations (λ x. refl),
      o.found,
      o.named,
      ==_self eval_id,
    );
    verdict = Takes-or_old body.verdict e.verdict;
    score = Takes-or_old body.score e.score;
    same_candidate = refl;
    same_job = refl;
    same_rubric = refl;
    same_reasons = refl;
    same_model = refl;
    same_key = refl;
    same_date = refl;
    card =
        ap
          (λ i.
            build_reasoning_card shown (overridden body e)
              (all_scores i (save_override body e.id s).evaluations) (current_thresholds job))
          o.owned.named;
    others = λ j ne. ground (
      arith,
      first_where-update_at (λ x. x.id) e.id j (overridden body) s.evaluations (λ x. refl),
      o.named,
    );
    candidates = refl;
    queue = refl;
  }

  with_job-Outcome :
      (e : Evaluation)
      → (get_evaluation_row eval_id s).0 ≡ ok e
      → Outcome shown eval_id body user s
          ((get_owned_job e.job_id user >>= override_with shown body e) s)
  with_job-Outcome e h =
      elim (ran (get_owned_job e.job_id user) (override_with shown body e) s
        (Reads-get_owned_job e.job_id user)) [
          | raised _ _ out ↦ rw out refl
          | went_on job k out ↦
              rw out (override_with-Overridden e job (own_evaluation eval_id user s e job h k))
        ]

-- An override is refused and changes nothing; or it is of an evaluation of the user's own job, and
-- answers with the row as it is stored, with the verdict and score of the request where it has them,
-- else those before, and the rest of the row as before, and with a card that ranks it among the scores
-- after the change. No other row, candidate or message changes.
pub update_evaluation-Outcome :
    (shown : Failure → Text) (eval_id : ℕ) (body : EvaluationUpdate) (user : User) (s : System)
    → Outcome shown eval_id body user s (update_evaluation shown eval_id body user s)
unfolding update_evaluation
update_evaluation-Outcome shown eval_id body user s =
    elim (ran (get_evaluation_row eval_id)
      (λ e. get_owned_job e.job_id user >>= override_with shown body e) s
      (Reads-get_evaluation_row eval_id)) [
        | raised _ _ out ↦ rw out refl
        | went_on e h out ↦ rw out (with_job-Outcome shown eval_id body user s e h)
      ]

-- What an answered deletion leaves.
pub record Deleted (eval_id : ℕ) (user : User) (s s' : System) : Type 0 where
  pub before : Evaluation
  pub job : Job
  pub own : IsOwnEvaluation eval_id user s before job
  pub gone : find_evaluation eval_id s'.evaluations ≡ none
  pub others :
      (j : ℕ) → j ≢ eval_id → find_evaluation j s'.evaluations ≡ find_evaluation j s.evaluations
  pub candidates : s'.candidates ≡ s.candidates
  pub queue : s'.queue ≡ s.queue

abbrev pub DeleteOutcome : ℕ → User → System → Result (Unit {0}) × System → Type 0
DeleteOutcome eval_id user s (ok _, s') = Deleted eval_id user s s'
DeleteOutcome eval_id user s (err e, s') = s' ≡ s

module _ (eval_id : ℕ) (user : User) (s : System) where
  abbrev dropped : Evaluation → Handler (Unit {0})
  dropped e = get_owned_job e.job_id user >> modify (without_evaluation e.id)

  without_evaluation-Deleted :
      (e : Evaluation) (job : Job)
      → IsOwnEvaluation eval_id user s e job
      → Deleted eval_id user s (without_evaluation e.id s)
  without_evaluation-Deleted e job o = record {
    before = e;
    job = job;
    own = o;
    gone = ground (
      arith,
      first_where-delete_at (λ x. x.id) e.id eval_id s.evaluations,
      o.named,
      ==_self eval_id,
    );
    others =
        λ j ne. ground (arith, first_where-delete_at (λ x. x.id) e.id j s.evaluations, o.named);
    candidates = refl;
    queue = refl;
  }

  dropped-Outcome :
      (e : Evaluation)
      → (get_evaluation_row eval_id s).0 ≡ ok e
      → DeleteOutcome eval_id user s (dropped e s)
  dropped-Outcome e h =
      elim (ran (get_owned_job e.job_id user) (λ _. modify (without_evaluation e.id)) s
        (Reads-get_owned_job e.job_id user)) [
          | raised _ _ out ↦ rw out refl
          | went_on job k out ↦
              rw out (without_evaluation-Deleted e job (own_evaluation eval_id user s e job h k))
        ]

  -- A deletion is refused and changes nothing; or it is of an evaluation of the user's own job, which
  -- is then gone, and no other evaluation, candidate or message changes.
  pub delete_evaluation-Outcome : DeleteOutcome eval_id user s (delete_evaluation eval_id user s)
  unfolding delete_evaluation
  delete_evaluation-Outcome =
      elim (ran (get_evaluation_row eval_id) dropped s (Reads-get_evaluation_row eval_id)) [
        | raised _ _ out ↦ rw out refl
        | went_on e h out ↦ rw out (dropped-Outcome e h)
      ]
