-- ===== src/Results/Overrides.antt =====
-- app/api/results.py: `get_evaluation`, `update_evaluation` and `delete_evaluation`.
pub mod Kept
use right_hire.Base.{ℕ, Bool, Option, none, some, List, Text, ◌==◌, delete_where, update_where}
use right_hire.Base.Rational.{Rational}
use right_hire.Schemas.{Verdict, EvaluationUpdate}
use right_hire.Store.{User, Job, Evaluation, Failure, System}
use right_hire.Http.{Handler, gets, modify, or_raise, ◌>>=◌, ◌>>◌}
use right_hire.Jobs.{get_owned_job}
use right_hire.Results.{find_evaluation}
use right_hire.Results.Pages.{EvaluationResponse, response}

-- `db.get(Evaluation, eval_id)` and its 404.
abbrev pub get_evaluation_row : ℕ → Handler Evaluation
get_evaluation_row eval_id s = or_raise (find_evaluation eval_id s.evaluations) 404 s

-- `if body.x is not None: eval_obj.x = body.x`
abbrev or_old : {A : Type 0} → Option A → Option A → Option A
or_old (some a) old = some a
or_old none old = old

abbrev pub overridden : EvaluationUpdate → Evaluation → Evaluation
overridden body e = record e {
  verdict = or_old body.verdict e.verdict;
  score = or_old body.score e.score;
}

abbrev pub save_override : EvaluationUpdate → ℕ → System → System
save_override body eval_id s = record s {
  db = record s.db {
    evaluations = update_where (λ e. e.id == eval_id) (overridden body) s.evaluations;
  };
}

abbrev pub without_evaluation : ℕ → System → System
without_evaluation eval_id s = record s {
  db = record s.db { evaluations = delete_where (λ e. e.id == eval_id) s.evaluations };
}

-- `delete_evaluation`
unfoldable pub delete_evaluation : ℕ → User → Handler (Unit {0})
delete_evaluation eval_id user = do
  e ← get_evaluation_row eval_id
  get_owned_job e.job_id user
  modify (without_evaluation e.id)

module _ (shown : Failure → Text) where
  -- `get_evaluation`
  unfoldable pub get_evaluation : ℕ → User → Handler EvaluationResponse
  unfolding response
  get_evaluation eval_id user = do
    e ← get_evaluation_row eval_id
    job ← get_owned_job e.job_id user
    gets (λ s. response shown job s e)

  abbrev pub override_with : EvaluationUpdate → Evaluation → Job → Handler EvaluationResponse
  override_with body e job = do
    modify (save_override body e.id)
    gets (λ s. response shown job s (overridden body e))

  -- `update_evaluation`
  unfoldable pub update_evaluation : ℕ → EvaluationUpdate → User → Handler EvaluationResponse
  unfolding response
  update_evaluation eval_id body user = do
    e ← get_evaluation_row eval_id
    job ← get_owned_job e.job_id user
    override_with body e job
