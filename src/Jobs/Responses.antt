-- ===== src/Jobs/Responses.antt =====
-- app/api/jobs.py: `_job_response`, `list_jobs` in its order, `get_job` and `parse_jd_preview`.
use right_hire.Base.{
  ℕ, suc, Bool, true, false, Option, none, some, List, [], ◌∷◌, map, Text, length, ltb, ◌==◌,
  select_where, if◌then◌else◌,
}
use right_hire.Schemas.{Verdict, fit, maybe, reject, ParsedJd}
use right_hire.Store.{User, Job, Evaluation, System, of_job}
use right_hire.Http.{Handler, gets, or_raise, ◌>>=◌}
use right_hire.Jobs.{list_jobs, get_owned_job}

abbrev pub VerdictStats : Type 0
VerdictStats = List (Option Verdict × ℕ)

abbrev verdict_eq : Option Verdict → Option Verdict → Bool
verdict_eq none none = true
verdict_eq (some fit) (some fit) = true
verdict_eq (some maybe) (some maybe) = true
verdict_eq (some reject) (some reject) = true
verdict_eq _ _ = false

abbrev bump_verdict : Option Verdict → VerdictStats → VerdictStats
bump_verdict v [] = (v, 1) ∷ []
bump_verdict v ((u, n) ∷ stats) =
    if verdict_eq u v then (u, suc n) ∷ stats else (u, n) ∷ bump_verdict v stats

-- `select(Evaluation.verdict, func.count()).group_by(Evaluation.verdict)`
abbrev pub verdict_stats : List Evaluation → VerdictStats
verdict_stats [] = []
verdict_stats (e ∷ es) = bump_verdict e.verdict (verdict_stats es)

-- The fields that the job does not have.
pub record JobResponse : Type 0 where
  pub job : Job
  pub candidate_count : ℕ
  pub eval_stats : Option VerdictStats

abbrev some_stats : VerdictStats → Option VerdictStats
some_stats [] = none
some_stats (x ∷ stats) = some (x ∷ stats)

-- `_job_response`
abbrev pub job_response : System → Job → JobResponse
job_response s job = record {
  job = job;
  candidate_count = length (select_where (of_job job.id) s.candidates);
  eval_stats = some_stats (verdict_stats (select_where (λ e. e.job_id == job.id) s.evaluations));
}

-- `order_by(Job.created_at.desc())`
abbrev insert_job : Job → List Job → List Job
insert_job j [] = j ∷ []
insert_job j (k ∷ js) = if ltb j.created_at k.created_at then k ∷ insert_job j js else j ∷ k ∷ js

unfoldable pub newest_first : List Job → List Job
newest_first [] = []
newest_first (j ∷ js) = insert_job j (newest_first js)

-- `list_jobs` with its order and its answer.
unfoldable pub list_job_responses : User → System → List JobResponse
unfolding newest_first list_jobs
list_job_responses user s = map (job_response s) (newest_first (list_jobs user s))

-- `get_job`
unfoldable pub get_job : ℕ → User → Handler JobResponse
get_job job_id user = do job ← get_owned_job job_id user; gets (λ s. job_response s job)

-- `parse_jd_preview`: the parse, or the 503 of an unavailable provider.
unfoldable pub parse_jd_preview : (Text → Option ParsedJd) → Text → Handler ParsedJd
parse_jd_preview parse_jd jd_raw = or_raise (parse_jd jd_raw) 503
