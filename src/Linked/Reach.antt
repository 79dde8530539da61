-- ===== src/Linked/Reach.antt =====
-- The states that the routes over jobs, candidates and evaluations, the tasks and the sweeps lead to,
-- in any order.
use right_hire.Base.{ℕ, ◌≡◌, ◌⊎◌, false, Option, none, List, [], Text, All}
use mathlib.Core.Path.{subst, sym}
use right_hire.Config.{Settings}
use right_hire.Schemas.{ParsedJd, JobCreate, JobUpdate, CandidateUpdate, EvaluationUpdate}
use right_hire.Store.{User, Failure, System, World}
use right_hire.Jobs.{create_job, update_job, delete_job}
use right_hire.Candidates.{find_candidate}
use right_hire.Candidates.Batch.{Readers, Upload, ingest_candidates}
use right_hire.Candidates.Retry.{retry_candidate, retry_failed_candidates}
use right_hire.Candidates.Cancel.{cancel_pending_candidates}
use right_hire.Candidates.Resume.{Paths, ResumeFile, upload_candidate_resume}
use right_hire.Candidates.Edit.{update_candidate}
use right_hire.Candidates.Remove.{Storage, delete_all_candidates, delete_candidate}
use right_hire.Candidates.Remove.Links.{IsLinked, HasSubject, HasJob, deletions-IsLinked}
use right_hire.Results.Overrides.{update_evaluation, delete_evaluation}
use right_hire.Worker.{Judgement, Provider, Services}
use right_hire.Worker.Description.{run_description}
use right_hire.Worker.Process.{process_candidate}
use right_hire.Worker.Sweep.{sweep_stale_candidates}
use right_hire.Linked.{Owns}
use right_hire.Linked.Routes.{
  Extending-retry_candidate, Extending-retry_failed_candidates, Extending-cancel_pending_candidates,
}
use right_hire.Linked.Uploads.{Extending-ingest_candidates, Extending-upload_candidate_resume}
use right_hire.Linked.Edits.{
  Extending-update_candidate, Extending-update_evaluation, Extending-delete_evaluation,
  Extending-create_job, Extending-update_job, run_description-Extends,
}
use right_hire.Linked.Work.Watch.{process_candidate-Extends, sweep_stale_candidates-Extends}

-- One request, one task or one sweep. An evaluation's task is for a candidate of the job in its message, as all that
-- are queued, or for a candidate that is gone.
pub data Step (s : System) : System → Type 0 where
  creates :
      (w : World) (parse_jd : Text → Option ParsedJd) (body : JobCreate) (user : User)
      → Step s (create_job w parse_jd body user s).1
  changes_job :
      (job_id : ℕ) (body : JobUpdate) (user : User) → Step s (update_job job_id body user s).1
  drops_job : (job_id : ℕ) (user : User) → Step s (delete_job job_id user s).1
  uploads :
      (w : World) (conf : Settings) (rd : Readers) (job_id : ℕ) (file : Upload) (user : User)
      → Step s (ingest_candidates w conf rd job_id file user s).1
  retries : (w : World) (job_id i : ℕ) (user : User) → Step s (retry_candidate w job_id i user s).1
  retries_all :
      (w : World) (job_id : ℕ) (user : User) → Step s (retry_failed_candidates w job_id user s).1
  cancels :
      (w : World) (job_id : ℕ) (user : User) → Step s (cancel_pending_candidates w job_id user s).1
  attaches :
      (w : World) (conf : Settings) (ps : Paths) (job_id i : ℕ) (file : ResumeFile) (user : User)
      → Step s (upload_candidate_resume w conf ps job_id i file user s).1
  edits :
      (w : World) (job_id i : ℕ) (body : CandidateUpdate) (user : User)
      → Step s (update_candidate w job_id i body user s).1
  drops :
      (st : Storage) (job_id i : ℕ) (user : User) → Step s (delete_candidate st job_id i user s).1
  drops_all :
      (st : Storage) (job_id : ℕ) (user : User) → Step s (delete_all_candidates st job_id user s).1
  overrides :
      (shown : Failure → Text) (eval_id : ℕ) (body : EvaluationUpdate) (user : User)
      → Step s (update_evaluation shown eval_id body user s).1
  drops_evaluation : (eval_id : ℕ) (user : User) → Step s (delete_evaluation eval_id user s).1
  works :
      (w : World) (conf : Settings) (sv : Services) (i j : ℕ) (verdicts : List (ℕ × Judgement))
      → (find_candidate i s.candidates ≡ none) ⊎ Owns i j s.candidates
      → Step s (process_candidate w conf sv i j (record { system = s; verdicts = verdicts })).system
  describes :
      (conf : Settings) (p : Option Provider) (job_id : ℕ)
      → Step s (run_description conf p job_id s)
  sweeps : (w : World) (conf : Settings) → Step s (sweep_stale_candidates w conf s).after

-- From a database without candidates and evaluations.
pub data Reachable : System → Type 0 where
  fresh : (s : System) → s.candidates ≡ [] → s.evaluations ≡ [] → Reachable s
  then_step : (s s' : System) → Reachable s → Step s s' → Reachable s'

-- A job's deletion does not look at the files.
abbrev untouched : Storage
untouched = record { is_inside = λ path. false; unlinks = λ path. false }

Step-IsLinked : (s s' : System) → Step s s' → IsLinked s.db → IsLinked s'.db
Step-IsLinked s _ (creates w parse_jd body user) l =
    (Extending-create_job w parse_jd body user s).run.linked l
Step-IsLinked s _ (changes_job job_id body user) l =
    (Extending-update_job job_id body user s).run.linked l
Step-IsLinked s _ (drops_job job_id user) l = (deletions-IsLinked untouched job_id 0 user s l).0
Step-IsLinked s _ (uploads w conf rd job_id file user) l =
    (Extending-ingest_candidates w conf rd job_id file user s).run.linked l
Step-IsLinked s _ (retries w job_id i user) l =
    (Extending-retry_candidate w job_id i user s).run.linked l
Step-IsLinked s _ (retries_all w job_id user) l =
    (Extending-retry_failed_candidates w job_id user s).run.linked l
Step-IsLinked s _ (cancels w job_id user) l =
    (Extending-cancel_pending_candidates w job_id user s).run.linked l
Step-IsLinked s _ (attaches w conf ps job_id i file user) l =
    (Extending-upload_candidate_resume w conf ps job_id i file user s).run.linked l
Step-IsLinked s _ (edits w job_id i body user) l =
    (Extending-update_candidate w job_id i body user s).run.linked l
Step-IsLinked s _ (drops st job_id i user) l = (deletions-IsLinked st job_id i user s l).2
Step-IsLinked s _ (drops_all st job_id user) l = (deletions-IsLinked st job_id 0 user s l).1
Step-IsLinked s _ (overrides shown eval_id body user) l =
    (Extending-update_evaluation shown body eval_id user s).run.linked l
Step-IsLinked s _ (drops_evaluation eval_id user) l =
    (Extending-delete_evaluation eval_id user s).run.linked l
Step-IsLinked s _ (works w conf sv i j verdicts o) l =
    (process_candidate-Extends w conf sv i j (record { system = s; verdicts = verdicts }) o).linked
      l
Step-IsLinked s _ (describes conf p job_id) l = (run_description-Extends conf p job_id s).linked l
Step-IsLinked s _ (sweeps w conf) l = (sweep_stale_candidates-Extends w conf s).linked l

fresh-IsLinked : (s : System) → s.candidates ≡ [] → s.evaluations ≡ [] → IsLinked s.db
fresh-IsLinked s cs es = record {
  subjects = subst (All (HasSubject s.candidates)) (sym es) tt;
  jobs = subst (All (HasJob s.jobs)) (sym cs) tt;
}

-- From a database without candidates and evaluations, whatever sequence of requests, tasks and sweeps
-- follows, each evaluation is about a candidate that is there and is in the evaluation's job, and each
-- candidate is in a job that is there. An evaluation's task is taken to be for a candidate of the job that its
-- message names, or for a candidate that is gone.
pub Reachable-IsLinked : (s : System) → Reachable s → IsLinked s.db
Reachable-IsLinked s (fresh _ cs es) = fresh-IsLinked s cs es
Reachable-IsLinked s (then_step s' _ before step) =
    Step-IsLinked s' s step (Reachable-IsLinked s' before)
