-- ===== src/Lifecycle/Requests.antt =====
-- The requests of app/api over jobs, candidates and evaluations, the task of app/workers/tasks.py and
-- its watchdog, as data, and the state that each leads to.
use right_hire.Base.{ℕ, List, Text, Option}
use right_hire.Config.{Settings}
use right_hire.Schemas.{ParsedJd, JobCreate, JobUpdate, CandidateUpdate, EvaluationUpdate}
use right_hire.Store.{User, Failure, System, World}
use right_hire.Jobs.{create_job, update_job, delete_job}
use right_hire.Candidates.Batch.{Readers, Upload, ingest_candidates}
use right_hire.Candidates.Retry.{retry_candidate, retry_failed_candidates}
use right_hire.Candidates.Cancel.{cancel_pending_candidates}
use right_hire.Candidates.Resume.{Paths, ResumeFile, upload_candidate_resume}
use right_hire.Candidates.Edit.{update_candidate}
use right_hire.Candidates.Remove.{Storage, delete_all_candidates, delete_candidate}
use right_hire.Results.Overrides.{update_evaluation, delete_evaluation}
use right_hire.Worker.{Judgement, Services}
use right_hire.Worker.Process.{process_candidate}
use right_hire.Worker.Sweep.{sweep_stale_candidates}
use right_hire.Lifecycle.{Kind}

pub data Request : Type 0 where
  creates : (parse_jd : Text → Option ParsedJd) (body : JobCreate) (user : User) → Request
  changes_job : (job_id : ℕ) (body : JobUpdate) (user : User) → Request
  drops_job : (job_id : ℕ) (user : User) → Request
  uploads : (conf : Settings) (rd : Readers) (job_id : ℕ) (file : Upload) (user : User) → Request
  retries : (job_id i : ℕ) (user : User) → Request
  retries_all : (job_id : ℕ) (user : User) → Request
  cancels : (job_id : ℕ) (user : User) → Request
  attaches :
      (conf : Settings) (ps : Paths) (job_id i : ℕ) (file : ResumeFile) (user : User) → Request
  edits : (job_id i : ℕ) (body : CandidateUpdate) (user : User) → Request
  drops : (st : Storage) (job_id i : ℕ) (user : User) → Request
  drops_all : (st : Storage) (job_id : ℕ) (user : User) → Request
  overrides :
      (shown : Failure → Text) (eval_id : ℕ) (body : EvaluationUpdate) (user : User) → Request
  drops_evaluation : (eval_id : ℕ) (user : User) → Request
  works :
      (conf : Settings) (sv : Services) (i job_id : ℕ) (verdicts : List (ℕ × Judgement)) → Request
  sweeps : (conf : Settings) → Request

unfoldable pub perform : World → Request → System → System
perform w (creates parse_jd body user) s = (create_job w parse_jd body user s).1
perform w (changes_job job_id body user) s = (update_job job_id body user s).1
perform w (drops_job job_id user) s = (delete_job job_id user s).1
perform w (uploads conf rd job_id file user) s = (ingest_candidates w conf rd job_id file user s).1
perform w (retries job_id i user) s = (retry_candidate w job_id i user s).1
perform w (retries_all job_id user) s = (retry_failed_candidates w job_id user s).1
perform w (cancels job_id user) s = (cancel_pending_candidates w job_id user s).1
perform w (attaches conf ps job_id i file user) s =
    (upload_candidate_resume w conf ps job_id i file user s).1
perform w (edits job_id i body user) s = (update_candidate w job_id i body user s).1
perform w (drops st job_id i user) s = (delete_candidate st job_id i user s).1
perform w (drops_all st job_id user) s = (delete_all_candidates st job_id user s).1
perform w (overrides shown eval_id body user) s = (update_evaluation shown eval_id body user s).1
perform w (drops_evaluation eval_id user) s = (delete_evaluation eval_id user s).1
perform w (works conf sv i job_id verdicts) s =
    (process_candidate w conf sv i job_id (record { system = s; verdicts = verdicts })).system
perform w (sweeps conf) s = (sweep_stale_candidates w conf s).after

-- The kind of step that each is.
abbrev pub kind_of : Request → Kind
kind_of (creates _ _ _) = Kind.other
kind_of (changes_job _ _ _) = Kind.other
kind_of (drops_job _ _) = Kind.remove
kind_of (uploads _ _ _ _ _) = Kind.upload
kind_of (retries _ _ _) = Kind.retry
kind_of (retries_all _ _) = Kind.retry
kind_of (cancels _ _) = Kind.cancel
kind_of (attaches _ _ _ _ _ _) = Kind.attach
kind_of (edits _ _ _ _) = Kind.edit
kind_of (drops _ _ _ _) = Kind.remove
kind_of (drops_all _ _ _) = Kind.remove
kind_of (overrides _ _ _ _) = Kind.other
kind_of (drops_evaluation _ _) = Kind.other
kind_of (works _ _ _ _ _) = Kind.evaluate
kind_of (sweeps _) = Kind.sweep
