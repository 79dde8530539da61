-- ===== src/Store.antt =====
-- app/models.py: the rows of the five tables; the database, the queue and the stored files as one
-- state. A UUID is a number, a time stamp a number of seconds.
use right_hire.Base.{ℕ, Bool, true, false, List, Text, Option, Dict, ◌==◌}
use right_hire.Base.Int.{ℤ}
use right_hire.Base.Rational.{Rational}
use right_hire.Schemas.{Verdict, ParsedResume, ParsedJd}

pub data CandidateStatus : Type 0 where
  pending processing done failed : CandidateStatus

abbrev pub status_eq : CandidateStatus → CandidateStatus → Bool
status_eq CandidateStatus.pending CandidateStatus.pending = true
status_eq CandidateStatus.processing CandidateStatus.processing = true
status_eq CandidateStatus.done CandidateStatus.done = true
status_eq CandidateStatus.failed CandidateStatus.failed = true
status_eq _ _ = false

pub record User : Type 0 where
  pub id : ℕ
  pub email : Text
  pub api_key_hash : ℕ
  pub credits : ℤ
  pub created_at : ℕ

pub record Job : Type 0 where
  pub id : ℕ
  pub user_id : ℕ
  pub title : Text
  pub jd_raw : Text
  pub jd_parsed : Option ParsedJd
  pub jd_parse_pending : Bool
  pub weights : Option (Dict Rational)
  pub thresholds : Option (Dict Rational)
  pub created_at : ℕ

pub record Candidate : Type 0 where
  pub id : ℕ
  pub job_id : ℕ
  pub name : Option Text
  pub email : Option Text
  pub yoe : Option Rational
  pub location : Option Text
  pub resume_url : Option Text
  pub resume_text : Option Text
  pub parsed : Option ParsedResume
  pub embedding : Option (List Rational)
  pub status : CandidateStatus
  pub created_at : ℕ
  pub updated_at : ℕ
  pub stale_retries : ℕ

-- `score_breakdown` of app/pipeline/score.py.
pub record Breakdown : Type 0 where
  pub skill_overlap : Rational
  pub cosine_sim : Rational
  pub judge_score : Rational
  pub weights : Dict Rational
  pub contributions : Dict Rational

-- Why a candidate was not evaluated: the message under the key "error", by its cause.
pub data Failure : Type 0 where
  no_resume unresolved_file fetch_failed : Failure
  too_short too_little_text : ℕ → Failure
  llm_unavailable : Text → Failure
  exception : Text → Failure
  cancelled queue_failed requeue_failed : Failure
  timed_out : ℕ → Failure

-- A value of the JSON column `reasons`.
pub data Reason : Type 0 where
  said : Text → Reason
  error : Failure → Reason
  skills : List Text → Reason
  breakdown : Breakdown → Reason

pub record Evaluation : Type 0 where
  pub id : ℕ
  pub candidate_id : ℕ
  pub job_id : ℕ
  pub rubric : Option (Dict Rational)
  pub score : Option Rational
  pub verdict : Option Verdict
  pub reasons : Option (Dict Reason)
  pub model_used : Option Text
  pub cache_key : Option ℕ
  pub created_at : ℕ

pub data RequestStatus : Type 0 where
  open_request granted : RequestStatus

pub record CreditRequest : Type 0 where
  pub id : ℕ
  pub user_id : ℕ
  pub status : RequestStatus
  pub created_at : ℕ
  pub resolved_at : Option ℕ

pub record Db : Type 0 where
  pub users : List User
  pub jobs : List Job
  pub candidates : List Candidate
  pub evaluations : List Evaluation
  pub credit_requests : List CreditRequest

-- What is put on the RQ queue: the function that a worker is to call, with its arguments.
pub data Message : Type 0 where
  process_candidate : (candidate_id job_id : ℕ) → Message
  parse_job_description : (job_id : ℕ) → Message

pub record System : Type 0 where
  pub db : Db
  pub open db use *
  -- What waits in the queue "ats", and how often an enqueue was tried.
  pub queue : List Message
  pub attempts : ℕ
  -- How many UUIDs were drawn.
  pub drawn : ℕ
  -- The files under `STORAGE_DIR`, by path.
  pub files : Dict (List ℕ)

-- What the program finds outside itself during one call.
pub record World : Type 0 where
  -- The clock of the database.
  pub now : ℕ
  -- The n-th `queue.enqueue` reaches Redis.
  pub accepts : ℕ → Bool
  -- The n-th `uuid.uuid4()`.
  pub uuid : ℕ → ℕ

abbrev pub has_id : ℕ → Candidate → Bool
has_id i c = c.id == i

abbrev pub of_job : ℕ → Candidate → Bool
of_job j c = c.job_id == j

-- The assignment `candidate.status = s` with its flush: `updated_at` moves only if the row changes.
abbrev pub set_status : ℕ → CandidateStatus → Candidate → Candidate
set_status now s c = elim (status_eq c.status s) [
  | true ↦ c
  | false ↦ record c { status = s; updated_at = now }
]
