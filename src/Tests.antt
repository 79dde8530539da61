-- ===== src/Tests.antt =====
-- Concrete inputs, and the theorems applied to them.
pub mod Views
pub mod Models
pub mod Flow
pub mod Network
use right_hire.Base.{
  ℕ, ◌≡◌, refl, Distinct, true, false, Option, none, some, List, [], ◌∷◌, Text, text, map, strip,
  lookup, ltb, select_where,
}
use right_hire.Base.Int.{pos}
use right_hire.Base.Rational.{
  ratio, leb_ℚ, is_nonzero, ltb_ℚ, divide, clamp_unit, nearest, ◌+ℚ◌, ◌*ℚ◌, round_4,
}
use right_hire.Config.{default_settings}
use right_hire.Schemas.{fit, ParsedResume, ParsedJd}
use right_hire.Store.{User, Job, Candidate, CandidateStatus, pending, done, failed, System, World}
use right_hire.Sheet.{words, Row, known, detect_column_mapping}
use right_hire.Sheet.Columns.{detect_column_mapping_unshared}
use right_hire.Candidates.Batch.{Readers, Upload, null, ingest_candidates}
use right_hire.Candidates.Batch.Billing
use right_hire.Candidates.Batch.Billing.{ingest_candidates-Outcome}
use right_hire.Candidates.Retry.{retry_candidate, retry_failed_candidates}
use right_hire.Candidates.Retry.Single
use right_hire.Candidates.Retry.Single.{retry_candidate-Outcome}
use right_hire.Candidates.Retry.Bulk
use right_hire.Candidates.Retry.Bulk.{retry_failed_candidates-Outcome}
use right_hire.Candidates.Cancel.{cancel_pending_candidates}
use right_hire.Candidates.Cancel.Effect
use right_hire.Candidates.Cancel.Effect.{cancel_pending_candidates-Outcome}
use right_hire.Candidates.Remove.{Storage, delete_all_candidates, delete_candidate}
use right_hire.Candidates.Remove.Links.{IsLinked, deletions-IsLinked}
use right_hire.Candidates.Remove.Files
use right_hire.Candidates.Remove.Files.{delete_all_candidates-Outcome}
use right_hire.Candidates.Resume.{Paths, ResumeFile, upload_candidate_resume}
use right_hire.Candidates.Resume.Credit
use right_hire.Candidates.Resume.Credit.{upload_candidate_resume-Outcome}
use right_hire.Candidates.Edit
use right_hire.Jobs.{delete_job}
use right_hire.Base.{starts_with, count_where, All, arith}
use right_hire.Worker.Sweep.{is_stale, sweep_stale_candidates}
use right_hire.Worker.Sweep.Turns.{SweptAll}
use right_hire.Worker.Sweep.Counts.{sweep_stale_candidates-SweptAll, sweep_stale_candidates_again}
use right_hire.Schemas.{CandidateUpdate}
use right_hire.Http.{err}
use right_hire.Store.{open_request}
use right_hire.Jobs.Progress
use right_hire.Jobs.Progress.{job_progress, job_progress-Outcome}
use right_hire.Admin.{GrantCreditsRequest, admin_grant_credits, delete_user}
use right_hire.Admin.Grants
use right_hire.Admin.Grants.{admin_grant_credits-Outcome}
use right_hire.Admin.Deletion
use right_hire.Admin.Deletion.{HasUser, delete_user-Outcome}
use right_hire.Accounts.{check_signup_rate_limit, signup}
use right_hire.Accounts.Limit.{Limited, check_signup_rate_limit-Limited}
use right_hire.Accounts.Unique.{AreUnique}
use right_hire.Accounts.{rotate_key}
use right_hire.Admin.Users.{UserUpdate, update_user, reset_api_key}
use right_hire.Admin.Users.Addresses.{HaveIds, accounts-AreUnique}
use right_hire.Base.{Dict}
use right_hire.Pipeline.Filters.{apply_filters, has_skill}
use right_hire.Pipeline.Filters.Rules.{Passes, apply_filters-Passes}
use right_hire.Pipeline.Match.{match_candidate, compute_skill_overlap, compute_skill_overlap_bounds}
use right_hire.Pipeline.Score.{aggregate_score, apply_thresholds}
use right_hire.Pipeline.Score.Bands.{standing, apply_thresholds_mono}
use right_hire.Worker.{WorkerState, Provider, Services}
use right_hire.Worker.Process.{process_candidate}
use right_hire.Worker.Process.Settled.{Settled, process_candidate-Settled}
use Prim.Native.Nat.{◌+◌}
use mathlib.Core.Logic.{◌↔◌}

-- The queue takes the first message only.
abbrev pub world : World
world = record { now = 500; accepts = λ n. ltb n 1; uuid = λ n. 1000 + n }

abbrev pub recruiter : User
recruiter = record {
  id = 1;
  email = text "hr@acme.example";
  api_key_hash = 77;
  credits = pos 2;
  created_at = 0;
}

abbrev pub jd : ParsedJd
jd = record {
  title = text "Data engineer";
  required_skills = text "Python" ∷ text "SQL" ∷ [];
  preferred_skills = text "Spark" ∷ [];
  min_yoe = ratio 3 0;
  location = text "Berlin, Germany";
  must_haves = text "Python" ∷ [];
}

abbrev pub opening : Job
opening = record {
  id = 7;
  user_id = 1;
  title = text "Data engineer";
  jd_raw = text "We look for a data engineer";
  jd_parsed = some jd;
  jd_parse_pending = false;
  weights = none;
  thresholds = none;
  created_at = 0;
}

abbrev pub long_text : Text
long_text =
    text
      "Ten years of data pipelines in Python and SQL at three companies, and two years of leading a team in Berlin, Germany."

abbrev pub resume : ParsedResume
resume = record {
  name = text "Ada";
  email = text "ada@example.com";
  yoe = ratio 10 0;
  location = text "Berlin";
  skills = text "python" ∷ text "sql" ∷ [];
  bullets = text "Built pipelines in Python" ∷ [];
}

abbrev pub applicant : ℕ → CandidateStatus → Option Text → Candidate
applicant i status resume_text = record {
  id = i;
  job_id = 7;
  name = some (text "Ada");
  email = none;
  yoe = none;
  location = none;
  resume_url = none;
  resume_text = resume_text;
  parsed = none;
  embedding = none;
  status = status;
  created_at = 10;
  updated_at = 10;
  stale_retries = 0;
}

-- One candidate in each of three states.
abbrev pub system : System
system = record {
  db = record {
    users = recruiter ∷ [];
    jobs = opening ∷ [];
    candidates =
        applicant 11 failed (some long_text)
        ∷ applicant 12 failed none
        ∷ applicant 13 pending (some long_text)
        ∷ [];
    evaluations = [];
    credit_requests = [];
  };
  queue = [];
  attempts = 0;
  drawn = 0;
  files = [];
}

abbrev pub readers : Readers
readers = record {
  read_xlsx = λ bytes. none;
  read_csv = λ bytes. some (
      (text "Full Name" ∷ text "Location" ∷ [])
      ∷ (text "Ada" ∷ text "Berlin" ∷ [])
      ∷ (text "Bo" ∷ text "Oslo" ∷ [])
      ∷ []);
  is_utf8 = λ bytes. true;
  load_json = λ t. null;
  float_of = λ t. none;
}

abbrev pub sheet : Upload
sheet = record {
  filename = text "batch.csv";
  content = text "Full Name,Location";
  column_mapping = [];
}

abbrev row : Text → Row
row name = (text "name", words name) ∷ []

ingest_candidates-Outcome_example :
    Billing.Outcome recruiter 7 system
      (ingest_candidates world default_settings readers 7 sheet recruiter system)
ingest_candidates-Outcome_example =
    ingest_candidates-Outcome world default_settings readers 7 sheet recruiter system

retry_candidate-Outcome_example :
    Single.Outcome 7 11 system (retry_candidate world 7 11 recruiter system)
retry_candidate-Outcome_example = retry_candidate-Outcome world 7 11 recruiter system

retry_failed_candidates-Outcome_example :
    Bulk.Outcome 7 system (retry_failed_candidates world 7 recruiter system)
retry_failed_candidates-Outcome_example = retry_failed_candidates-Outcome world 7 recruiter system

pub ids-Distinct : Distinct (map (λ c. c.id) system.candidates)
ids-Distinct = (refl, (refl, (refl, tt)))

cancel_pending_candidates-Outcome_example :
    Effect.Outcome world 7 system (cancel_pending_candidates world 7 recruiter system)
cancel_pending_candidates-Outcome_example =
    cancel_pending_candidates-Outcome world 7 recruiter system ids-Distinct

abbrev headers : List Text
headers = text "Full Name" ∷ text "Email" ∷ text "Resume Link" ∷ []

headers_example :
    lookup (text "name") (detect_column_mapping headers) ≡ some (some (text "Full Name"))
unfolding detect_column_mapping
headers_example = refl

detect_column_mapping_unshared_example :
    (known (text "Full Name") headers ≡ true)
    × (lookup (text "email") (detect_column_mapping headers) ≡ some (some (text "Full Name"))
        → text "name" ≡ text "email")
detect_column_mapping_unshared_example =
    detect_column_mapping_unshared headers (text "name") (text "email") (text "Full Name")
      headers_example

apply_filters-Passes_example : (apply_filters resume jd [] ≡ none) ↔ Passes resume jd []
apply_filters-Passes_example = apply_filters-Passes resume jd []

half_below : leb_ℚ (ratio 1 1) (ratio 3 3) ≡ true
unfolding leb_ℚ
half_below = refl

abbrev pub provider : Provider
provider = record {
  model = text "judge";
  parse_resume = λ t. some resume;
  parse_jd = λ t. some jd;
  judge = λ m jd criteria. some (record {
    scores = (text "technical_fit", ratio 4 4) ∷ [];
    reasons = [];
    overall_score = ratio 4 4;
    verdict = fit;
  });
}

abbrev pub services : Services
services = record {
  exists = λ path. false;
  fetch = λ url. none;
  extract = λ path. some [];
  redis_up = true;
  cache_key = λ t jd weights thresholds. 42;
  provider = some provider;
  embed = λ texts. some (map (λ t. ratio 1 0 ∷ []) texts);
  mean = λ vectors. ratio 1 0 ∷ [];
  cosine = λ u v. some (ratio 1 0);
  canonicalize = λ t. t;
}

abbrev pub at_work : WorkerState
at_work = record { system = system; verdicts = [] }

process_candidate-Settled_example :
    Settled 11 7 at_work (process_candidate world default_settings services 11 7 at_work)
process_candidate-Settled_example =
    process_candidate-Settled world default_settings services 11 7 at_work

process_candidate_status :
    map (λ c. c.status) (process_candidate world default_settings services 11 7 at_work).candidates
    ≡ done ∷ failed ∷ pending ∷ []
unfolding process_candidate strip apply_filters is_nonzero ltb_ℚ leb_ℚ has_skill aggregate_score
    divide clamp_unit nearest match_candidate ◌+ℚ◌
process_candidate_status = refl

process_candidate_verdict :
    map
      (λ e. e.verdict)
      (process_candidate world default_settings services 11 7 at_work).evaluations
    ≡ some fit ∷ []
unfolding process_candidate strip apply_filters is_nonzero ltb_ℚ leb_ℚ has_skill aggregate_score
    divide clamp_unit nearest match_candidate ◌+ℚ◌ ◌*ℚ◌ round_4
process_candidate_verdict = refl

-- There is no resume to read.
process_candidate_without_resume :
    map
      (λ e. e.verdict)
      (process_candidate world default_settings services 12 7 at_work).evaluations
    ≡ none ∷ []
unfolding process_candidate
process_candidate_without_resume = refl

abbrev pub storage : Storage
storage = record { is_inside = λ path. starts_with path (text "storage/"); unlinks = λ path. true }

-- A candidate who has an evaluation and a file, and one whose file lies elsewhere.
abbrev pub stored : System
stored = record system {
  db = record system.db {
    candidates =
        record (applicant 11 done none) { resume_url = some (text "storage/11.pdf") }
        ∷ record (applicant 12 pending none) { resume_url = some (text "etc/passwd") }
        ∷ [];
    evaluations =
        record {
          id = 90;
          candidate_id = 11;
          job_id = 7;
          rubric = none;
          score = some (ratio 4 4);
          verdict = some fit;
          reasons = none;
          model_used = none;
          cache_key = none;
          created_at = 20;
        }
        ∷ [];
  };
  files = (text "storage/11.pdf", 1 ∷ []) ∷ (text "etc/passwd", 2 ∷ []) ∷ [];
}

stored-IsLinked : IsLinked stored.db
stored-IsLinked = record { subjects = (refl, tt); jobs = (refl, (refl, tt)) }

deletions-IsLinked_example :
    IsLinked (delete_job 7 recruiter stored).1.db
    × IsLinked (delete_all_candidates storage 7 recruiter stored).1.db
    × IsLinked (delete_candidate storage 7 11 recruiter stored).1.db
deletions-IsLinked_example = deletions-IsLinked storage 7 11 recruiter stored stored-IsLinked

delete_all_candidates-Outcome_example :
    Files.Outcome storage 7 stored (delete_all_candidates storage 7 recruiter stored)
delete_all_candidates-Outcome_example =
    delete_all_candidates-Outcome storage 7 recruiter stored stored-IsLinked

delete_all_candidates_files :
    (delete_all_candidates storage 7 recruiter stored).1.files ≡ (text "etc/passwd", 2 ∷ []) ∷ []
unfolding delete_all_candidates
delete_all_candidates_files = refl

abbrev paths : Paths
paths = record { suffix = λ name. text ".pdf"; stored_at = λ i ext. text "storage/13.pdf" }

abbrev resume_file : ResumeFile
resume_file = record { filename = text "ada.pdf"; content = 37 ∷ 80 ∷ 68 ∷ 70 ∷ [] }

upload_candidate_resume-Outcome_example :
    Credit.Outcome 7 13 resume_file recruiter system
      (upload_candidate_resume world default_settings paths 7 13 resume_file recruiter system)
upload_candidate_resume-Outcome_example =
    upload_candidate_resume-Outcome world default_settings paths 7 13 resume_file recruiter system

abbrev new_name : CandidateUpdate
new_name = record { name = some (text "Ada L."); email = none; yoe = none; location = none }

-- More than an hour after the candidates were last touched.
abbrev pub later : World
later = record { now = 4000; accepts = λ n. ltb n 1; uuid = λ n. 1000 + n }

-- One candidate may be requeued, and one has used up the retries.
abbrev stuck : System
stuck = record system {
  db = record system.db {
    candidates =
        applicant 13 pending none
        ∷ record (applicant 14 CandidateStatus.processing none) { stale_retries = 3 }
        ∷ [];
  };
}

sweep_stale_candidates-SweptAll_example :
    SweptAll later default_settings
      (select_where (is_stale later default_settings) stuck.candidates)
      (record { after = stuck; requeued = 0; failed = 0 })
      (sweep_stale_candidates later default_settings stuck)
sweep_stale_candidates-SweptAll_example =
    sweep_stale_candidates-SweptAll later default_settings stuck

sweep_stale_candidates_status :
    map (λ c. c.status) (sweep_stale_candidates later default_settings stuck).after.candidates
    ≡ pending ∷ failed ∷ []
unfolding sweep_stale_candidates
sweep_stale_candidates_status = refl

job_progress-Outcome_example : Progress.Outcome 7 system (job_progress 7 recruiter system)
job_progress-Outcome_example = job_progress-Outcome 7 recruiter system

abbrev asking : System
asking = record system {
  db = record system.db {
    credit_requests =
        record { id = 60; user_id = 1; status = open_request; created_at = 30; resolved_at = none }
        ∷ [];
  };
}

abbrev ten_more : GrantCreditsRequest
ten_more = record { email = text "hr@acme.example"; credits = pos 10 }

admin_grant_credits-Outcome_example :
    Grants.Outcome ten_more asking
      (admin_grant_credits world (text "key") (some (text "key")) ten_more asking)
admin_grant_credits-Outcome_example =
    admin_grant_credits-Outcome world (text "key") (some (text "key")) ten_more asking

job_owned : All (HasUser stored.users) stored.jobs
job_owned = (refl, tt)

delete_user-Outcome_example :
    Deletion.Outcome 1 stored (delete_user (text "key") (some (text "key")) 1 stored)
delete_user-Outcome_example =
    delete_user-Outcome (text "key") (some (text "key")) 1 stored stored-IsLinked job_owned

delete_user_tables :
    (delete_user (text "key") (some (text "key")) 1 stored).1.db
    ≡ record { users = []; jobs = []; candidates = []; evaluations = []; credit_requests = [] }
unfolding delete_user
delete_user_tables = refl

-- A user who once asked for credits cannot be deleted.
delete_user_with_request : delete_user (text "key") (some (text "key")) 1 asking ≡ (err 500, asking)
unfolding delete_user
delete_user_with_request = refl

-- Five attempts in the last hour, and an old one.
abbrev attempts : Dict (List ℕ)
attempts =
    (text "10.0.0.1", 100 ∷ 8000 ∷ 8001 ∷ 8002 ∷ 8003 ∷ 8004 ∷ []) ∷ (text "10.0.0.2", 5 ∷ []) ∷ []

check_signup_rate_limit-Limited_example :
    let out = check_signup_rate_limit 9000 (text "10.0.0.1") attempts in
    Limited 9000 (text "10.0.0.1") attempts out.0 out.1
check_signup_rate_limit-Limited_example =
    check_signup_rate_limit-Limited 9000 (text "10.0.0.1") attempts

check_signup_rate_limit_refuses :
    (check_signup_rate_limit 9000 (text "10.0.0.1") attempts).0 ≡ false
unfolding check_signup_rate_limit
check_signup_rate_limit_refuses = refl

users-AreUnique : AreUnique system.users
users-AreUnique email = ground arith

users-HaveIds : HaveIds system.users
users-HaveIds i = ground arith

abbrev renamed : UserUpdate
renamed = record { email = some (text "jobs@acme.example"); credits = none }

accounts-AreUnique_example :
    AreUnique
      (signup world default_settings 9000
        (text "10.0.0.2")
        5
        (text "hr@acme.example")
        attempts
        system).0.1.users
    × AreUnique (update_user (text "k") (some (text "k")) 1 renamed system).1.users
    × AreUnique (reset_api_key (text "k") (some (text "k")) 5 1 system).1.users
    × AreUnique (rotate_key 5 recruiter system).users
accounts-AreUnique_example =
    accounts-AreUnique world default_settings 9000 (text "10.0.0.2") attempts
      (text "hr@acme.example") (text "k") (some (text "k")) renamed 5 1 recruiter system
      users-HaveIds users-AreUnique

renamed_user :
    map (λ u. u.email) (update_user (text "k") (some (text "k")) 1 renamed system).1.users
    ≡ text "jobs@acme.example" ∷ []
unfolding update_user
renamed_user = refl
