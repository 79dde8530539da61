-- ===== src/Jobs.antt =====
-- app/api/jobs.py: the routes under /jobs that keep the table of jobs.
pub mod Progress
pub mod Responses
use right_hire.Base.{
  arith, ◌≡◌, first_where_holds, ℕ, suc, Bool, true, false, not, Option, none, some, List, [], ◌∷◌,
  ◌++◌, map, Text, ◌==◌, mem, is_some, first_where, select_where, delete_where, update_where,
  if◌then◌else◌,
}
use right_hire.Base.Rational.{ratio}
use right_hire.Schemas.{ParsedJd, JobCreate, JobUpdate}
use right_hire.Store.{User, Job, Candidate, Db, System, World, parse_job_description, of_job}
use right_hire.Http.{Handler, ok, pure, modify, or_raise, ◌>>=◌, ◌>>◌}
use right_hire.Http.Reads.{Reads, Reads-or_raise}
use right_hire.Queue.{enqueue}

abbrev pub find_job : ℕ → List Job → Option Job
find_job i = first_where (λ j. j.id == i)

-- `db.get(Job, job_id)` and the test of its owner.
abbrev pub owned_job : ℕ → User → System → Option Job
owned_job job_id user s = elim (find_job job_id s.jobs) [
  | none ↦ none
  | some job ↦ if job.user_id == user.id then some job else none
]

-- `_get_owned_job`
abbrev pub get_owned_job : ℕ → User → Handler Job
get_owned_job job_id user s = or_raise (owned_job job_id user s) 404 s

pub Reads-get_owned_job : (job_id : ℕ) (user : User) → Reads (get_owned_job job_id user)
Reads-get_owned_job job_id user = record {
  keeps = λ s. (Reads-or_raise (owned_job job_id user s) 404).keeps s;
}

-- A job that passed the check is the row of its id, and the user's.
pub record IsOwnedJob (job_id : ℕ) (user : User) (s : System) (job : Job) : Type 0 where
  pub found : find_job job_id s.jobs ≡ some job
  pub named : job.id ≡ job_id
  pub owner : job.user_id ≡ user.id

owned_job-IsOwnedJob :
    (job_id : ℕ) (user : User) (s : System) (job : Job)
    → owned_job job_id user s ≡ some job
    → IsOwnedJob job_id user s job
owned_job-IsOwnedJob job_id user s job h =
    ground (arith, first_where_holds (λ (j : Job). j.id == job_id) s.jobs job)

pub get_owned_job-IsOwnedJob :
    (job_id : ℕ) (user : User) (s : System) {job : Job}
    → (get_owned_job job_id user s).0 ≡ ok job
    → IsOwnedJob job_id user s job
get_owned_job-IsOwnedJob job_id user s {job} h =
    owned_job-IsOwnedJob job_id user s job (ground arith)

-- `ParsedJD()`
abbrev pub empty_jd : ParsedJd
empty_jd = record {
  title = [];
  required_skills = [];
  preferred_skills = [];
  min_yoe = ratio 0 0;
  location = [];
  must_haves = [];
}

-- `_enqueue_jd_parse`
unfoldable pub enqueue_jd_parse : World → ℕ → System → Bool × System
enqueue_jd_parse w job_id s = enqueue w (parse_job_description job_id) s

-- The parse that `create_job` needs: the reviewed override, or what `parse_jd` returns. `none` is
-- an `LLMUnavailableError`.
abbrev jd_of : (Text → Option ParsedJd) → JobCreate → Option ParsedJd
jd_of parse_jd body = elim body.jd_parsed_override [
  | some jd ↦ some jd
  | none ↦ parse_jd body.jd_raw
]

abbrev pub draw_id : World → System → ℕ
draw_id w s = w.uuid s.drawn

abbrev pub new_job : World → (Text → Option ParsedJd) → JobCreate → User → System → Job
new_job w parse_jd body user s = record {
  id = draw_id w s;
  user_id = user.id;
  title = body.title;
  jd_raw = body.jd_raw;
  jd_parsed = elim (jd_of parse_jd body) [ some jd ↦ some jd | none ↦ some empty_jd ];
  jd_parse_pending = not (is_some (jd_of parse_jd body));
  weights = body.weights;
  thresholds = body.thresholds;
  created_at = w.now;
}

abbrev pub add_job : Job → System → System
add_job job s = record s { db = record s.db { jobs = s.jobs ++ job ∷ [] }; drawn = suc s.drawn }

-- `create_job`; the response is the new row.
unfoldable pub create_job : World → (Text → Option ParsedJd) → JobCreate → User → Handler Job
unfolding enqueue_jd_parse
create_job w parse_jd body user s =
    let job = new_job w parse_jd body user s in
    let saved = add_job job s in
    elim job.jd_parse_pending [
      | true ↦ (ok job, (enqueue_jd_parse w job.id saved).1)
      | false ↦ (ok job, saved)
    ]

-- `list_jobs`, without its order.
unfoldable pub list_jobs : User → System → List Job
list_jobs user s = select_where (λ job. job.user_id == user.id) s.jobs

abbrev pub edited : JobUpdate → Job → Job
edited body job = record job {
  title = elim body.title [ none ↦ job.title | some t ↦ t ];
  weights = elim body.weights [ none ↦ job.weights | some v ↦ some v ];
  thresholds = elim body.thresholds [ none ↦ job.thresholds | some v ↦ some v ];
}

abbrev pub save_job : ℕ → JobUpdate → Job → Handler Job
save_job job_id body job = do
  modify (λ s. record s {
    db = record s.db { jobs = update_where (λ j. j.id == job_id) (edited body) s.jobs };
  })
  pure (edited body job)

-- `update_job`
unfoldable pub update_job : ℕ → JobUpdate → User → Handler Job
update_job job_id body user = do job ← get_owned_job job_id user; save_job job_id body job

-- `[c.id for c in candidates of the job]`
abbrev pub ids_of_job : ℕ → List Candidate → List ℕ
ids_of_job job_id cs = map (λ c. c.id) (select_where (of_job job_id) cs)

abbrev pub without_job : ℕ → Db → Db
without_job job_id d = record d {
  evaluations =
      delete_where (λ e. mem e.candidate_id (ids_of_job job_id d.candidates)) d.evaluations;
  candidates = delete_where (of_job job_id) d.candidates;
  jobs = delete_where (λ j. j.id == job_id) d.jobs;
}

-- `delete_job`: evaluations first, then candidates, then the job.
unfoldable pub delete_job : ℕ → User → Handler (Unit {0})
delete_job job_id user = do
  get_owned_job job_id user
  modify (λ s. record s { db = without_job job_id s.db })
