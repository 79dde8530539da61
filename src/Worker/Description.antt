-- ===== src/Worker/Description.antt =====
-- app/workers/tasks.py: `parse_job_description`, the deferred parse of a job's description.
use right_hire.Base.{
  ℕ, ◌≡◌, refl, inl, inr, true, false, Bool-cases, Option, none, some, [], ◌∷◌, ◌++◌, arith, Text,
  take, ◌==◌, ==_self, first_where-append, first_where-update_at, append-nil, update_where,
  if◌then◌else◌,
}
use right_hire.Config.{Settings}
use right_hire.Schemas.{ParsedJd, JobCreate}
use right_hire.Store.{User, Job, System, World, parse_job_description}
use right_hire.Queue.{enqueue}
use right_hire.Queue.Laws.{enqueue_sent, enqueue_lost}
use right_hire.Jobs.{find_job, new_job, draw_id, add_job, enqueue_jd_parse, create_job}
use right_hire.Worker.{Provider}

-- `job.jd_parsed = ...; job.jd_parse_pending = False`
abbrev pub described : ParsedJd → Job → Job
described jd job = record job { jd_parsed = some jd; jd_parse_pending = false }

unfoldable pub save_description : ℕ → ParsedJd → System → System
save_description job_id jd s = record s {
  db = record s.db { jobs = update_where (λ j. j.id == job_id) (described jd) s.jobs };
}

-- What the provider makes of the description; none is an exception.
unfoldable pub read_description : Settings → Option Provider → Job → Option ParsedJd
read_description conf none job = none
read_description conf (some p) job = p.parse_jd (take conf.jd_max_chars job.jd_raw)

unfoldable pub describe : Settings → Option Provider → ℕ → Job → System → System
describe conf p job_id job s =
    if job.jd_parse_pending
    then elim (read_description conf p job) [ none ↦ s | some jd ↦ save_description job_id jd s ]
    else s

-- `parse_job_description`; an exception is caught and leaves the job as it is.
unfoldable pub run_description : Settings → Option Provider → ℕ → System → System
unfolding describe read_description save_description
run_description conf p job_id s = elim (find_job job_id s.jobs) [
  | none ↦ s
  | some job ↦ describe conf p job_id job s
]

describe_pending :
    (conf : Settings) (p : Option Provider) (i : ℕ) (job : Job) (jd : ParsedJd) (s : System)
    → job.jd_parse_pending ≡ true
    → read_description conf p job ≡ some jd
    → describe conf p i job s ≡ save_description i jd s
unfolding describe
describe_pending conf p i job jd s waits answer = ground arith

-- A task that finds a pending job, with a provider that answers.
described_row :
    (conf : Settings) (p : Option Provider) (i : ℕ) (s : System) (job : Job) (jd : ParsedJd)
    → find_job i s.jobs ≡ some job
    → job.jd_parse_pending ≡ true
    → read_description conf p job ≡ some jd
    → find_job i (run_description conf p i s).jobs ≡ some (described jd job)
unfolding run_description save_description
described_row conf p i s job jd found waits answer =
    rw
      (
        run_description,
        found,
        describe_pending conf p i job jd s waits answer,
        save_description,
        first_where-update_at (λ (j : Job). j.id) i i (described jd) s.jobs (λ j. refl),
        ==_self i,
        found,
      )
      refl

-- A job that is not pending: nothing changes.
idle :
    (conf : Settings) (p : Option Provider) (i : ℕ) (s : System) (job : Job)
    → find_job i s.jobs ≡ some job
    → job.jd_parse_pending ≡ false
    → run_description conf p i s ≡ s
unfolding run_description
idle conf p i s job found done = rw (run_description, found) (ground arith)

added_row :
    (w : World) (parse_jd : Text → Option ParsedJd) (body : JobCreate) (user : User) (s : System)
    → find_job (draw_id w s) s.jobs ≡ none
    → find_job (draw_id w s) (add_job (new_job w parse_jd body user s) s).jobs
      ≡ some (new_job w parse_jd body user s)
added_row w parse_jd body user s unused =
    rw
      (
        first_where-append (λ (j : Job). j.id == draw_id w s) s.jobs
            (new_job w parse_jd body user s ∷ []),
        unused,
        ==_self (draw_id w s),
      )
      refl

enqueue-jobs : (w : World) (i : ℕ) (s : System) → (enqueue_jd_parse w i s).1.jobs ≡ s.jobs
unfolding enqueue_jd_parse enqueue
enqueue-jobs w i s = ground arith

enqueue-queue :
    (w : World) (i : ℕ) (s : System)
    → (enqueue_jd_parse w i s).1.queue
      ≡ s.queue ++ (if w.accepts s.attempts then parse_job_description i ∷ [] else [])
unfolding enqueue_jd_parse
enqueue-queue w i s = elim (Bool-cases (w.accepts s.attempts)) [
  | inl e ↦ rw (enqueue_jd_parse, enqueue_sent w (parse_job_description i) s e, e) refl
  | inr e ↦
      rw (enqueue_jd_parse, enqueue_lost w (parse_job_description i) s e, e, append-nil s.queue)
        refl
]

create_pending :
    (w : World) (parse_jd : Text → Option ParsedJd) (body : JobCreate) (user : User) (s : System)
    → body.jd_parsed_override ≡ none
    → parse_jd body.jd_raw ≡ none
    → (create_job w parse_jd body user s).1
      ≡ (enqueue_jd_parse w (draw_id w s) (add_job (new_job w parse_jd body user s) s)).1
unfolding create_job
create_pending w parse_jd body user s plain down = ground arith

-- The job that a request asks for, with a parse of its description and no longer pending.
pub record HasDescription (i : ℕ) (body : JobCreate) (user : User) (jd : ParsedJd) (job : Job)
    : Type 0 where
  pub named : job.id ≡ i
  pub owner : job.user_id ≡ user.id
  pub title : job.title ≡ body.title
  pub jd_raw : job.jd_raw ≡ body.jd_raw
  pub parsed : job.jd_parsed ≡ some jd
  pub settled : job.jd_parse_pending ≡ false

-- A job that was created without an override while the parse of its description failed gets, from
-- the deferred task run with a provider that answers, the parse of its description, and is no
-- longer pending, with the owner, the title and the text of the request; whatever the provider, the task run again then changes nothing. The message of
-- that task is in the queue when Redis took it. The drawn id is new.
pub create_job-described :
    (w : World) (parse_jd : Text → Option ParsedJd) (body : JobCreate) (user : User) (s : System)
    (conf again : Settings) (p : Provider) (q : Option Provider) (jd : ParsedJd)
    → find_job (draw_id w s) s.jobs ≡ none
    → body.jd_parsed_override ≡ none
    → parse_jd body.jd_raw ≡ none
    → p.parse_jd (take conf.jd_max_chars body.jd_raw) ≡ some jd
    → ((job : Job) × (find_job
            (draw_id w s)
            (run_description conf (some p) (draw_id w s) (create_job w parse_jd body user s).1).jobs
          ≡ some job)
        × HasDescription (draw_id w s) body user jd job)
      × (run_description again q
            (draw_id w s)
            (run_description conf (some p) (draw_id w s) (create_job w parse_jd body user s).1)
          ≡ run_description conf (some p) (draw_id w s) (create_job w parse_jd body user s).1)
      × ((create_job w parse_jd body user s).1.queue
          ≡ s.queue
            ++ (if w.accepts s.attempts then parse_job_description (draw_id w s) ∷ [] else []))
unfolding read_description
create_job-described w parse_jd body user s conf again p q jd unused plain down answer =
    let i = draw_id w s in
    let job = new_job w parse_jd body user s in
    let saved = add_job job s in
    let sent = (enqueue_jd_parse w i saved).1 in
    let row =
      described_row conf (some p) i sent job jd
        (rw (enqueue-jobs w i saved) (added_row w parse_jd body user s unused)) (ground arith)
        answer in
    rw (create_pending w parse_jd body user s plain down) (
      (
        described jd job,
        row,
        record {
          named = refl;
          owner = refl;
          title = refl;
          jd_raw = refl;
          parsed = refl;
          settled = refl;
        },
      ),
      idle again q i (run_description conf (some p) i sent) (described jd job) row refl,
      enqueue-queue w i saved,
    )
