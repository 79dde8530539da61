-- ===== src/Lifecycle/Changes.antt =====
-- app/api: edits, uploaded resumes, deletions and the routes that leave the candidates, on the board.
use right_hire.Base.{
  ℕ, refl, ap, inl, inr, Option, [], ◌∷◌, map, Text, Distinct, Bool-cases, is_empty, select_where,
}
use right_hire.Config.{Settings}
use right_hire.Schemas.{ParsedJd, JobCreate, JobUpdate, CandidateUpdate, EvaluationUpdate}
use right_hire.Store.{
  User, Job, Candidate, Evaluation, Failure, System, World, Message, parse_job_description, has_id,
  of_job,
}
use right_hire.Http.{modify}
use right_hire.Http.Reads.{Reads-raise_if}
use right_hire.Queue.{enqueue, enqueue_candidates}
use right_hire.Jobs.{
  Reads-get_owned_job, new_job, add_job, enqueue_jd_parse, create_job, save_job, update_job,
  delete_job, without_job,
}
use right_hire.Candidates.{Reads-get_owned_candidate}
use right_hire.Candidates.Edit.{edit, save_edit, update_candidate}
use right_hire.Candidates.Resume.{
  Paths, ResumeFile, resume_path, save_candidate, save_resume, with_resume_at, charge_one,
  store_resume, upload_candidate_resume,
}
use right_hire.Candidates.Remove.{
  Storage, delete_all, delete_all_candidates, without_candidate, delete_candidate,
}
use right_hire.Results.Overrides.{
  override_with, without_evaluation, update_evaluation, delete_evaluation,
}
use right_hire.Results.Overrides.Kept.{Reads-get_evaluation_row}
use right_hire.Linked.Edits.{db-enqueue}
use right_hire.Lifecycle.{Kind, attached, board, Moves}
use right_hire.Lifecycle.Rows.{Moves-same, Moves-update, Moves-update_same, Moves-delete}
use right_hire.Lifecycle.Routes.{Living, Living-bind, candidates-enqueue_candidates}

Living-save_edit :
    (w : World) (body : CandidateUpdate) (s : System) (c : Candidate)
    → Living Kind.edit s (save_edit w body c)
Living-save_edit w body s c = record {
  run =
      Moves-update_same Kind.edit (has_id c.id) (edit w body) s.candidates (λ x. refl) (λ x. refl);
}

pub Living-update_candidate :
    (w : World) (job_id i : ℕ) (body : CandidateUpdate) (user : User) (s : System)
    → Living Kind.edit s (update_candidate w job_id i body user)
unfolding update_candidate
Living-update_candidate w job_id i body user s =
    search (Living-bind, Reads-get_owned_candidate, Living-save_edit) depth 8

-- An uploaded resume makes the candidate pending, whether its message is sent or not.
Living-store_resume :
    (w : World) (ps : Paths) (job_id : ℕ) (file : ResumeFile) (user : User) (s : System)
    (c : Candidate)
    → Living Kind.attach s (store_resume w ps job_id file user c)
unfolding store_resume
Living-store_resume w ps job_id file user s c =
    let path = resume_path ps c.id file in
    let charged =
      charge_one user
        (save_candidate c.id (with_resume_at w path) (save_resume path file.content s)) in
    let sent = enqueue_candidates w job_id (c.id ∷ []) charged in
    let here = candidates-enqueue_candidates w job_id (c.id ∷ []) charged in
    let moved =
      Moves-update Kind.attach (has_id c.id) (with_resume_at w path) s.candidates (λ x. refl)
        (λ i x _ _. attached x.status) in
    elim (Bool-cases (is_empty sent.failed)) [
      | inl t ↦ record { run = rw (t, here) moved }
      | inr t ↦ record { run = rw (t, here) moved }
    ]

pub Living-upload_candidate_resume :
    (w : World) (conf : Settings) (ps : Paths) (job_id i : ℕ) (file : ResumeFile) (user : User)
    (s : System)
    → Living Kind.attach s (upload_candidate_resume w conf ps job_id i file user)
unfolding upload_candidate_resume
Living-upload_candidate_resume w conf ps job_id i file user s =
    search (Living-bind, Reads-get_owned_candidate, Reads-raise_if, Living-store_resume) depth 16

module _ (s : System) (d : Distinct (map (λ c. c.id) s.candidates)) where
  Living-delete_all : (st : Storage) (job_id : ℕ) → Living Kind.remove s (delete_all st job_id)
  unfolding delete_all
  Living-delete_all st job_id =
      elim (Bool-cases (is_empty (select_where (of_job job_id) s.candidates))) [
        | inl t ↦ record { run = rw t (Moves-same Kind.remove s.candidates) }
        | inr t ↦ record { run = rw t (Moves-delete (of_job job_id) s.candidates d) }
      ]

  pub Living-delete_all_candidates :
      (st : Storage) (job_id : ℕ) (user : User)
      → Living Kind.remove s (delete_all_candidates st job_id user)
  unfolding delete_all_candidates
  Living-delete_all_candidates st job_id user =
      search (Living-bind, Reads-get_owned_job, Living-delete_all) depth 8

  Living-without_candidate :
      (st : Storage) (i : ℕ) (c : Candidate)
      → Living Kind.remove s (modify (without_candidate st i c))
  Living-without_candidate st i c = record { run = Moves-delete (has_id c.id) s.candidates d }

  pub Living-delete_candidate :
      (st : Storage) (job_id i : ℕ) (user : User)
      → Living Kind.remove s (delete_candidate st job_id i user)
  unfolding delete_candidate
  Living-delete_candidate st job_id i user =
      search (Living-bind, Reads-get_owned_candidate, Living-without_candidate) depth 8

  Living-without_job :
      (job_id : ℕ) → Living Kind.remove s (modify (λ s. record s { db = without_job job_id s.db }))
  Living-without_job job_id = record { run = Moves-delete (of_job job_id) s.candidates d }

  pub Living-delete_job : (job_id : ℕ) (user : User) → Living Kind.remove s (delete_job job_id user)
  unfolding delete_job
  Living-delete_job job_id user =
      search (Living-bind, Reads-get_owned_job, Living-without_job) depth 8

-- Routes that do not write to the table of candidates.
module _ (s : System) where
  Living-enqueued :
      (w : World) (job : Job) (m : Message)
      → Moves Kind.other (board s.candidates) (board (enqueue w m (add_job job s)).1.candidates)
  Living-enqueued w job m i = inl (ap (λ d. board d.candidates i) (db-enqueue w m (add_job job s)))

  pub Living-create_job :
      (w : World) (parse_jd : Text → Option ParsedJd) (body : JobCreate) (user : User)
      → Living Kind.other s (create_job w parse_jd body user)
  unfolding create_job enqueue_jd_parse
  Living-create_job w parse_jd body user =
      let job = new_job w parse_jd body user s in
      elim (Bool-cases job.jd_parse_pending) [
        | inl t ↦ record {
          run = rw (create_job, t) (Living-enqueued w job (parse_job_description job.id));
        }
        | inr t ↦ record { run = rw (create_job, t) (Moves-same Kind.other s.candidates) }
      ]

  Living-save_job :
      (job_id : ℕ) (body : JobUpdate) (job : Job) → Living Kind.other s (save_job job_id body job)
  Living-save_job job_id body job = record { run = Moves-same Kind.other s.candidates }

  pub Living-update_job :
      (job_id : ℕ) (body : JobUpdate) (user : User)
      → Living Kind.other s (update_job job_id body user)
  unfolding update_job
  Living-update_job job_id body user =
      search (Living-bind, Reads-get_owned_job, Living-save_job) depth 8

  Living-override_with :
      (shown : Failure → Text) (body : EvaluationUpdate) (e : Evaluation) (job : Job)
      → Living Kind.other s (override_with shown body e job)
  Living-override_with shown body e job = record { run = Moves-same Kind.other s.candidates }

  pub Living-update_evaluation :
      (shown : Failure → Text) (eval_id : ℕ) (body : EvaluationUpdate) (user : User)
      → Living Kind.other s (update_evaluation shown eval_id body user)
  unfolding update_evaluation
  Living-update_evaluation shown eval_id body user =
      search (Living-bind, Reads-get_evaluation_row, Reads-get_owned_job, Living-override_with)
        depth 12

  Living-without_evaluation : (i : ℕ) → Living Kind.other s (modify (without_evaluation i))
  Living-without_evaluation i = record { run = Moves-same Kind.other s.candidates }

  pub Living-delete_evaluation :
      (eval_id : ℕ) (user : User) → Living Kind.other s (delete_evaluation eval_id user)
  unfolding delete_evaluation
  Living-delete_evaluation eval_id user =
      search (Living-bind, Reads-get_evaluation_row, Reads-get_owned_job, Living-without_evaluation)
        depth 12
