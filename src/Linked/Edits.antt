-- ===== src/Linked/Edits.antt =====
-- app/api: edits, overrides and new jobs, and the foreign keys.
use mathlib.Core.Path.{subst}
use right_hire.Base.{
  ℕ, ◌≡◌, refl, sym, ◌∙◌, Bool, true, false, Option, List, [], ◌∷◌, arith, Text, any-append_left,
  All, All-update_where, All-delete_where, ◌==◌, any-update_where,
}
use right_hire.Schemas.{ParsedJd, JobCreate, JobUpdate, CandidateUpdate, EvaluationUpdate}
use right_hire.Store.{
  User, Job, Candidate, Evaluation, Failure, Db, System, World, Message, parse_job_description,
  has_id,
}
use right_hire.Http.{Result, ok, modify}
use right_hire.Queue.{enqueue}
use right_hire.Jobs.{
  Reads-get_owned_job, new_job, add_job, edited, enqueue_jd_parse, create_job, save_job, update_job,
}
use right_hire.Candidates.{Reads-get_owned_candidate}
use right_hire.Candidates.Edit.{edit, save_edit, update_candidate}
use right_hire.Candidates.Remove.Links.{HasSubject}
use right_hire.Results.Overrides.{
  overridden, without_evaluation, override_with, update_evaluation, delete_evaluation,
}
use right_hire.Results.Overrides.Kept.{Reads-get_evaluation_row}
use right_hire.Config.{Settings}
use right_hire.Worker.{Provider}
use right_hire.Worker.Description.{
  described, save_description, read_description, describe, run_description,
}
use right_hire.Jobs.{find_job}
use right_hire.Base.{none, some, if◌then◌else◌}
use right_hire.Linked.{Extends-same, Extends, Extends-update_candidates, Extends-jobs}
use right_hire.Linked.Requests.{Extending, Extending-bind}

Extending-save_edit :
    (w : World) (body : CandidateUpdate) (s : System) (c : Candidate)
    → Extending s (save_edit w body c)
Extending-save_edit w body s c = record {
  run = Extends-update_candidates (has_id c.id) (edit w body) s.db (λ x. refl) (λ x. refl);
}

pub Extending-update_candidate :
    (w : World) (job_id i : ℕ) (body : CandidateUpdate) (user : User) (s : System)
    → Extending s (update_candidate w job_id i body user)
unfolding update_candidate
Extending-update_candidate w job_id i body user s =
    search (Extending-bind, Reads-get_owned_candidate, Extending-save_edit) depth 8

-- Evaluations that are changed or taken away.
Extends-evaluations :
    (es : List Evaluation) (d : Db)
    → (All (HasSubject d.candidates) d.evaluations → All (HasSubject d.candidates) es)
    → Extends d (record d { evaluations = es })
Extends-evaluations es d h = record {
  owns = λ i j o. o;
  linked = λ l. record { subjects = h l.subjects; jobs = l.jobs };
}

module _ (shown : Failure → Text) (body : EvaluationUpdate) where
  Extending-override_with :
      (s : System) (e : Evaluation) (job : Job) → Extending s (override_with shown body e job)
  Extending-override_with s e job = record {
    run = Extends-evaluations _ s.db (
        All-update_where (HasSubject s.candidates) (λ x. x.id == e.id) (overridden body)
          s.evaluations (λ x h. h));
  }

  pub Extending-update_evaluation :
      (eval_id : ℕ) (user : User) (s : System)
      → Extending s (update_evaluation shown eval_id body user)
  unfolding update_evaluation
  Extending-update_evaluation eval_id user s =
      search
        (Extending-bind, Reads-get_evaluation_row, Reads-get_owned_job, Extending-override_with)
        depth 12

Extending-without_evaluation : (s : System) (i : ℕ) → Extending s (modify (without_evaluation i))
Extending-without_evaluation s i = record {
  run =
      Extends-evaluations _ s.db
        (All-delete_where (HasSubject s.candidates) (λ e. e.id == i) s.evaluations);
}

pub Extending-delete_evaluation :
    (eval_id : ℕ) (user : User) (s : System) → Extending s (delete_evaluation eval_id user)
unfolding delete_evaluation
Extending-delete_evaluation eval_id user s =
    search
      (Extending-bind, Reads-get_evaluation_row, Reads-get_owned_job, Extending-without_evaluation)
      depth 12

-- An enqueue leaves the tables.
pub db-enqueue : (w : World) (m : Message) (s : System) → (enqueue w m s).1.db ≡ s.db
unfolding enqueue
db-enqueue w m s = ground arith

module _ (w : World) (parse_jd : Text → Option ParsedJd) (body : JobCreate) (user : User)
    (s : System) where
  abbrev saved_job : Job
  saved_job = new_job w parse_jd body user s

  abbrev saved : System
  saved = add_job saved_job s

  saved-Extends : Extends s.db saved.db
  saved-Extends =
      Extends-jobs saved.jobs s.db
        (λ i h. any-append_left (λ j. j.id == i) s.jobs (new_job w parse_jd body user s ∷ []) h)

  created : Bool → Result Job × System
  created b = elim b [
    | true ↦ (ok saved_job, (enqueue_jd_parse w saved_job.id saved).1)
    | false ↦ (ok saved_job, saved)
  ]

  created-Extends : (b : Bool) → Extends s.db (created b).1.db
  unfolding created enqueue_jd_parse
  created-Extends true =
      subst (λ d. Extends s.db d) (sym (db-enqueue w (parse_job_description saved_job.id) saved))
        saved-Extends
  created-Extends false = saved-Extends

  pub Extending-create_job : Extending s (create_job w parse_jd body user)
  unfolding create_job created
  Extending-create_job = record { run = created-Extends saved_job.jd_parse_pending }

Extending-save_job :
    (job_id : ℕ) (body : JobUpdate) (s : System) (job : Job)
    → Extending s (save_job job_id body job)
Extending-save_job job_id body s job = record {
  run = Extends-jobs _ s.db (λ i h.
      any-update_where (λ j. j.id == i) (λ j. j.id == job_id) (edited body) s.jobs (λ j. refl) ∙ h);
}

pub Extending-update_job :
    (job_id : ℕ) (body : JobUpdate) (user : User) (s : System)
    → Extending s (update_job job_id body user)
unfolding update_job
Extending-update_job job_id body user s =
    search (Extending-bind, Reads-get_owned_job, Extending-save_job) depth 8

-- The deferred parse of a description.
module _ (conf : Settings) (p : Option Provider) (i : ℕ) (s : System) where
  save_description-Extends : (jd : ParsedJd) → Extends s.db (save_description i jd s).db
  unfolding save_description
  save_description-Extends jd = Extends-jobs _ s.db (λ k h.
      any-update_where (λ j. j.id == k) (λ j. j.id == i) (described jd) s.jobs (λ j. refl) ∙ h)

  -- The system after the provider's answer.
  abbrev answered : Option ParsedJd → System
  answered o = elim o [ none ↦ s | some jd ↦ save_description i jd s ]

  read-Extends : (o : Option ParsedJd) → Extends s.db (answered o).db
  read-Extends none = Extends-same s.db
  read-Extends (some jd) = save_description-Extends jd

  pending-Extends : (b : Bool) (o : Option ParsedJd) → Extends s.db (if b then answered o else s).db
  pending-Extends true o = read-Extends o
  pending-Extends false o = Extends-same s.db

  found-Extends :
      (o : Option Job)
      → Extends s.db (elim o as (λ x. System) [ none ↦ s | some job ↦ describe conf p i job s ]).db
  unfolding describe
  found-Extends none = Extends-same s.db
  found-Extends (some job) = pending-Extends job.jd_parse_pending (read_description conf p job)

  pub run_description-Extends : Extends s.db (run_description conf p i s).db
  unfolding run_description
  run_description-Extends = found-Extends (find_job i s.jobs)
