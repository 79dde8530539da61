-- ===== src/Linked/Work.antt =====
-- app/workers/tasks.py: `process_candidate`, and the foreign keys.
pub mod Watch
use right_hire.Base.{
  ℕ, ◌≡◌, refl, ap, sym, ◌∙◌, inl, inr, Bool, true, false, Bool-cases, Option-cases, Option, none,
  some, List, [], ◌∷◌, arith, Text, text, All, first_where_holds, ◌==◌,
}
use mathlib.Core.Path.{subst}
use right_hire.Config.{Settings}
use right_hire.Base.Rational.{Rational}
use right_hire.Schemas.{ParsedResume, ParsedJd}
use right_hire.Store.{
  Job, Candidate, CandidateStatus, Evaluation, Failure, Db, World, set_status, has_id,
}
use right_hire.Jobs.{find_job}
use right_hire.Candidates.{find_candidate, failure_evaluation}
use right_hire.Pipeline.Filters.{Rejection}
use right_hire.Worker.{
  modify, Judgement, WorkerState, Provider, Services, Attempt, done, broke, Step, lift, ◌>>=◌, ◌>>◌,
  on_row,
}
use right_hire.Worker.Process.{
  conclude, rejected, backfill, keep_text, keep_embedding, evaluation_of, add_evaluation,
  write_evaluation, cache_verdict, judge_fresh, evaluate_fresh, evaluate_text, after_filters,
  after_cache, key_of, cached, resolve_resume_text, evaluate, record_failure, handled, start,
  process_candidate,
}
use right_hire.Linked.{
  Owns, Extends, Extends-same, Extends-trans, Extends-update_candidates, Extends-add_evaluations,
}
use right_hire.Linked.Requests.{id-set_status, job_id-set_status}

-- A step that is taken while the candidate is in the job.
pub record Works (i j : ℕ) (m : Step (Unit {0})) : Type 0 where
  pub at : (s : WorkerState) → Owns i j s.candidates → Extends s.system.db (m s).1.system.db

-- A write to the row, and an evaluation of the candidate.
row_written :
    (i : ℕ) (f : Candidate → Candidate) (s : WorkerState)
    → ((c : Candidate) → (f c).id ≡ c.id)
    → ((c : Candidate) → (f c).job_id ≡ c.job_id)
    → Extends s.system.db (on_row i f s).system.db
row_written i f s ids jobs = Extends-update_candidates (has_id i) f s.system.db ids jobs

evaluation_added :
    (w : World) (i j : ℕ) (st : CandidateStatus) (e : Evaluation) (s : WorkerState)
    → e.candidate_id ≡ i
    → e.job_id ≡ j
    → Owns i j s.candidates
    → Extends s.system.db (on_row i (set_status w.now st) (add_evaluation e s)).system.db
evaluation_added w i j st e s named owned h =
    Extends-trans s.system.db (add_evaluation e s).system.db _
      (Extends-add_evaluations (e ∷ []) s.system.db (
        subst (λ k. Owns k e.job_id s.candidates) (sym named)
            (subst (λ k. Owns i k s.candidates) (sym owned) h),
        tt,
      ))
      (row_written i (set_status w.now st) (add_evaluation e s) (id-set_status w.now st)
        (job_id-set_status w.now st))

module _ (i j : ℕ) where
  lifted :
      {A : Type 0} (a : Attempt A) (f : A → Step (Unit {0})) (s : WorkerState)
      → Owns i j s.candidates
      → ((x : A) → Works i j (f x))
      → Extends s.system.db ((lift a >>= f) s).1.system.db
  lifted (done x) f s o h = (h x).at s o
  lifted (broke why) f s o h = Extends-same s.system.db

  Works-lift :
      {A : Type 0} (a : Attempt A) (f : A → Step (Unit {0}))
      → ((x : A) → Works i j (f x))
      → Works i j (lift a >>= f)
  Works-lift a f h = record { at = λ s o. lifted a f s o h }

  Works-on_row :
      (f : Candidate → Candidate) (k : Step (Unit {0}))
      → ((c : Candidate) → (f c).id ≡ c.id)
      → ((c : Candidate) → (f c).job_id ≡ c.job_id)
      → Works i j k
      → Works i j (modify (on_row i f) >> k)
  Works-on_row f k ids jobs h = record {
    at = λ s o.
        let first = row_written i f s ids jobs in
        Extends-trans s.system.db (on_row i f s).system.db _ first
          (h.at (on_row i f s) (first.owns i j o));
  }

module _ (w : World) (conf : Settings) (sv : Services) (c : Candidate) (job : Job) (t : Text) where
  written :
      (j : Judgement) (key : ℕ) (s : WorkerState)
      → Owns c.id job.id s.candidates
      → Extends s.system.db (write_evaluation w c job.id j key s).system.db
  unfolding write_evaluation
  written j key s o =
      evaluation_added w c.id job.id CandidateStatus.done (evaluation_of w s.drawn c job.id j key) s
        refl refl o

  Works-conclude : (j : Judgement) (key : ℕ) → Works c.id job.id (conclude w sv c job.id j key)
  unfolding cache_verdict
  Works-conclude j key = record {
    at = λ s o. elim (Bool-cases sv.redis_up) [
      | inl up ↦ rw up (written j key s o)
      | inr down ↦ rw down (written j key s o)
    ];
  }

  backfill_ids : (r : ParsedResume) (x : Candidate) → (backfill w r x).id ≡ x.id
  backfill_ids r x = refl

  backfill_jobs : (r : ParsedResume) (x : Candidate) → (backfill w r x).job_id ≡ x.job_id
  backfill_jobs r x = refl

  embedding_ids : (v : List Rational) (x : Candidate) → (keep_embedding w v x).id ≡ x.id
  embedding_ids v x = ground arith

  embedding_jobs : (v : List Rational) (x : Candidate) → (keep_embedding w v x).job_id ≡ x.job_id
  embedding_jobs v x = ground arith

  Works-judge_fresh :
      (p : Provider) (r : ParsedResume) (jd : ParsedJd) (key : ℕ)
      → Works c.id job.id (judge_fresh w sv p c job t r jd key)
  unfolding judge_fresh
  Works-judge_fresh p r jd key =
      search (Works-lift, Works-on_row, Works-conclude, embedding_ids, embedding_jobs) depth 12

  Works-after_filters :
      (p : Provider) (r : ParsedResume) (jd : ParsedJd) (key : ℕ) (why : Option Rejection)
      → Works c.id job.id (after_filters w sv p c job t r jd key why)
  unfolding after_filters
  Works-after_filters p r jd key (some x) = Works-conclude (rejected x) key
  Works-after_filters p r jd key none = Works-judge_fresh p r jd key

  Works-evaluate_fresh : (key : ℕ) → Works c.id job.id (evaluate_fresh w conf sv c job t key)
  unfolding evaluate_fresh
  Works-evaluate_fresh key =
      search (Works-lift, Works-on_row, Works-after_filters, backfill_ids, backfill_jobs) depth 12

  Works-after_cache :
      (key : ℕ) (hit : Option Judgement) → Works c.id job.id (after_cache w conf sv c job t key hit)
  unfolding after_cache
  Works-after_cache key (some j) = record { at = λ s o. written j key s o }
  Works-after_cache key none = Works-evaluate_fresh key

  Works-evaluate_text : Works c.id job.id (evaluate_text w conf sv c job t)
  unfolding evaluate_text
  Works-evaluate_text = record {
    at = λ s o. let key = key_of sv job t in (Works-after_cache key (cached sv key s)).at s o;
  }

module _ (w : World) (conf : Settings) (sv : Services) (c : Candidate) (job : Job) where
  text_ids : (t : Text) (x : Candidate) → (keep_text w t x).id ≡ x.id
  text_ids t x = ground arith

  text_jobs : (t : Text) (x : Candidate) → (keep_text w t x).job_id ≡ x.job_id
  text_jobs t x = ground arith

  Works-evaluate : Works c.id job.id (evaluate w conf sv c job)
  unfolding evaluate
  Works-evaluate = Works-lift c.id job.id (resolve_resume_text sv c) _ (λ t.
      Works-on_row c.id job.id (keep_text w t) (evaluate_text w conf sv c job t) (text_ids t)
        (text_jobs t) (Works-evaluate_text w conf sv c job t))
