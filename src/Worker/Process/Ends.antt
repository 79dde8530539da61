-- ===== src/Worker/Process/Ends.antt =====
-- app/workers/tasks.py: the steps of `process_candidate` after the resume text is known.
use right_hire.Base.{
  ℕ, ◌≡◌, refl, inl, inr, true, Option, none, some, List, ◌∷◌, arith, Text, Bool-cases,
}
use right_hire.Config.{Settings}
use right_hire.Store.{Job, Candidate, CandidateStatus, World}
use right_hire.Base.Rational.{Rational}
use right_hire.Schemas.{ParsedResume, ParsedJd}
use right_hire.Pipeline.Filters.{Rejection}
use right_hire.Worker.{
  modify, Judgement, WorkerState, Provider, Services, Attempt, done, broke, Step, lift, ◌>>=◌, ◌>>◌,
  on_row,
}
use right_hire.Worker.Process.{
  conclude, rejected, has_enough, backfill, keep_embedding, evaluation_of, write_evaluation,
  cache_verdict, judge_fresh, evaluate_fresh, evaluate_text, after_filters, after_cache, key_of,
  cached,
}
use right_hire.Worker.Process.Outcomes.{
  Underway, Judged, Post, on_row-Underway, end_of, cache-Judged,
}

module _ (w : World) (c : Candidate) (job_id : ℕ) (t : Text) (s s' : WorkerState)
    (u : Underway c.id t s s') (e : has_enough t ≡ true) where
  write_evaluation-Judged :
      (j : Judgement) (key : ℕ) → Judged c.id s (write_evaluation w c job_id j key s')
  unfolding write_evaluation end_of
  write_evaluation-Judged j key = record {
    ended =
        end_of w c.id CandidateStatus.done (evaluation_of w s'.drawn c job_id j key) s s' refl
          u.kept;
    decided = refl;
    resume = t;
    read = ground (arith, u.read);
    enough = e;
  }

  conclude-Judged :
      (sv : Services) (j : Judgement) (key : ℕ)
      → Judged c.id s (cache_verdict sv key j (write_evaluation w c job_id j key s'))
  unfolding cache_verdict write_evaluation
  conclude-Judged sv j key =
      let judged = write_evaluation-Judged j key in
      elim (Bool-cases sv.redis_up) [
        | inl up ↦ rw up (cache-Judged c.id s _ ((key, j) ∷ s'.verdicts) judged)
        | inr down ↦ rw down judged
      ]

-- From any point of the run, the step ends it or breaks.
pub record Ends (i : ℕ) (t : Text) (s : WorkerState) (m : Step (Unit {0})) : Type 0 where
  pub at : (s' : WorkerState) → Underway i t s s' → Post i s (m s')

module _ (i : ℕ) (t : Text) (s : WorkerState) where
  break-Kept :
      {A : Type 0} (a : Attempt A) (f : A → Step (Unit {0})) (s' : WorkerState)
      → Underway i t s s'
      → ((x : A) → Ends i t s (f x))
      → Post i s ((lift a >>= f) s')
  break-Kept (done x) f s' u h = (h x).at s' u
  break-Kept (broke why) f s' u h = u.kept

  -- A step that only computes.
  Ends-lift :
      {A : Type 0} (a : Attempt A) (f : A → Step (Unit {0}))
      → ((x : A) → Ends i t s (f x))
      → Ends i t s (lift a >>= f)
  Ends-lift a f h = record { at = λ s' u. break-Kept a f s' u h }

  -- A step that writes to the row, but neither its id nor its text.
  Ends-on_row :
      (f : Candidate → Candidate) (k : Step (Unit {0}))
      → ((r : Candidate) → (f r).id ≡ r.id)
      → ((r : Candidate) → (f r).resume_text ≡ r.resume_text)
      → Ends i t s k
      → Ends i t s (modify (on_row i f) >> k)
  Ends-on_row f k keeps reads h = record {
    at = λ s' u. h.at (on_row i f s') (on_row-Underway i t f s s' keeps reads u);
  }

module _ (w : World) (conf : Settings) (sv : Services) (c : Candidate) (job : Job) (t : Text)
    (s : WorkerState) (e : has_enough t ≡ true) where
  Ends-conclude : (j : Judgement) (key : ℕ) → Ends c.id t s (conclude w sv c job.id j key)
  Ends-conclude j key = record { at = λ s' u. conclude-Judged w c job.id t s s' u e sv j key }

  backfill_keeps : (r : ParsedResume) (x : Candidate) → (backfill w r x).id ≡ x.id
  backfill_keeps r x = refl

  backfill_reads : (r : ParsedResume) (x : Candidate) → (backfill w r x).resume_text ≡ x.resume_text
  backfill_reads r x = refl

  embedding_keeps : (v : List Rational) (x : Candidate) → (keep_embedding w v x).id ≡ x.id
  embedding_keeps v x = ground arith

  embedding_reads :
      (v : List Rational) (x : Candidate) → (keep_embedding w v x).resume_text ≡ x.resume_text
  embedding_reads v x = ground arith

  Ends-judge_fresh :
      (p : Provider) (r : ParsedResume) (jd : ParsedJd) (key : ℕ)
      → Ends c.id t s (judge_fresh w sv p c job t r jd key)
  unfolding judge_fresh
  Ends-judge_fresh p r jd key =
      search (Ends-lift, Ends-on_row, Ends-conclude, embedding_keeps, embedding_reads) depth 12

  Ends-after_filters :
      (p : Provider) (r : ParsedResume) (jd : ParsedJd) (key : ℕ) (why : Option Rejection)
      → Ends c.id t s (after_filters w sv p c job t r jd key why)
  unfolding after_filters
  Ends-after_filters p r jd key (some x) = Ends-conclude (rejected x) key
  Ends-after_filters p r jd key none = Ends-judge_fresh p r jd key

  Ends-evaluate_fresh : (key : ℕ) → Ends c.id t s (evaluate_fresh w conf sv c job t key)
  unfolding evaluate_fresh
  Ends-evaluate_fresh key =
      search (Ends-lift, Ends-on_row, Ends-after_filters, backfill_keeps, backfill_reads) depth 12

  Ends-after_cache :
      (key : ℕ) (hit : Option Judgement) → Ends c.id t s (after_cache w conf sv c job t key hit)
  unfolding after_cache
  Ends-after_cache key (some j) = record {
    at = λ s' u. write_evaluation-Judged w c job.id t s s' u e j key;
  }
  Ends-after_cache key none = Ends-evaluate_fresh key

  pub Ends-evaluate_text : Ends c.id t s (evaluate_text w conf sv c job t)
  unfolding evaluate_text
  Ends-evaluate_text = record {
    at = λ s' u. let key = key_of sv job t in (Ends-after_cache key (cached sv key s')).at s' u;
  }
