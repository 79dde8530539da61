-- ===== src/Worker/Process/Cache.antt =====
-- app/workers/tasks.py: the cache of verdicts, written by one run and read by the next.
use right_hire.Base.{
  ℕ, ◌≡◌, refl, sym, ap, ◌∙◌, true, Option, none, some, [], ◌∷◌, ◌++◌, arith, Text, ==_self,
}
use right_hire.Config.{Settings}
use right_hire.Schemas.{ParsedResume, ParsedJd}
use right_hire.Store.{Job, Candidate, Evaluation, World}
use right_hire.Pipeline.Filters.{Rejection}
use right_hire.Worker.{
  modify, Judgement, WorkerState, Provider, Services, Attempt, done, broke, Step, lift, ◌>>=◌, ◌>>◌,
  on_row,
}
use right_hire.Worker.Process.{
  conclude, rejected, evaluation_of, write_evaluation, cache_verdict, judge_fresh, evaluate_fresh,
  evaluate_text, after_filters, after_cache, key_of, cached,
}

-- A run added one evaluation, and the judgement in it is what the cache has under the key.
pub record Cached (sv : Services) (key : ℕ) (s s' : WorkerState) : Type 0 where
  pub judgement : Judgement
  pub hit : cached sv key s' ≡ some judgement
  pub evaluation : Evaluation
  pub added : s'.evaluations ≡ s.evaluations ++ evaluation ∷ []
  pub verdict : evaluation.verdict ≡ some judgement.verdict
  pub score : evaluation.score ≡ some judgement.score
  pub rubric : evaluation.rubric ≡ some judgement.rubric
  pub key_kept : evaluation.cache_key ≡ some key

abbrev pub Stored : Services → ℕ → WorkerState → Attempt (Unit {0}) × WorkerState → Type 0
Stored sv key s (done _, s') = Cached sv key s s'
Stored sv key s (broke _, s') = Unit

pub record Stores (sv : Services) (key : ℕ) (m : Step (Unit {0})) : Type 0 where
  pub at : (s : WorkerState) → Stored sv key s (m s)

module _ (sv : Services) (key : ℕ) where
  lifted :
      {A : Type 0} (a : Attempt A) (f : A → Step (Unit {0})) (s : WorkerState)
      → ((x : A) → Stores sv key (f x))
      → Stored sv key s ((lift a >>= f) s)
  lifted (done x) f s h = (h x).at s
  lifted (broke why) f s h = tt

  Stores-lift :
      {A : Type 0} (a : Attempt A) (f : A → Step (Unit {0}))
      → ((x : A) → Stores sv key (f x))
      → Stores sv key (lift a >>= f)
  Stores-lift a f h = record { at = λ s. lifted a f s h }

  before_row :
      (i : ℕ) (f : Candidate → Candidate) (s : WorkerState) (r : Attempt (Unit {0}) × WorkerState)
      → Stored sv key (on_row i f s) r
      → Stored sv key s r
  before_row i f s (done _, s') h = record {
    judgement = h.judgement;
    hit = h.hit;
    evaluation = h.evaluation;
    added = h.added;
    verdict = h.verdict;
    score = h.score;
    rubric = h.rubric;
    key_kept = h.key_kept;
  }
  before_row i f s (broke _, s') h = tt

  Stores-on_row :
      (i : ℕ) (f : Candidate → Candidate) (k : Step (Unit {0}))
      → Stores sv key k
      → Stores sv key (modify (on_row i f) >> k)
  Stores-on_row i f k h = record {
    at = λ s. before_row i f s (k (on_row i f s)) (h.at (on_row i f s));
  }

module _ (w : World) (conf : Settings) (sv : Services) (c : Candidate) (job : Job) (t : Text)
    (up : sv.redis_up ≡ true) where
  -- The entry that is written is the one that is read.
  hit_after :
      (j : Judgement) (key : ℕ) (s : WorkerState)
      → cached sv key (cache_verdict sv key j s) ≡ some j
  unfolding cache_verdict
  hit_after j key s = ground (arith, up, ==_self key)

  verdicts_after :
      (j : Judgement) (key : ℕ) (s : WorkerState)
      → (cache_verdict sv key j s).evaluations ≡ s.evaluations
  unfolding cache_verdict
  verdicts_after j key s = ground (arith, up)

  Stores-conclude : (j : Judgement) (key : ℕ) → Stores sv key (conclude w sv c job.id j key)
  unfolding write_evaluation
  Stores-conclude j key = record {
    at = λ s. record {
      judgement = j;
      hit = hit_after j key (write_evaluation w c job.id j key s);
      evaluation = evaluation_of w s.drawn c job.id j key;
      added = verdicts_after j key (write_evaluation w c job.id j key s);
      verdict = refl;
      score = refl;
      rubric = refl;
      key_kept = refl;
    };
  }

  Stores-judge_fresh :
      (p : Provider) (r : ParsedResume) (jd : ParsedJd) (key : ℕ)
      → Stores sv key (judge_fresh w sv p c job t r jd key)
  unfolding judge_fresh
  Stores-judge_fresh p r jd key = search (Stores-lift, Stores-on_row, Stores-conclude) depth 12

  Stores-after_filters :
      (p : Provider) (r : ParsedResume) (jd : ParsedJd) (key : ℕ) (why : Option Rejection)
      → Stores sv key (after_filters w sv p c job t r jd key why)
  unfolding after_filters
  Stores-after_filters p r jd key (some x) = Stores-conclude (rejected x) key
  Stores-after_filters p r jd key none = Stores-judge_fresh p r jd key

  Stores-evaluate_fresh : (key : ℕ) → Stores sv key (evaluate_fresh w conf sv c job t key)
  unfolding evaluate_fresh
  Stores-evaluate_fresh key = search (Stores-lift, Stores-on_row, Stores-after_filters) depth 12

  after_cache-Stored :
      (key : ℕ) (s : WorkerState) (hit : Option Judgement)
      → cached sv key s ≡ hit
      → Stored sv key s (after_cache w conf sv c job t key hit s)
  unfolding after_cache write_evaluation
  after_cache-Stored key s (some j) h = record {
    judgement = j;
    hit = h;
    evaluation = evaluation_of w s.drawn c job.id j key;
    added = refl;
    verdict = refl;
    score = refl;
    rubric = refl;
    key_kept = refl;
  }
  after_cache-Stored key s none h = (Stores-evaluate_fresh key).at s

  evaluate_text-Stored :
      (s : WorkerState) → Stored sv (key_of sv job t) s (evaluate_text w conf sv c job t s)
  unfolding evaluate_text
  evaluate_text-Stored s =
      let key = key_of sv job t in after_cache-Stored key s (cached sv key s) refl

finished :
    (sv : Services) (key : ℕ) (s : WorkerState) (r : Attempt (Unit {0}) × WorkerState)
    → Stored sv key s r
    → r.0 ≡ done tt
    → Cached sv key s r.1
finished sv key s (done _, s') h e = h
finished sv key s (broke _, s') h e = absurd cc

-- The evaluations that two runs added, the second with the judgement of the first.
pub record Repeats (s s' t t' : WorkerState) : Type 0 where
  pub first : Evaluation
  pub second : Evaluation
  pub added_first : s'.evaluations ≡ s.evaluations ++ first ∷ []
  pub added_second : t'.evaluations ≡ t.evaluations ++ second ∷ []
  pub same_verdict : second.verdict ≡ first.verdict
  pub same_score : second.score ≡ first.score
  pub same_rubric : second.rubric ≡ first.rubric

served :
    (w : World) (conf : Settings) (sv : Services) (c : Candidate) (job : Job) (t : Text) (key : ℕ)
    (s : WorkerState) (j : Judgement) (hit : Option Judgement)
    → hit ≡ some j
    → after_cache w conf sv c job t key hit s ≡ (done tt, write_evaluation w c job.id j key s)
unfolding after_cache
served w conf sv c job t key s j hit h = ap (λ o. after_cache w conf sv c job t key o s) h

-- A run that ended with a verdict while Redis was up is repeated by every later run, for any
-- candidate, clock and services, whose key finds the entry that the first run left: it ends too,
-- whatever the provider answers, and the evaluation that it adds has the verdict, the score and the
-- rubric of the first.
pub evaluate_text-Repeats :
    (w w' : World) (conf conf' : Settings) (sv sv' : Services) (c c' : Candidate) (job job' : Job)
    (t t' : Text) (s s' : WorkerState)
    → sv.redis_up ≡ true
    → (evaluate_text w conf sv c job t s).0 ≡ done tt
    → cached sv' (key_of sv' job' t') s'
      ≡ cached sv (key_of sv job t) (evaluate_text w conf sv c job t s).1
    → ((evaluate_text w' conf' sv' c' job' t' s').0 ≡ done tt)
      × Repeats s
          (evaluate_text w conf sv c job t s).1
          s'
          (evaluate_text w' conf' sv' c' job' t' s').1
unfolding evaluate_text write_evaluation
evaluate_text-Repeats w w' conf conf' sv sv' c c' job job' t t' s s' up ended kept =
    let key' = key_of sv' job' t' in
    let first =
      finished sv (key_of sv job t) s (evaluate_text w conf sv c job t s)
        (evaluate_text-Stored w conf sv c job t up s) ended in
    let out =
      served w' conf' sv' c' job' t' key' s' first.judgement (cached sv' key' s')
        (kept ∙ first.hit) in
    (
      ap (λ p. p.0) out,
      record {
        first = first.evaluation;
        second = evaluation_of w' s'.drawn c' job'.id first.judgement key';
        added_first = first.added;
        added_second = ap (λ p. p.1.evaluations) out;
        same_verdict = sym first.verdict;
        same_score = sym first.score;
        same_rubric = sym first.rubric;
      },
    )
