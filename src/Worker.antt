-- ===== src/Worker.antt =====
-- app/workers/tasks.py: what the tasks share. A task is a run of steps that may break with a failure
-- and leaves what it has written.
pub mod Process
pub mod Sweep
pub mod Description
pub mod Schedule
use right_hire.Base.{
  ℕ, suc, Bool, true, false, Option, none, some, List, [], ◌∷◌, ◌++◌, Text, Dict, update_where,
  ◌==◌, if◌then◌else◌,
}
use right_hire.Base.Rational.{Rational}
use right_hire.Schemas.{Verdict, ParsedResume, ParsedJd, JudgeOutput}
use right_hire.Store.{System, Candidate, Reason, Breakdown, Failure, has_id}
use right_hire.Pipeline.Match.{MatchResult}

-- The `result` of a run, which is also what the cache keeps.
pub record Judgement : Type 0 where
  pub verdict : Verdict
  pub score : Rational
  pub rubric : Dict Rational
  pub reasons : Dict Reason
  pub score_breakdown : Option Breakdown
  pub model_used : Text

-- The database and the queue, and the verdicts under "verdict:<key>" in Redis.
pub record WorkerState : Type 0 where
  pub system : System
  pub open system use *
  pub verdicts : List (ℕ × Judgement)

-- An LLM provider; none is an exception.
pub record Provider : Type 0 where
  pub model : Text
  pub parse_resume : Text → Option ParsedResume
  pub parse_jd : Text → Option ParsedJd
  pub judge : MatchResult → ParsedJd → List Text → Option JudgeOutput

-- The file system, Redis, the models, and the hash of the cache key.
pub record Services : Type 0 where
  pub exists : Text → Bool
  -- `fetch_drive_file`: an exception, no file, or the path of the file that it wrote.
  pub fetch : Text → Option (Option Text)
  -- `extract_text`: an exception, or the text.
  pub extract : Text → Option Text
  pub redis_up : Bool
  pub cache_key : Text → Option ParsedJd → Dict Rational → Dict Rational → ℕ
  pub provider : Option Provider
  pub embed : List Text → Option (List (List Rational))
  pub mean : List (List Rational) → List Rational
  pub cosine : List Rational → List Rational → Option Rational
  pub canonicalize : Text → Text

pub data Attempt (A : Type 0) : Type 0 where
  done : A → Attempt A
  broke : Failure → Attempt A

abbrev pub Step : Type 0 → Type 0
Step A = WorkerState → Attempt A × WorkerState

module _ {A : Type 0} where
  abbrev pub lift : Attempt A → Step A
  lift a s = (a, s)

  abbrev pub or_break : Option A → Failure → Attempt A
  or_break none why = broke why
  or_break (some a) why = done a

abbrev pub modify : (WorkerState → WorkerState) → Step (Unit {0})
modify f s = (done tt, f s)

infixl 5 ◌>>=◌ ◌>>◌
abbrev pub ◌>>=◌ : {A B : Type 0} → Step A → (A → Step B) → Step B
◌>>=◌ m f s = let (r, s') = m s in elim r [ done a ↦ f a s' | broke e ↦ (broke e, s') ]

abbrev pub ◌>>◌ : {A B : Type 0} → Step A → Step B → Step B
m >> k = m >>= λ _. k

-- The flush of what was assigned to the loaded candidate.
abbrev pub on_row : ℕ → (Candidate → Candidate) → WorkerState → WorkerState
on_row i f s = record s {
  system = record s.system {
    db = record s.system.db { candidates = update_where (has_id i) f s.candidates };
  };
}
