-- ===== src/Candidates.antt =====
-- app/api/ingest.py: what the routes under /jobs/{job_id}/candidates share. Each route is a child.
pub mod Batch
pub mod Retry
pub mod Cancel
pub mod Resume
pub mod Edit
pub mod Remove
use right_hire.Base.{
  ℕ, suc, ◌+◌, not, ◌||◌, is_empty, arith, any, Bool, true, false, ◌&&◌, Option, none, some, List,
  [], ◌∷◌, ◌++◌, Text, text, ◌==◌, ==_iff, sym, refl, inl, inr, Bool-cases, IsAmong, mem, length,
  length-update_where, ◌≡◌, first_where, first_where_holds, update_where, if◌then◌else◌,
}
use right_hire.Base.Int.{ℤ}
use right_hire.Store.{
  User, Candidate, CandidateStatus, Evaluation, Failure, error, System, World, has_id, set_status,
}
use right_hire.Http.{Handler, ok, or_raise, ◌>>=◌, ◌>>◌}
use right_hire.Http.Reads.{Reads, Reads-bind, Reads-or_raise}
use right_hire.Jobs.{get_owned_job, Reads-get_owned_job}
use mathlib.Core.Option

abbrev pub find_candidate : ℕ → List Candidate → Option Candidate
find_candidate i = first_where (has_id i)

abbrev pub candidate_of_job : ℕ → ℕ → System → Option Candidate
candidate_of_job job_id candidate_id s = elim (find_candidate candidate_id s.candidates) [
  | none ↦ none
  | some c ↦ if c.job_id == job_id then some c else none
]

abbrev get_candidate_of : ℕ → ℕ → Handler Candidate
get_candidate_of job_id candidate_id s = or_raise (candidate_of_job job_id candidate_id s) 404 s

-- `_get_owned_candidate`
unfoldable pub get_owned_candidate : ℕ → ℕ → User → Handler Candidate
get_owned_candidate job_id candidate_id user = do
  get_owned_job job_id user
  get_candidate_of job_id candidate_id

-- `update(Candidate).where(Candidate.id.in_(ids)).values(status=...)`, which also moves `updated_at`.
abbrev pub mark : ℕ → CandidateStatus → List ℕ → List Candidate → List Candidate
mark now status ids =
    update_where (λ c. mem c.id ids) (λ c. record c { status = status; updated_at = now })

pub length-mark :
    (now : ℕ) (status : CandidateStatus) (ids : List ℕ) (cs : List Candidate)
    → length (mark now status ids cs) ≡ length cs
length-mark now status ids =
    length-update_where (λ c. mem c.id ids) (λ c. record c { status = status; updated_at = now })

-- `db.add(Evaluation(candidate_id=..., job_id=..., reasons={"error": ...}, model_used=...))`
abbrev pub failure_evaluation : World → ℕ → ℕ → ℕ → Failure → Text → Evaluation
failure_evaluation w n candidate_id job_id why model = record {
  id = w.uuid n;
  candidate_id = candidate_id;
  job_id = job_id;
  rubric = none;
  score = none;
  verdict = none;
  reasons = some ((text "error", error why) ∷ []);
  model_used = some model;
  cache_key = none;
  created_at = w.now;
}

-- One such row for each id, from the n-th UUID on.
unfoldable pub failure_evaluations : World → ℕ → ℕ → Failure → Text → List ℕ → List Evaluation
failure_evaluations w n job_id why model [] = []
failure_evaluations w n job_id why model (c ∷ ids) =
    failure_evaluation w n c job_id why model ∷ failure_evaluations w (suc n) job_id why model ids

-- A row that says of a candidate why it was not evaluated.
pub record Explains (candidate_id job_id : ℕ) (why : Failure) (e : Evaluation) : Type 0 where
  pub of_it : e.candidate_id ≡ candidate_id
  pub in_job : e.job_id ≡ job_id
  pub unjudged : e.verdict ≡ none
  pub unscored : e.score ≡ none
  pub reason : e.reasons ≡ some ((text "error", error why) ∷ [])

pub failure_evaluations-Explains :
    (w : World) (n job_id : ℕ) (why : Failure) (model : Text) (c : ℕ) (l : List ℕ)
    → mem c l ≡ true
    → (e : Evaluation) × IsAmong e (failure_evaluations w n job_id why model l)
      × Explains c job_id why e
unfolding failure_evaluations
failure_evaluations-Explains w n job_id why model c [] h = cc
failure_evaluations-Explains w n job_id why model c (i ∷ l) h = elim (Bool-cases (c == i)) [
  | inl same ↦ (
    failure_evaluation w n i job_id why model,
    inl refl,
    record {
      of_it = sym ((==_iff c i).0 same);
      in_job = refl;
      unjudged = refl;
      unscored = refl;
      reason = refl;
    },
  )
  | inr other ↦
      let rest = failure_evaluations-Explains w (suc n) job_id why model c l (ground arith) in
      (rest.0, inr rest.1, rest.2)
]

pub any-failure_evaluations :
    (w : World) (n job_id : ℕ) (why : Failure) (model : Text) (c : ℕ) (l : List ℕ)
    → mem c l ≡ true
    → any (λ e. e.candidate_id == c) (failure_evaluations w n job_id why model l) ≡ true
unfolding failure_evaluations
any-failure_evaluations w n job_id why model c [] h = h
any-failure_evaluations w n job_id why model c (i ∷ l) h =
    ground (arith, any-failure_evaluations w (suc n) job_id why model c l)

-- `user.credits = credits; db.add(user)`
abbrev pub set_credits : ℕ → ℤ → List User → List User
set_credits user_id credits =
    update_where (λ u. u.id == user_id) (λ u. record u { credits = credits })

abbrev pub find_user : ℕ → List User → Option User
find_user i = first_where (λ u. u.id == i)

abbrev truthy : Option Text → Bool
truthy none = false
truthy (some t) = not (is_empty t)

-- `candidate.resume_text or candidate.resume_url`
abbrev pub has_resume : Candidate → Bool
has_resume c = truthy c.resume_text || truthy c.resume_url

-- `candidate.status = status`, flushed.
abbrev pub save_status : World → ℕ → CandidateStatus → System → System
save_status w candidate_id status s = record s {
  db = record s.db {
    candidates = update_where (has_id candidate_id) (set_status w.now status) s.candidates;
  };
}

-- What a lookup finds after the row with one id was changed.
pub find_candidate-update :
    (i j : ℕ) (f : Candidate → Candidate) (cs : List Candidate)
    → ((c : Candidate) → (f c).id ≡ c.id)
    → find_candidate j (update_where (has_id i) f cs)
      ≡ (if j == i then Option.map f (find_candidate j cs) else find_candidate j cs)
find_candidate-update i j f [] keeps = ground arith
find_candidate-update i j f (c ∷ cs) keeps =
    ground (arith, keeps c, find_candidate-update i j f cs keeps)

pub Reads-get_owned_candidate :
    (job_id candidate_id : ℕ) (user : User) → Reads (get_owned_candidate job_id candidate_id user)
unfolding get_owned_candidate
Reads-get_owned_candidate job_id candidate_id user =
    Reads-bind (get_owned_job job_id user) (λ _. get_candidate_of job_id candidate_id)
      (Reads-get_owned_job job_id user)
      (λ _. record {
        keeps = λ s. (Reads-or_raise (candidate_of_job job_id candidate_id s) 404).keeps s;
      })

-- A candidate that passed the check is the row of its id, and belongs to the job.
pub record IsOwned (job_id candidate_id : ℕ) (s : System) (c : Candidate) : Type 0 where
  pub found : find_candidate candidate_id s.candidates ≡ some c
  pub named : c.id ≡ candidate_id
  pub in_job : c.job_id ≡ job_id

IsOwned-found :
    (job_id candidate_id : ℕ) (s : System) (c : Candidate)
    → candidate_of_job job_id candidate_id s ≡ some c
    → IsOwned job_id candidate_id s c
IsOwned-found job_id candidate_id s c h =
    ground (arith, first_where_holds (has_id candidate_id) s.candidates c)

pub get_owned_candidate-IsOwned :
    (job_id candidate_id : ℕ) (user : User) (s : System) {c : Candidate}
    → (get_owned_candidate job_id candidate_id user s).0 ≡ ok c
    → IsOwned job_id candidate_id s c
unfolding get_owned_candidate
get_owned_candidate-IsOwned job_id candidate_id user s {c} h =
    IsOwned-found job_id candidate_id s c (ground arith)
