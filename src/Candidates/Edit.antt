-- ===== src/Candidates/Edit.antt =====
-- app/api/ingest.py: `get_candidate`, `list_candidates` and `update_candidate`.
use right_hire.Base.{
  ℕ, ◌≡◌, ◌≢◌, Bool, true, false, not, ◌||◌, Option, none, some, Takes, List, Text, text_eq,
  select_where, update_where, if◌then◌else◌,
}
use right_hire.Base.Rational.{Rational, leb_ℚ}
use right_hire.Schemas.{CandidateUpdate}
use right_hire.Store.{User, Candidate, System, World, has_id, of_job}
use right_hire.Http.{Handler, Result, ok, err, pure, gets, modify, ◌>>=◌, ◌>>◌}
use right_hire.Jobs.{get_owned_job}
use right_hire.Candidates.{find_candidate, get_owned_candidate}

-- `list_candidates`, without its order.
unfoldable pub list_candidates : ℕ → User → Handler (List Candidate)
list_candidates job_id user = do
  get_owned_job job_id user
  gets (λ s. select_where (of_job job_id) s.candidates)

-- `get_candidate`
unfoldable pub get_candidate : ℕ → ℕ → User → Handler Candidate
get_candidate job_id candidate_id user = get_owned_candidate job_id candidate_id user

-- `if body.x is not None: candidate.x = body.x`
abbrev or_old : {A : Type 0} → Option A → Option A → Option A
or_old (some a) old = some a
or_old none old = old

-- The time stamp of the row is an argument, since the row is written only if a value changes.
abbrev pub edited : ℕ → CandidateUpdate → Candidate → Candidate
edited updated_at body c = record c {
  name = or_old body.name c.name;
  email = or_old body.email c.email;
  yoe = or_old body.yoe c.yoe;
  location = or_old body.location c.location;
  updated_at = updated_at;
}

abbrev writes_text : Option Text → Option Text → Bool
writes_text none old = false
writes_text (some t) none = true
writes_text (some t) (some u) = not (text_eq t u)

abbrev writes_yoe : Option Rational → Option Rational → Bool
writes_yoe none old = false
writes_yoe (some a) none = true
writes_yoe (some a) (some b) = not (leb_ℚ a b) || not (leb_ℚ b a)

abbrev writes : CandidateUpdate → Candidate → Bool
writes body c =
    (writes_text body.name c.name || writes_text body.email c.email)
    || (writes_yoe body.yoe c.yoe || writes_text body.location c.location)

abbrev pub edit : World → CandidateUpdate → Candidate → Candidate
edit w body c = edited (if writes body c then w.now else c.updated_at) body c

abbrev pub save_edit : World → CandidateUpdate → Candidate → Handler Candidate
save_edit w body c = do
  modify (λ s. record s {
    db = record s.db { candidates = update_where (has_id c.id) (edit w body) s.candidates };
  })
  pure (edit w body c)

-- `update_candidate`
unfoldable pub update_candidate : World → ℕ → ℕ → CandidateUpdate → User → Handler Candidate
update_candidate w job_id candidate_id body user = do
  c ← get_owned_candidate job_id candidate_id user
  save_edit w body c

-- The row before and after an edit.
pub record Edited (job_id i : ℕ) (body : CandidateUpdate) (s : System) (c : Candidate) (s' : System)
    : Type 0 where
  pub before : Candidate
  pub was : find_candidate i s.candidates ≡ some before
  pub is : find_candidate i s'.candidates ≡ some c
  pub name : Takes body.name before.name c.name
  pub email : Takes body.email before.email c.email
  pub yoe : Takes body.yoe before.yoe c.yoe
  pub location : Takes body.location before.location c.location
  -- Nothing that an evaluation rests on is touched.
  pub same_status : c.status ≡ before.status
  pub same_text : c.resume_text ≡ before.resume_text
  pub same_parse : c.parsed ≡ before.parsed
  pub same_url : c.resume_url ≡ before.resume_url
  pub same_embedding : c.embedding ≡ before.embedding
  pub same_retries : c.stale_retries ≡ before.stale_retries
  pub same_job : c.job_id ≡ job_id
  pub others : (j : ℕ) → j ≢ i → find_candidate j s'.candidates ≡ find_candidate j s.candidates
  pub evaluations : s'.evaluations ≡ s.evaluations
  pub queue : s'.queue ≡ s.queue

abbrev pub Outcome : ℕ → ℕ → CandidateUpdate → System → Result Candidate × System → Type 0
Outcome job_id i body s (ok c, s') = Edited job_id i body s c s'
Outcome job_id i body s (err e, s') = s' ≡ s
