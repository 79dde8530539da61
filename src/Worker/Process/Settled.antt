-- ===== src/Worker/Process/Settled.antt =====
-- app/workers/tasks.py: the whole of `process_candidate`, from the row to the last commit.
use right_hire.Base.{
  ℕ, ◌≡◌, refl, ◌∙◌, ap, ◌⊎◌, inl, inr, true, Option, none, some, List, arith, Text, text,
  first_where_holds, Option-cases, Bool-cases, text_eq_iff,
}
use mathlib.Core.Path.{subst}
use right_hire.Config.{Settings}
use right_hire.Store.{has_id, Job, Candidate, CandidateStatus, Failure, World, set_status}
use right_hire.Jobs.{find_job}
use right_hire.Candidates.{find_candidate, failure_evaluation}
use right_hire.Worker.{WorkerState, Services, Attempt, done, broke, on_row}
use right_hire.Worker.Process.{
  has_enough, resolve_resume_text, keep_text, evaluate, record_failure, process_candidate, handled,
  start, same_text,
}
use right_hire.Worker.Process.Outcomes.{
  Kept, Underway, Judged, Failed, Post, find-on_row, find-on_others, on_row-Kept, end_of,
}
use right_hire.Worker.Process.Ends.{Ends-evaluate_text}

-- No task without a file, no text without a check of its length.
resolve_resume_text_enough :
    (sv : Services) (c : Candidate) (t : Text)
    → resolve_resume_text sv c ≡ done t
    → has_enough t ≡ true
unfolding resolve_resume_text
resolve_resume_text_enough sv c t h = ground arith

same_text_eq : (t : Text) (o : Option Text) → same_text t o ≡ true → o ≡ some t
same_text_eq t none h = cc
same_text_eq t (some u) h = ground (arith, text_eq_iff u t)

keeps-keep_text : (w : World) (t : Text) (r : Candidate) → (keep_text w t r).id ≡ r.id
keeps-keep_text w t r = ground arith

read-keep_text : (w : World) (t : Text) (r : Candidate) → (keep_text w t r).resume_text ≡ some t
read-keep_text w t r = elim (Bool-cases (same_text t r.resume_text)) [
  | inl same ↦ rw (keep_text, same) (same_text_eq t r.resume_text same)
  | inr differs ↦ rw (keep_text, differs) refl
]

start-Kept :
    (w : World) (c : Candidate) (s : WorkerState)
    → find_candidate c.id s.candidates ≡ some c
    → Kept c.id s (start w c s)
start-Kept w c s h = record {
  row = set_status w.now CandidateStatus.processing c;
  found = find-on_row c.id (set_status w.now CandidateStatus.processing) s (λ r. ground arith) h;
  others = λ j ne.
      find-on_others c.id j (set_status w.now CandidateStatus.processing) s (λ r. ground arith) ne;
  evaluations = refl;
  rest = record { users = refl; jobs = refl; requests = refl; queue = refl };
}

keep_text-Underway :
    (w : World) (i : ℕ) (t : Text) (s s' : WorkerState)
    → Kept i s s'
    → Underway i t s (on_row i (keep_text w t) s')
unfolding on_row-Kept
keep_text-Underway w i t s s' k = record {
  kept = on_row-Kept i (keep_text w t) s s' (keeps-keep_text w t) k;
  read = read-keep_text w t k.row;
}

module _ (w : World) (conf : Settings) (sv : Services) (c : Candidate) (job : Job)
    (s s' : WorkerState) (k : Kept c.id s s') where
  Post-resolved :
      (r : Attempt Text) → resolve_resume_text sv c ≡ r → Post c.id s (evaluate w conf sv c job s')
  unfolding evaluate
  Post-resolved (done t) h =
      let enough = resolve_resume_text_enough sv c t h in
      let u = keep_text-Underway w c.id t s s' k in
      rw h ((Ends-evaluate_text w conf sv c job t s enough).at (on_row c.id (keep_text w t) s') u)
  Post-resolved (broke why) h = rw h k

record_failure-Failed :
    (w : World) (c : Candidate) (job_id : ℕ) (why : Failure) (s s' : WorkerState)
    → Kept c.id s s'
    → Failed c.id s (record_failure w c job_id why s')
unfolding record_failure end_of
record_failure-Failed w c job_id why s s' k = record {
  ended =
      end_of w c.id CandidateStatus.failed
        (failure_evaluation w s'.drawn c.id job_id why (text "error")) s s' refl k;
  undecided = refl;
}

handled_ends :
    (w : World) (c : Candidate) (job_id : ℕ) (s : WorkerState)
    (r : Attempt (Unit {0}) × WorkerState)
    → Post c.id s r
    → Judged c.id s (handled w c job_id r) ⊎ Failed c.id s (handled w c job_id r)
handled_ends w c job_id s (done _, s') g = inl g
handled_ends w c job_id s (broke why, s') k = inr (record_failure-Failed w c job_id why s s' k)

-- What a task leaves, by the rows that it finds.
abbrev pub Settled : ℕ → ℕ → WorkerState → WorkerState → Type 0
Settled candidate_id job_id s s' = elim (find_candidate candidate_id s.candidates) [
  | none ↦ s' ≡ s
  | some _ ↦ elim (find_job job_id s.jobs) [
    | none ↦ s' ≡ s
    | some _ ↦ Judged candidate_id s s' ⊎ Failed candidate_id s s'
  ]
]

pub settled_rows :
    (w : World) (conf : Settings) (sv : Services) (c : Candidate) (job : Job) (i job_id : ℕ)
    (s : WorkerState)
    → c.id ≡ i
    → find_candidate i s.candidates ≡ some c
    → let s' = handled w c job_id (evaluate w conf sv c job (start w c s)) in
      Judged i s s' ⊎ Failed i s s'
settled_rows w conf sv c job i job_id s named found =
    let found_there : find_candidate c.id s.candidates ≡ some c =
      ap (λ k. find_candidate k s.candidates) named ∙ found in
    subst
      (λ k.
        let s' = handled w c job_id (evaluate w conf sv c job (start w c s)) in
        Judged k s s' ⊎ Failed k s s')
      named
      (handled_ends w c job_id s (evaluate w conf sv c job (start w c s)) (
        Post-resolved w conf sv c job s (start w c s) (start-Kept w c s found_there)
          (resolve_resume_text sv c) refl))

pub named_by :
    (i : ℕ) (cs : List Candidate) (c : Candidate) → find_candidate i cs ≡ some c → c.id ≡ i
named_by i cs c h = ground (arith, first_where_holds (has_id i) cs c)

pub process_candidate_no_candidate :
    (w : World) (conf : Settings) (sv : Services) (i job_id : ℕ) (s : WorkerState)
    → find_candidate i s.candidates ≡ none
    → process_candidate w conf sv i job_id s ≡ s
unfolding process_candidate
process_candidate_no_candidate w conf sv i job_id s absent = rw (process_candidate, absent) refl

pub process_candidate_no_job :
    (w : World) (conf : Settings) (sv : Services) (i job_id : ℕ) (s : WorkerState) (c : Candidate)
    → find_candidate i s.candidates ≡ some c
    → find_job job_id s.jobs ≡ none
    → process_candidate w conf sv i job_id s ≡ s
unfolding process_candidate
process_candidate_no_job w conf sv i job_id s c found absent =
    rw (process_candidate, found, absent) refl

pub process_candidate_rows :
    (w : World) (conf : Settings) (sv : Services) (i job_id : ℕ) (s : WorkerState) (c : Candidate)
    (job : Job)
    → find_candidate i s.candidates ≡ some c
    → find_job job_id s.jobs ≡ some job
    → process_candidate w conf sv i job_id s
      ≡ handled w c job_id (evaluate w conf sv c job (start w c s))
unfolding process_candidate
process_candidate_rows w conf sv i job_id s c job found owner =
    rw (process_candidate, found, owner) refl

-- With the row of the candidate or of the job missing, a task changes nothing. With both there, it
-- ends in one of two ways, whatever the services answer: one new evaluation with a verdict and the
-- candidate done, holding a resume text of at least 100 characters after stripping; or one new
-- evaluation without a verdict and the candidate failed. Users, jobs, credit requests and the queue
-- are as they were, and so is every other candidate's row.
pub process_candidate-Settled :
    (w : World) (conf : Settings) (sv : Services) (candidate_id job_id : ℕ) (s : WorkerState)
    → Settled candidate_id job_id s (process_candidate w conf sv candidate_id job_id s)
process_candidate-Settled w conf sv i job_id s =
    elim (Option-cases (find_candidate i s.candidates)) [
      | inl absent ↦
          rw (Settled, absent) (process_candidate_no_candidate w conf sv i job_id s absent)
      | inr (c, found) ↦ elim (Option-cases (find_job job_id s.jobs)) [
        | inl absent ↦
            rw (Settled, found, absent)
              (process_candidate_no_job w conf sv i job_id s c found absent)
        | inr (job, owner) ↦
            rw
              (Settled, found, owner, process_candidate_rows w conf sv i job_id s c job found owner)
              (settled_rows w conf sv c job i job_id s (named_by i s.candidates c found) found)
      ]
    ]
