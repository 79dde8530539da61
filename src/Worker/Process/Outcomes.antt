-- ===== src/Worker/Process/Outcomes.antt =====
-- app/workers/tasks.py: the states that a run of `process_candidate` passes through.
use right_hire.Base.{
  ℕ, ◌≡◌, ◌≢◌, ◌∙◌, ap, true, none, some, List, [], ◌∷◌, ◌++◌, arith, Text, is_some, ==_self,
}
use right_hire.Store.{Candidate, CandidateStatus, Evaluation, World, set_status}
use right_hire.Candidates.{find_candidate, find_candidate-update}
use right_hire.Worker.{Judgement, WorkerState, Attempt, done, broke, on_row}
use right_hire.Worker.Process.{has_enough, add_evaluation}

-- The tables but for the candidates, and the queue, are as they were.
pub record SameRest (s s' : WorkerState) : Type 0 where
  pub users : s'.users ≡ s.users
  pub jobs : s'.jobs ≡ s.jobs
  pub requests : s'.credit_requests ≡ s.credit_requests
  pub queue : s'.queue ≡ s.queue

-- Between two steps: the row is there, and there is no new evaluation.
pub record Kept (i : ℕ) (s s' : WorkerState) : Type 0 where
  pub row : Candidate
  pub found : find_candidate i s'.candidates ≡ some row
  pub others : (j : ℕ) → j ≢ i → find_candidate j s'.candidates ≡ find_candidate j s.candidates
  pub evaluations : s'.evaluations ≡ s.evaluations
  pub rest : SameRest s s'

-- The row also holds the text that is evaluated.
pub record Underway (i : ℕ) (t : Text) (s s' : WorkerState) : Type 0 where
  pub kept : Kept i s s'
  pub read : kept.row.resume_text ≡ some t

-- The end of a run: one new evaluation, about the candidate, and the row's status.
pub record Ended (i : ℕ) (status : CandidateStatus) (s s' : WorkerState) : Type 0 where
  pub evaluation : Evaluation
  pub added : s'.evaluations ≡ s.evaluations ++ evaluation ∷ []
  pub about : evaluation.candidate_id ≡ i
  pub row : Candidate
  pub found : find_candidate i s'.candidates ≡ some row
  pub others : (j : ℕ) → j ≢ i → find_candidate j s'.candidates ≡ find_candidate j s.candidates
  pub finished : row.status ≡ status
  pub rest : SameRest s s'

-- With a verdict, and the row holds a text that is long enough.
pub record Judged (i : ℕ) (s s' : WorkerState) : Type 0 where
  pub ended : Ended i CandidateStatus.done s s'
  pub decided : is_some ended.evaluation.verdict ≡ true
  pub resume : Text
  pub read : ended.row.resume_text ≡ some resume
  pub enough : has_enough resume ≡ true

-- With no verdict.
pub record Failed (i : ℕ) (s s' : WorkerState) : Type 0 where
  pub ended : Ended i CandidateStatus.failed s s'
  pub undecided : ended.evaluation.verdict ≡ none

-- What a step leaves, by how it ends.
abbrev pub Post : ℕ → WorkerState → Attempt (Unit {0}) × WorkerState → Type 0
Post i s (done _, s') = Judged i s s'
Post i s (broke _, s') = Kept i s s'

pub find-on_row :
    (i : ℕ) (f : Candidate → Candidate) (s : WorkerState) {c : Candidate}
    → ((r : Candidate) → (f r).id ≡ r.id)
    → find_candidate i s.candidates ≡ some c
    → find_candidate i (on_row i f s).candidates ≡ some (f c)
find-on_row i f s keeps h =
    ground (arith, find_candidate-update i i f s.candidates keeps, ==_self i)

pub find-on_others :
    (i j : ℕ) (f : Candidate → Candidate) (s : WorkerState)
    → ((r : Candidate) → (f r).id ≡ r.id)
    → j ≢ i
    → find_candidate j (on_row i f s).candidates ≡ find_candidate j s.candidates
find-on_others i j f s keeps ne = ground (arith, find_candidate-update i j f s.candidates keeps)

unfoldable pub on_row-Kept :
    (i : ℕ) (f : Candidate → Candidate) (s s' : WorkerState)
    → ((r : Candidate) → (f r).id ≡ r.id)
    → Kept i s s'
    → Kept i s (on_row i f s')
on_row-Kept i f s s' keeps k = record {
  row = f k.row;
  found = find-on_row i f s' keeps k.found;
  others = λ j ne. find-on_others i j f s' keeps ne ∙ k.others j ne;
  evaluations = k.evaluations;
  rest = record {
    users = k.rest.users;
    jobs = k.rest.jobs;
    requests = k.rest.requests;
    queue = k.rest.queue;
  };
}

pub on_row-Underway :
    (i : ℕ) (t : Text) (f : Candidate → Candidate) (s s' : WorkerState)
    → ((r : Candidate) → (f r).id ≡ r.id)
    → ((r : Candidate) → (f r).resume_text ≡ r.resume_text)
    → Underway i t s s'
    → Underway i t s (on_row i f s')
unfolding on_row-Kept
on_row-Underway i t f s s' keeps reads u = record {
  kept = on_row-Kept i f s s' keeps u.kept;
  read = reads u.kept.row ∙ u.read;
}

pub status-set_status :
    (now : ℕ) (st : CandidateStatus) (c : Candidate) → (set_status now st c).status ≡ st
status-set_status now st c = ground arith

pub id-set_status :
    (now : ℕ) (st : CandidateStatus) (c : Candidate) → (set_status now st c).id ≡ c.id
id-set_status now st c = ground arith

-- Adding an evaluation about the row and setting the row's status ends the run.
unfoldable pub end_of :
    (w : World) (i : ℕ) (st : CandidateStatus) (e : Evaluation) (s s' : WorkerState)
    → e.candidate_id ≡ i
    → Kept i s s'
    → Ended i st s (on_row i (set_status w.now st) (add_evaluation e s'))
end_of w i st e s s' about k = record {
  evaluation = e;
  added = ap (λ l. l ++ e ∷ []) k.evaluations;
  about = about;
  row = set_status w.now st k.row;
  found =
      find-on_row i (set_status w.now st) (add_evaluation e s') (id-set_status w.now st) k.found;
  others = λ j ne.
      find-on_others i j (set_status w.now st) (add_evaluation e s') (id-set_status w.now st) ne
      ∙ k.others j ne;
  finished = status-set_status w.now st k.row;
  rest = record {
    users = k.rest.users;
    jobs = k.rest.jobs;
    requests = k.rest.requests;
    queue = k.rest.queue;
  };
}

pub cache-Judged :
    (i : ℕ) (s s' : WorkerState) (v : List (ℕ × Judgement))
    → Judged i s s'
    → Judged i s (record s' { verdicts = v })
cache-Judged i s s' v g = record {
  ended = record {
    evaluation = g.ended.evaluation;
    added = g.ended.added;
    about = g.ended.about;
    row = g.ended.row;
    found = g.ended.found;
    others = g.ended.others;
    finished = g.ended.finished;
    rest = record {
      users = g.ended.rest.users;
      jobs = g.ended.rest.jobs;
      requests = g.ended.rest.requests;
      queue = g.ended.rest.queue;
    };
  };
  decided = g.decided;
  resume = g.resume;
  read = g.read;
  enough = g.enough;
}
