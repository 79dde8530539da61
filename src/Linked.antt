-- ===== src/Linked.antt =====
-- The foreign keys of candidates and evaluations, over all that the routes of app/api and the tasks
-- of app/workers/tasks.py do to the tables.
pub mod Requests
pub mod Routes
pub mod Edits
pub mod Uploads
pub mod Work
pub mod Reach
use mathlib.Core.Path.{subst}
use right_hire.Base.{
  any-update_where, ℕ, ◌≡◌, refl, ap, sym, ◌∙◌, Bool, true, false, ◌&&◌, Option, none, some, List,
  [], ◌∷◌, ◌++◌, map, arith, any, any-append_left, All, All-append, All-map_imp, All-update_where,
  ◌==◌, ==_self, mem, update_where, select_where, if◌then◌else◌,
}
use right_hire.Store.{User, CreditRequest, Job, Candidate, Evaluation, Db, of_job}
use right_hire.Candidates.Remove.Links.{IsLinked, HasSubject, HasJob}

-- A candidate with an id, in a job.
abbrev pub Owns : ℕ → ℕ → List Candidate → Type 0
Owns i j cs = any (λ c. (c.id == i) && (c.job_id == j)) cs ≡ true

-- From one state of the tables to a later one: the foreign keys still hold if they held, and each
-- candidate is still there, in its job.
pub record Extends (d d' : Db) : Type 0 where
  pub owns : (i j : ℕ) → Owns i j d.candidates → Owns i j d'.candidates
  pub linked : IsLinked d → IsLinked d'

pub Extends-same : (d : Db) → Extends d d
Extends-same d = record { owns = λ i j h. h; linked = λ h. h }

pub Extends-trans : (a b c : Db) → Extends a b → Extends b c → Extends a c
Extends-trans a b c h k = record {
  owns = λ i j o. k.owns i j (h.owns i j o);
  linked = λ l. k.linked (h.linked l);
}

-- An update that leaves the keys of the candidates.
pub Extends-update_candidates :
    (p : Candidate → Bool) (f : Candidate → Candidate) (d : Db)
    → ((c : Candidate) → (f c).id ≡ c.id)
    → ((c : Candidate) → (f c).job_id ≡ c.job_id)
    → Extends d (record d { candidates = update_where p f d.candidates })
Extends-update_candidates p f d ids jobs =
    let same : (i j : ℕ)
        → any (λ c. (c.id == i) && (c.job_id == j)) (update_where p f d.candidates)
          ≡ any (λ c. (c.id == i) && (c.job_id == j)) d.candidates =
      λ i j.
        any-update_where (λ c. (c.id == i) && (c.job_id == j)) p f d.candidates
          (λ c. ground (arith, ids c, jobs c)) in
    record {
      owns = λ i j h. same i j ∙ h;
      linked = λ l. record {
        subjects =
            All-map_imp (HasSubject d.candidates) (HasSubject (update_where p f d.candidates))
              d.evaluations (λ e h. same e.candidate_id e.job_id ∙ h) l.subjects;
        jobs =
            All-update_where (HasJob d.jobs) p f d.candidates
              (λ c h. ap (λ i. any (λ j. j.id == i) d.jobs) (jobs c) ∙ h) l.jobs;
      };
    }

-- New evaluations of candidates that are there.
pub Extends-add_evaluations :
    (es : List Evaluation) (d : Db)
    → All (HasSubject d.candidates) es
    → Extends d (record d { evaluations = d.evaluations ++ es })
Extends-add_evaluations es d h = record {
  owns = λ i j o. o;
  linked = λ l. record {
    subjects = All-append (HasSubject d.candidates) d.evaluations es l.subjects h;
    jobs = l.jobs;
  };
}

-- New candidates of jobs that are there.
pub Extends-add_candidates :
    (cs : List Candidate) (d : Db)
    → All (HasJob d.jobs) cs
    → Extends d (record d { candidates = d.candidates ++ cs })
Extends-add_candidates cs d h = record {
  owns = λ i j o. any-append_left (λ c. (c.id == i) && (c.job_id == j)) d.candidates cs o;
  linked = λ l. record {
    subjects =
        All-map_imp (HasSubject d.candidates) (HasSubject (d.candidates ++ cs)) d.evaluations
          (λ e k.
            any-append_left (λ c. (c.id == e.candidate_id) && (c.job_id == e.job_id)) d.candidates
              cs k)
          l.subjects;
    jobs = All-append (HasJob d.jobs) d.candidates cs l.jobs h;
  };
}

-- New jobs, and edits that leave their ids.
pub Extends-jobs :
    (js : List Job) (d : Db)
    → ((i : ℕ) → any (λ j. j.id == i) d.jobs ≡ true → any (λ j. j.id == i) js ≡ true)
    → Extends d (record d { jobs = js })
Extends-jobs js d h = record {
  owns = λ i j o. o;
  linked = λ l. record {
    subjects = l.subjects;
    jobs = All-map_imp (HasJob d.jobs) (HasJob js) d.candidates (λ c k. h c.job_id k) l.jobs;
  };
}

-- The keys do not depend on the other tables.
pub Extends-users :
    (us : List User) (rs : List CreditRequest) (d : Db)
    → Extends d (record d { users = us; credit_requests = rs })
Extends-users us rs d = record {
  owns = λ i j o. o;
  linked = λ l. record { subjects = l.subjects; jobs = l.jobs };
}

-- What the ids of selected rows have, as a fact on all rows.
module _ {R : Type 0} (P : ℕ → Type 0) (f : R → ℕ) (q : R → Bool) where
  All-map_if :
      (r : R) (l : List R) (b : Bool)
      → (b ≡ true → P (f r))
      → All P (map f l)
      → All P (map f (if b then r ∷ l else l))
  All-map_if r l true h k = (h refl, k)
  All-map_if r l false h k = k

  pub All-map-select_where :
      (rs : List R) → All (λ r. q r ≡ true → P (f r)) rs → All P (map f (select_where q rs))
  All-map-select_where [] h = tt
  All-map-select_where (r ∷ rs) h =
      All-map_if r (select_where q rs) (q r) h.0 (All-map-select_where rs h.1)

-- Each row is there, in its job.
pub Owns-rows : (cs : List Candidate) → All (λ c. Owns c.id c.job_id cs) cs
Owns-rows [] = tt
Owns-rows (c ∷ cs) = (
  ground (arith, ==_self c.id, ==_self c.job_id),
  All-map_imp (λ x. Owns x.id x.job_id cs) (λ x. Owns x.id x.job_id (c ∷ cs)) cs
      (λ x h. ground arith) (Owns-rows cs),
)

-- The candidates of a job that a test selects are in the job.
pub Owns-selected :
    (job_id : ℕ) (p : Candidate → Bool) (cs : List Candidate)
    → All (λ i. Owns i job_id cs) (map (λ c. c.id) (select_where (λ c. of_job job_id c && p c) cs))
Owns-selected job_id p cs =
    All-map-select_where (λ i. Owns i job_id cs) (λ c. c.id) (λ c. of_job job_id c && p c) cs
      (All-map_imp (λ c. Owns c.id c.job_id cs)
        (λ c. (of_job job_id c && p c) ≡ true → Owns c.id job_id cs) cs
        (λ c h t.
          let same : c.job_id ≡ job_id = ground (arith, t) in subst (λ j. Owns c.id j cs) same h)
        (Owns-rows cs))
