-- ===== src/Candidates/Remove/Links.antt =====
-- app/api/ingest.py and app/api/jobs.py: the foreign keys under the deletions.
use right_hire.Base.{
  ℕ, ◌≡◌, ◌∙◌, ap, sym, inl, inr, Bool, true, false, ◌&&◌, List, [], ◌∷◌, arith, any, mem, All,
  All-selected_keys, All-delete_where, ◌==◌, Bool-cases, select_where, delete_where, is_empty,
}
use right_hire.Store.{User, Job, Candidate, Evaluation, Db, System, has_id, of_job}
use right_hire.Http.{Handler, modify}
use right_hire.Http.Reads.{raised, went_on, ran}
use right_hire.Jobs.{get_owned_job, Reads-get_owned_job, ids_of_job, without_job, delete_job}
use right_hire.Candidates.{
  get_owned_candidate, Reads-get_owned_candidate, get_owned_candidate-IsOwned,
}
use right_hire.Candidates.Remove.{
  Storage, without_candidates, delete_all, delete_all_candidates, without_candidate,
  delete_candidate,
}

-- The row that both keys of the evaluation refer to.
abbrev pub is_subject : Evaluation → Candidate → Bool
is_subject e c = (c.id == e.candidate_id) && (c.job_id == e.job_id)

abbrev pub HasSubject : List Candidate → Evaluation → Type 0
HasSubject cs e = any (is_subject e) cs ≡ true

abbrev pub HasJob : List Job → Candidate → Type 0
HasJob js c = any (λ j. j.id == c.job_id) js ≡ true

-- The foreign keys of evaluations and candidates hold.
pub record IsLinked (d : Db) : Type 0 where
  pub subjects : All (HasSubject d.candidates) d.evaluations
  pub jobs : All (HasJob d.jobs) d.candidates

-- What stays in a table, seen from a row that stays in another.
module _ {A B : Type 0} (owns : A → B → Bool) (Q : B → Type 0) (gone : B → Bool)
    (drop : A → Bool) where
  any-delete_where :
      (p : B → Bool) (bs : List B)
      → ((b : B) → Q b → p b ≡ true → gone b ≡ false)
      → All Q bs
      → any p bs ≡ true
      → any p (delete_where gone bs) ≡ true
  any-delete_where p [] keeps q h = h
  any-delete_where p (b ∷ bs) keeps q h =
      ground (arith, keeps b q.0, any-delete_where p bs keeps q.1)

  -- Each row whose owner goes is dropped as well.
  pub All-any-delete_where :
      (rows : List A) (bs : List B)
      → ((a : A) (b : B) → Q b → drop a ≡ false → owns a b ≡ true → gone b ≡ false)
      → All Q bs
      → All (λ a. any (owns a) bs ≡ true) rows
      → All (λ a. any (owns a) (delete_where gone bs) ≡ true) (delete_where drop rows)
  All-any-delete_where [] bs keeps q h = tt
  All-any-delete_where (a ∷ rows) bs keeps q h = elim (Bool-cases (drop a)) [
    | inl t ↦ rw t (All-any-delete_where rows bs keeps q h.1)
    | inr t ↦ rw t (
      any-delete_where (owns a) bs (λ b i. keeps a b i t) q h.0,
      All-any-delete_where rows bs keeps q h.1,
    )
  ]

abbrev pub Any : {A : Type 0} → A → Type 0
Any _ = Unit

pub All-Any : {A : Type 0} (xs : List A) → All Any xs
All-Any [] = tt
All-Any (x ∷ xs) = (tt, All-Any xs)

module _ (st : Storage) (s : System) (h : IsLinked s.db) where
  without_candidates-IsLinked : (job_id : ℕ) → IsLinked (without_candidates st job_id s).db
  without_candidates-IsLinked job_id = record {
    subjects =
        All-any-delete_where is_subject Any (of_job job_id) (λ e. e.job_id == job_id) s.evaluations
          s.candidates (λ e c _ kept owner. ground arith) (All-Any s.candidates) h.subjects;
    jobs = All-delete_where (HasJob s.jobs) (of_job job_id) s.candidates h.jobs;
  }

  without_candidate-IsLinked :
      (i : ℕ) (c : Candidate) → c.id ≡ i → IsLinked (without_candidate st i c s).db
  without_candidate-IsLinked i c named = record {
    subjects =
        All-any-delete_where is_subject Any (has_id c.id) (λ e. e.candidate_id == i) s.evaluations
          s.candidates (λ e x _ kept owner. ground arith) (All-Any s.candidates) h.subjects;
    jobs = All-delete_where (HasJob s.jobs) (has_id c.id) s.candidates h.jobs;
  }

abbrev Listed : ℕ → List Candidate → Candidate → Type 0
Listed job_id cs c = of_job job_id c ≡ true → mem c.id (ids_of_job job_id cs) ≡ true

kept_subject :
    (job_id : ℕ) (cs : List Candidate) (e : Evaluation) (c : Candidate)
    → Listed job_id cs c
    → mem e.candidate_id (ids_of_job job_id cs) ≡ false
    → is_subject e c ≡ true
    → of_job job_id c ≡ false
kept_subject job_id cs e c listed kept owner = elim (Bool-cases (of_job job_id c)) [
  | inl t ↦
      let named : c.id ≡ e.candidate_id = ground arith in
      let there = ap (λ i. mem i (ids_of_job job_id cs)) named in
      ground (arith, sym (listed t) ∙ there ∙ kept)
  | inr t ↦ t
]

without_job-IsLinked : (job_id : ℕ) (d : Db) → IsLinked d → IsLinked (without_job job_id d)
without_job-IsLinked job_id d h = record {
  subjects =
      All-any-delete_where is_subject (Listed job_id d.candidates) (of_job job_id)
        (λ e. mem e.candidate_id (ids_of_job job_id d.candidates)) d.evaluations d.candidates
        (kept_subject job_id d.candidates)
        (All-selected_keys (λ c. c.id) (of_job job_id) d.candidates) h.subjects;
  jobs =
      All-any-delete_where (λ (c : Candidate) (j : Job). j.id == c.job_id) Any (λ j. j.id == job_id)
        (of_job job_id) d.candidates d.jobs (λ c j _ kept owner. ground arith) (All-Any d.jobs)
        h.jobs;
}

abbrev dropped_job : ℕ → Handler (Unit {0})
dropped_job job_id = modify (λ s. record s { db = without_job job_id s.db })

abbrev dropped : Storage → ℕ → Candidate → Handler (Unit {0})
dropped st candidate_id c = modify (without_candidate st candidate_id c)

module _ (st : Storage) (job_id candidate_id : ℕ) (user : User) (s : System)
    (h : IsLinked s.db) where
  delete_job-IsLinked : IsLinked (delete_job job_id user s).1.db
  unfolding delete_job
  delete_job-IsLinked =
      elim (ran (get_owned_job job_id user) (λ _. dropped_job job_id) s
        (Reads-get_owned_job job_id user)) [
          | raised e _ out ↦ rw out h
          | went_on _ _ out ↦ rw out (without_job-IsLinked job_id s.db h)
        ]

  delete_all-IsLinked : IsLinked (delete_all st job_id s).1.db
  unfolding delete_all
  delete_all-IsLinked = elim (Bool-cases (is_empty (select_where (of_job job_id) s.candidates))) [
    | inl t ↦ rw t h
    | inr t ↦ rw t (without_candidates-IsLinked st s h job_id)
  ]

  delete_all_candidates-IsLinked : IsLinked (delete_all_candidates st job_id user s).1.db
  unfolding delete_all_candidates
  delete_all_candidates-IsLinked =
      elim (ran (get_owned_job job_id user) (λ _. delete_all st job_id) s
        (Reads-get_owned_job job_id user)) [
          | raised e _ out ↦ rw out h
          | went_on _ _ out ↦ rw out delete_all-IsLinked
        ]

  delete_candidate-IsLinked : IsLinked (delete_candidate st job_id candidate_id user s).1.db
  unfolding delete_candidate
  delete_candidate-IsLinked =
      elim (ran (get_owned_candidate job_id candidate_id user) (dropped st candidate_id) s
        (Reads-get_owned_candidate job_id candidate_id user)) [
          | raised e _ out ↦ rw out h
          | went_on c owned out ↦ rw out (
              without_candidate-IsLinked st s h candidate_id c
                (get_owned_candidate-IsOwned job_id candidate_id user s owned).named)
        ]

-- Where the foreign keys of evaluations and candidates hold, they still hold after a job, all
-- candidates of a job, or one candidate are deleted, whether the request is refused or not.
pub deletions-IsLinked :
    (st : Storage) (job_id candidate_id : ℕ) (user : User) (s : System)
    → IsLinked s.db
    → IsLinked (delete_job job_id user s).1.db
      × IsLinked (delete_all_candidates st job_id user s).1.db
      × IsLinked (delete_candidate st job_id candidate_id user s).1.db
deletions-IsLinked st job_id candidate_id user s h = (
  delete_job-IsLinked st job_id candidate_id user s h,
  delete_all_candidates-IsLinked st job_id candidate_id user s h,
  delete_candidate-IsLinked st job_id candidate_id user s h,
)
