-- ===== src/Admin/Deletion.antt =====
-- app/api/admin.py: the tables after `delete_user`.
use right_hire.Base.{
  ℕ, ◌≡◌, refl, ◌∙◌, ap, sym, inl, inr, true, false, Option, List, [], ◌∷◌, map, arith, any, mem,
  All, All-selected_keys, count_where, count_where-delete_where, select_where, delete_where,
  is_empty, is_empty→nil, ◌==◌, Text, Bool-cases,
}
use mathlib.Core.Path.{subst}
use right_hire.Store.{User, Job, Candidate, Evaluation, Db, System}
use right_hire.Http.{Handler, Result, ok, err, ◌>>◌}
use right_hire.Http.Reads.{Reads, Reads-or_raise, raised, went_on, ran}
use right_hire.Candidates.{find_user}
use right_hire.Candidates.Remove.Links.{is_subject, IsLinked, All-any-delete_where, Any, All-Any}
use right_hire.Admin.{
  require_admin, job_ids, candidate_ids, without_evaluations, without_jobs, without_user,
  commit_deletion, get_user_row, delete_user,
}
use right_hire.Admin.Grants.{Reads-require_admin}

Reads-get_user_row : (user_id : ℕ) → Reads (get_user_row user_id)
Reads-get_user_row user_id = record {
  keeps = λ s. (Reads-or_raise (find_user user_id s.users) 404).keeps s;
}

abbrev pub HasUser : List User → Job → Type 0
HasUser us j = any (λ u. u.id == j.user_id) us ≡ true

-- The deletion of the jobs and candidates listed, without a guard.
abbrev dropped : List ℕ → List ℕ → Db → Db
dropped js cs d = record d {
  evaluations = delete_where (λ e. mem e.candidate_id cs) d.evaluations;
  candidates = delete_where (λ c. mem c.job_id js) d.candidates;
  jobs = delete_where (λ j. mem j.id js) d.jobs;
}

delete_where-none : {R : Type 0} (rs : List R) → delete_where (λ r. false) rs ≡ rs
delete_where-none [] = refl
delete_where-none (r ∷ rs) = ap (λ l. r ∷ l) (delete_where-none rs)

select_where-none : {R : Type 0} (rs : List R) → select_where (λ r. false) rs ≡ []
select_where-none [] = refl
select_where-none (r ∷ rs) = select_where-none rs

map-nil : {A : Type 0} (f : A → ℕ) (xs : List A) → xs ≡ [] → map f xs ≡ []
map-nil f xs h = ap (map f) h

dropped-nothing : (d : Db) → dropped [] [] d ≡ d
dropped-nothing d =
    rw (delete_where-none d.evaluations, delete_where-none d.candidates, delete_where-none d.jobs)
      refl

abbrev dropped_evaluations : List ℕ → Db → Db
dropped_evaluations cs d = record d {
  evaluations = delete_where (λ e. mem e.candidate_id cs) d.evaluations;
}

any_kept :
    (i k : ℕ) (us : List User)
    → (k == i) ≡ false
    → any (λ u. u.id == k) us ≡ true
    → any (λ u. u.id == k) (delete_where (λ u. u.id == i) us) ≡ true
any_kept i k [] ne h = h
any_kept i k (u ∷ us) ne h = ground (arith, any_kept i k us ne)

abbrev without_user_row : ℕ → Db → Db
without_user_row i d = record d { users = delete_where (λ u. u.id == i) d.users }

module _ (i : ℕ) (d : Db) where
  without_evaluations_lem : without_evaluations i d ≡ dropped_evaluations (candidate_ids i d) d
  without_evaluations_lem = elim (Bool-cases (is_empty (candidate_ids i d))) [
    | inl t ↦ rw t (
        ap (λ es. record d { evaluations = es }) (sym (delete_where-none d.evaluations))
        ∙ ap (λ l. dropped_evaluations l d) (sym (is_empty→nil (candidate_ids i d) t)))
    | inr t ↦ rw t refl
  ]

  no_candidates : job_ids i d ≡ [] → candidate_ids i d ≡ []
  no_candidates no_job =
      ap (λ l. map (λ c. c.id) (select_where (λ c. mem c.job_id l) d.candidates)) no_job
      ∙ map-nil (λ (c : Candidate). c.id) _ (select_where-none d.candidates)

  abbrev dropped_rows : Db → Db
  dropped_rows d' = record d' {
    candidates = delete_where (λ c. mem c.job_id (job_ids i d)) d'.candidates;
    jobs = delete_where (λ j. mem j.id (job_ids i d)) d'.jobs;
  }

  without_jobs_lem : without_jobs i d ≡ dropped (job_ids i d) (candidate_ids i d) d
  without_jobs_lem = elim (Bool-cases (is_empty (job_ids i d))) [
    | inl t ↦
        let no_job = is_empty→nil (job_ids i d) t in
        rw t (
          sym (dropped-nothing d)
          ∙ ap (λ l. dropped [] l d) (sym (no_candidates no_job))
          ∙ ap (λ l. dropped l (candidate_ids i d) d) (sym no_job))
    | inr t ↦ rw t (ap dropped_rows without_evaluations_lem)
  ]

  abbrev ListedCandidate : Candidate → Type 0
  ListedCandidate c = mem c.job_id (job_ids i d) ≡ true → mem c.id (candidate_ids i d) ≡ true

  kept_subject :
      (e : Evaluation) (c : Candidate)
      → ListedCandidate c
      → mem e.candidate_id (candidate_ids i d) ≡ false
      → is_subject e c ≡ true
      → mem c.job_id (job_ids i d) ≡ false
  kept_subject e c listed kept owner = elim (Bool-cases (mem c.job_id (job_ids i d))) [
    | inl t ↦
        let named : c.id ≡ e.candidate_id = ground arith in
        let there = ap (λ k. mem k (candidate_ids i d)) named in
        ground (arith, sym (listed t) ∙ there ∙ kept)
    | inr t ↦ t
  ]

  kept_job :
      (c : Candidate) (j : Job)
      → mem c.job_id (job_ids i d) ≡ false
      → (j.id == c.job_id) ≡ true
      → mem j.id (job_ids i d) ≡ false
  kept_job c j kept owner =
      let named : j.id ≡ c.job_id = ground arith in ap (λ k. mem k (job_ids i d)) named ∙ kept

  dropped-IsLinked : IsLinked d → IsLinked (dropped (job_ids i d) (candidate_ids i d) d)
  dropped-IsLinked h = record {
    subjects =
        All-any-delete_where is_subject ListedCandidate (λ c. mem c.job_id (job_ids i d))
          (λ e. mem e.candidate_id (candidate_ids i d)) d.evaluations d.candidates kept_subject
          (All-selected_keys (λ c. c.id) (λ c. mem c.job_id (job_ids i d)) d.candidates) h.subjects;
    jobs =
        All-any-delete_where (λ (c : Candidate) (j : Job). j.id == c.job_id) Any
          (λ j. mem j.id (job_ids i d)) (λ c. mem c.job_id (job_ids i d)) d.candidates d.jobs
          (λ c j _ kept owner. kept_job c j kept owner) (All-Any d.jobs) h.jobs;
  }

  abbrev without_rows : Db
  without_rows = record (dropped (job_ids i d) (candidate_ids i d) d) {
    users = delete_where (λ u. u.id == i) d.users;
  }

  without_user_lem : without_user i d ≡ without_rows
  without_user_lem = ap (λ (d' : Db). without_user_row i d') without_jobs_lem

  abbrev ListedJob : Job → Type 0
  ListedJob j = (j.user_id == i) ≡ true → mem j.id (job_ids i d) ≡ true

  not_theirs : (j : Job) → ListedJob j → mem j.id (job_ids i d) ≡ false → (j.user_id == i) ≡ false
  not_theirs j listed kept = elim (Bool-cases (j.user_id == i)) [
    | inl t ↦ ground (arith, sym (listed t) ∙ kept)
    | inr t ↦ t
  ]

  -- Without the user's jobs, no job that is left is the user's.
  kept_owners :
      (js : List Job)
      → All ListedJob js
      → All (HasUser d.users) js
      → All
          (HasUser (delete_where (λ u. u.id == i) d.users))
          (delete_where (λ j. mem j.id (job_ids i d)) js)
  kept_owners [] q h = tt
  kept_owners (j ∷ js) q h = elim (Bool-cases (mem j.id (job_ids i d))) [
    | inl t ↦ rw t (kept_owners js q.1 h.1)
    | inr t ↦ rw t (any_kept i j.user_id d.users (not_theirs j q.0 t) h.0, kept_owners js q.1 h.1)
  ]

-- What the deletion leaves.
pub record Deleted (i : ℕ) (s s' : System) : Type 0 where
  pub linked : IsLinked s'.db
  pub owned : All (HasUser s'.users) s'.jobs
  pub gone : count_where (λ u. u.id == i) s'.users ≡ 0
  pub no_request : any (λ r. r.user_id == i) s'.credit_requests ≡ false
  pub queue : s'.queue ≡ s.queue

abbrev pub Outcome : ℕ → System → Result (Unit {0}) × System → Type 0
Outcome i s (ok _, s') = Deleted i s s'
Outcome i s (err e, s') = s' ≡ s

module _ (i : ℕ) (s : System) (h : IsLinked s.db) (o : All (HasUser s.users) s.jobs) where
  left_behind :
      any (λ r. r.user_id == i) s.credit_requests ≡ false
      → Deleted i s (record s { db = without_rows i s.db })
  left_behind t =
      let linked = dropped-IsLinked i s.db h in
      record {
        linked = record { subjects = linked.subjects; jobs = linked.jobs };
        owned =
            kept_owners i s.db s.jobs (All-selected_keys (λ j. j.id) (λ j. j.user_id == i) s.jobs)
              o;
        gone = count_where-delete_where (λ u. u.id == i) s.users;
        no_request = t;
        queue = refl;
      }

  commit_deletion-Outcome : Outcome i s (commit_deletion i s)
  commit_deletion-Outcome = elim (Bool-cases (any (λ r. r.user_id == i) s.credit_requests)) [
    | inl t ↦ rw t refl
    | inr t ↦ rw t (
        subst (λ (d : Db). Deleted i s (record s { db = d })) (sym (without_user_lem i s.db))
          (left_behind t))
  ]

abbrev found_then : ℕ → Handler (Unit {0})
found_then i = get_user_row i >> commit_deletion i

-- Where the foreign keys hold, also those from jobs to users, the deletion of a user is refused and
-- changes nothing; or the user is gone with no credit request left behind, and the same foreign keys
-- hold.
pub delete_user-Outcome :
    (admin_key : Text) (header : Option Text) (user_id : ℕ) (s : System)
    → IsLinked s.db
    → All (HasUser s.users) s.jobs
    → Outcome user_id s (delete_user admin_key header user_id s)
unfolding delete_user
delete_user-Outcome admin_key header i s h o =
    elim (ran (require_admin admin_key header) (λ _. found_then i) s
      (Reads-require_admin admin_key header)) [
        | raised e _ out ↦ rw out refl
        | went_on _ _ out ↦
            elim (ran (get_user_row i) (λ _. commit_deletion i) s (Reads-get_user_row i)) [
              | raised e _ absent ↦ rw (out ∙ absent) refl
              | went_on _ _ there ↦ rw (out ∙ there) (commit_deletion-Outcome i s h o)
            ]
      ]
