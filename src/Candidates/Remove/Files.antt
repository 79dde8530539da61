-- ===== src/Candidates/Remove/Files.antt =====
-- app/api/ingest.py: rows and files after `delete_all_candidates`.
use right_hire.Base.{
  ℕ, ◌≡◌, refl, ◌∙◌, ap, sym, inl, inr, true, false, ◌&&◌, Option, none, some, List, [], ◌∷◌, arith,
  length, Text, text_eq, text_eq_iff, Dict, lookup, All, ◌==◌, Bool-cases, select_where,
  delete_where, count_where, is_empty, length-select_where, count_where-delete_where, is_empty→nil,
  is_some, any, and-true_left, and-true_right,
}
use right_hire.Store.{Evaluation, User, Candidate, System, of_job}
use right_hire.Http.{Result, ok, err}
use right_hire.Http.Reads.{raised, went_on, ran}
use right_hire.Jobs.{get_owned_job, Reads-get_owned_job}
use right_hire.Candidates.Remove.Links.{is_subject, IsLinked}
use right_hire.Candidates.Remove.{
  Storage, is_removed, unlink_stored, unlink_resume, unlink_resumes, delete_all,
  delete_all_candidates,
}

lookup-delete_where :
    (p q : Text) (files : Dict (List ℕ))
    → text_eq p q ≡ false
    → lookup q (delete_where (λ f. text_eq f.0 p) files) ≡ lookup q files
lookup-delete_where p q [] h = refl
lookup-delete_where p q ((r, v) ∷ files) h =
    ground
      (arith, text_eq_iff r p, text_eq_iff r q, text_eq_iff p q, lookup-delete_where p q files h)

module _ (st : Storage) (q : Text) (outside : st.is_inside q ≡ false) where
  other_path : (p : Text) → st.is_inside p ≡ true → text_eq p q ≡ false
  other_path p inside = elim (Bool-cases (text_eq p q)) [
    | inl same ↦
        let path : p ≡ q = ground (arith, text_eq_iff p q) in
        ground (arith, sym inside ∙ ap (λ r. st.is_inside r) path ∙ outside)
    | inr differs ↦ differs
  ]

  unlink_stored_keeps :
      (p : Text) (files : Dict (List ℕ)) → lookup q (unlink_stored st p files) ≡ lookup q files
  unfolding unlink_stored
  unlink_stored_keeps p files =
      let there = is_some (lookup p files) in
      elim (Bool-cases (is_removed st p files)) [
        | inl t ↦
            rw (unlink_stored, t)
              (lookup-delete_where p q files (
                other_path p
                  (and-true_right there _ (and-true_left (there && st.is_inside p) _ t))))
        | inr t ↦ rw (unlink_stored, t) refl
      ]

  unlink_url_keeps :
      (url : Option Text) (files : Dict (List ℕ))
      → lookup q (elim url [ some (x ∷ path) ↦ unlink_stored st (x ∷ path) files | _ ↦ files ])
        ≡ lookup q files
  unlink_url_keeps none files = refl
  unlink_url_keeps (some []) files = refl
  unlink_url_keeps (some (x ∷ path)) files = unlink_stored_keeps (x ∷ path) files

  unlink_resumes_keeps :
      (cs : List Candidate) (files : Dict (List ℕ))
      → lookup q (unlink_resumes st cs files) ≡ lookup q files
  unfolding unlink_resumes
  unlink_resumes_keeps [] files = refl
  unlink_resumes_keeps (c ∷ cs) files =
      unlink_resumes_keeps cs (unlink_resume st c files) ∙ unlink_url_keeps c.resume_url files

-- What is left behind, and what is not.
pub record Emptied (st : Storage) (job_id : ℕ) (s : System) (n : ℕ) (s' : System) : Type 0 where
  pub counted : n ≡ count_where (of_job job_id) s.candidates
  pub no_candidate : count_where (of_job job_id) s'.candidates ≡ 0
  pub no_evaluation : count_where (λ e. e.job_id == job_id) s'.evaluations ≡ 0
  pub outside_kept : (q : Text) → st.is_inside q ≡ false → lookup q s'.files ≡ lookup q s.files
  pub uncharged : s'.users ≡ s.users
  pub job_kept : s'.jobs ≡ s.jobs

abbrev pub Outcome : Storage → ℕ → System → Result ℕ × System → Type 0
Outcome st job_id s (ok n, s') = Emptied st job_id s n s'
Outcome st job_id s (err e, s') = s' ≡ s

subject_elsewhere :
    (job_id : ℕ) (e : Evaluation) (cs : List Candidate)
    → count_where (of_job job_id) cs ≡ 0
    → any (is_subject e) cs ≡ true
    → (e.job_id == job_id) ≡ false
subject_elsewhere job_id e [] h k = cc
subject_elsewhere job_id e (c ∷ cs) h k = ground (arith, subject_elsewhere job_id e cs)

no_evaluation_of :
    (job_id : ℕ) (es : List Evaluation) (cs : List Candidate)
    → count_where (of_job job_id) cs ≡ 0
    → All (λ e. any (is_subject e) cs ≡ true) es
    → count_where (λ e. e.job_id == job_id) es ≡ 0
no_evaluation_of job_id [] cs h k = refl
no_evaluation_of job_id (e ∷ es) cs h k =
    ground (arith, subject_elsewhere job_id e cs h k.0, no_evaluation_of job_id es cs h k.1)

module _ (st : Storage) (job_id : ℕ) (s : System) (h : IsLinked s.db) where
  nothing_found :
      is_empty (select_where (of_job job_id) s.candidates) ≡ true → Emptied st job_id s 0 s
  nothing_found t =
      let none_found =
        sym (length-select_where (of_job job_id) s.candidates) ∙ ap length (is_empty→nil _ t) in
      record {
        counted = sym none_found;
        no_candidate = none_found;
        no_evaluation = no_evaluation_of job_id s.evaluations s.candidates none_found h.subjects;
        outside_kept = λ q outside. refl;
        uncharged = refl;
        job_kept = refl;
      }

  delete_all-Outcome : Outcome st job_id s (delete_all st job_id s)
  unfolding delete_all
  delete_all-Outcome = elim (Bool-cases (is_empty (select_where (of_job job_id) s.candidates))) [
    | inl t ↦ rw t (nothing_found t)
    | inr t ↦ rw t (record {
      counted = length-select_where (of_job job_id) s.candidates;
      no_candidate = count_where-delete_where (of_job job_id) s.candidates;
      no_evaluation = count_where-delete_where (λ e. e.job_id == job_id) s.evaluations;
      outside_kept = λ q outside.
          unlink_resumes_keeps st q outside (select_where (of_job job_id) s.candidates) s.files;
      uncharged = refl;
      job_kept = refl;
    })
  ]

-- Where the foreign keys of evaluations and candidates hold, the deletion of a job's candidates is
-- refused and changes nothing; or it counts them, leaves no candidate and no evaluation of the job,
-- removes no file outside the storage directory, and changes neither credits nor jobs.
pub delete_all_candidates-Outcome :
    (st : Storage) (job_id : ℕ) (user : User) (s : System)
    → IsLinked s.db
    → Outcome st job_id s (delete_all_candidates st job_id user s)
unfolding delete_all_candidates
delete_all_candidates-Outcome st job_id user s h =
    elim (ran (get_owned_job job_id user) (λ _. delete_all st job_id) s
      (Reads-get_owned_job job_id user)) [
        | raised e _ out ↦ rw out refl
        | went_on _ _ out ↦ rw out (delete_all-Outcome st job_id s h)
      ]
