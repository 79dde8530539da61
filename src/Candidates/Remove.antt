-- ===== src/Candidates/Remove.antt =====
-- app/api/ingest.py: `delete_all_candidates` and `delete_candidate`.
pub mod Links
pub mod Files
use right_hire.Base.{
  ℕ, Bool, true, false, ◌&&◌, Option, none, some, List, [], ◌∷◌, length, Text, text_eq, Dict,
  lookup, is_some, is_empty, select_where, delete_where, ◌==◌, if◌then◌else◌,
}
use right_hire.Store.{User, Candidate, System, has_id, of_job}
use right_hire.Http.{Handler, Result, ok, err, modify, ◌>>=◌, ◌>>◌}
use right_hire.Jobs.{get_owned_job}
use right_hire.Candidates.{get_owned_candidate}

-- `resume_path.resolve().is_relative_to(storage_root)`, and an `unlink` that does not raise.
pub record Storage : Type 0 where
  pub is_inside : Text → Bool
  pub unlinks : Text → Bool

abbrev pub is_removed : Storage → Text → Dict (List ℕ) → Bool
is_removed st path files = (is_some (lookup path files) && st.is_inside path) && st.unlinks path

-- `resume_path.unlink()` where its conditions hold.
unfoldable pub unlink_stored : Storage → Text → Dict (List ℕ) → Dict (List ℕ)
unlink_stored st path files =
    if is_removed st path files then delete_where (λ f. text_eq f.0 path) files else files

abbrev pub unlink_resume : Storage → Candidate → Dict (List ℕ) → Dict (List ℕ)
unlink_resume st c files = elim c.resume_url [
  | some (x ∷ path) ↦ unlink_stored st (x ∷ path) files
  | _ ↦ files
]

-- The loop over the candidates.
unfoldable pub unlink_resumes : Storage → List Candidate → Dict (List ℕ) → Dict (List ℕ)
unfolding unlink_stored
unlink_resumes st [] files = files
unlink_resumes st (c ∷ cs) files = unlink_resumes st cs (unlink_resume st c files)

-- The rows of a job's candidates and of their evaluations.
abbrev pub without_candidates : Storage → ℕ → System → System
without_candidates st job_id s = record s {
  db = record s.db {
    evaluations = delete_where (λ e. e.job_id == job_id) s.evaluations;
    candidates = delete_where (of_job job_id) s.candidates;
  };
  files = unlink_resumes st (select_where (of_job job_id) s.candidates) s.files;
}

-- `delete_all_candidates` after the check of the owner; the answer is `deleted_count`.
unfoldable pub delete_all : Storage → ℕ → Handler ℕ
unfolding unlink_resumes
delete_all st job_id s =
    let found = select_where (of_job job_id) s.candidates in
    if is_empty found then (ok 0, s) else (ok (length found), without_candidates st job_id s)

unfoldable pub delete_all_candidates : Storage → ℕ → User → Handler ℕ
unfolding delete_all
delete_all_candidates st job_id user = do get_owned_job job_id user; delete_all st job_id

abbrev pub without_candidate : Storage → ℕ → Candidate → System → System
without_candidate st candidate_id c s = record s {
  db = record s.db {
    evaluations = delete_where (λ e. e.candidate_id == candidate_id) s.evaluations;
    candidates = delete_where (has_id c.id) s.candidates;
  };
  files = unlink_resume st c s.files;
}

-- `delete_candidate`
unfoldable pub delete_candidate : Storage → ℕ → ℕ → User → Handler (Unit {0})
unfolding unlink_stored
delete_candidate st job_id candidate_id user = do
  c ← get_owned_candidate job_id candidate_id user
  modify (without_candidate st candidate_id c)
