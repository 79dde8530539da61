-- ===== src/Candidates/Resume.antt =====
-- app/api/ingest.py: `upload_candidate_resume`, with app/pipeline/ingest.py:save_resume.
pub mod Credit
use right_hire.Base.{
  ℕ, suc, Bool, true, false, not, ◌||◌, ◌&&◌, is_some, Option, none, some, List, [], ◌∷◌, length,
  Text, text, text_eq, lower, insert, ltb, is_empty, update_where, if◌then◌else◌,
}
use right_hire.Base.Int.{pos, ◌+ℤ◌, ◌-ℤ◌, ltb_ℤ}
use right_hire.Config.{Settings, max_bytes}
use right_hire.Store.{User, Candidate, pending, status_eq, System, World, has_id}
use right_hire.Http.{Handler, Result, ok, err, raise_if, ◌>>=◌, ◌>>◌}
use right_hire.Queue.{enqueue_candidates}
use right_hire.Candidates.{get_owned_candidate, set_credits}
use right_hire.Candidates.Batch.{BulkIngestResponse}

-- `Path(filename).suffix`, and the path of "<id>.<extension>" under `STORAGE_DIR`.
pub record Paths : Type 0 where
  pub suffix : Text → Text
  pub stored_at : ℕ → Text → Text

pub record ResumeFile : Type 0 where
  pub filename : Text
  pub content : List ℕ

abbrev extension : Paths → ResumeFile → Text
extension ps file = lower (ps.suffix file.filename)

abbrev pub is_accepted : Text → Bool
is_accepted ext =
    text_eq ext (text ".pdf") || (text_eq ext (text ".txt") || text_eq ext (text ".md"))

-- `ext.lstrip(".").lower() or "pdf"`
abbrev lstrip_dots : Text → Text
lstrip_dots [] = []
lstrip_dots (c ∷ t) = if text_eq (c ∷ []) (text ".") then lstrip_dots t else c ∷ t

abbrev safe_ext : Text → Text
safe_ext ext = let e = lower (lstrip_dots ext) in if is_empty e then text "pdf" else e

abbrev pub resume_path : Paths → ℕ → ResumeFile → Text
resume_path ps candidate_id file = ps.stored_at candidate_id (safe_ext (extension ps file))

-- `save_resume`
abbrev pub save_resume : Text → List ℕ → System → System
save_resume path content s = record s { files = insert path content s.files }

abbrev is_at : Option Text → Text → Bool
is_at none path = false
is_at (some url) path = text_eq url path

-- The three assignments write what the row already holds.
abbrev is_same : Text → Candidate → Bool
is_same path c =
    (is_at c.resume_url path && not (is_some c.resume_text)) && status_eq c.status pending

abbrev pub with_resume_at : World → Text → Candidate → Candidate
with_resume_at w path c = record c {
  resume_url = some path;
  resume_text = none;
  status = pending;
  updated_at = if is_same path c then c.updated_at else w.now;
}

abbrev pub save_candidate : ℕ → (Candidate → Candidate) → System → System
save_candidate i f s = record s {
  db = record s.db { candidates = update_where (has_id i) f s.candidates };
}

abbrev pub charge_one : User → System → System
charge_one user s = record s {
  db = record s.db { users = set_credits user.id (user.credits -ℤ pos 1) s.users };
}

-- `user.credits += 1` after the `-= 1`.
abbrev pub refund_one : User → System → System
refund_one user s = record s {
  db = record s.db { users = set_credits user.id ((user.credits -ℤ pos 1) +ℤ pos 1) s.users };
}

abbrev pub one_queued : ℕ → List ℕ → BulkIngestResponse
one_queued job_id ids = record {
  job_id = job_id;
  queued_count = 1;
  candidate_ids = ids;
  failed_count = 0;
}

-- From the write of the file on.
unfoldable pub store_resume :
    World → Paths → ℕ → ResumeFile → User → Candidate → Handler BulkIngestResponse
store_resume w ps job_id file user c s =
    let path = resume_path ps c.id file in
    let saved = save_candidate c.id (with_resume_at w path) (save_resume path file.content s) in
    let sent = enqueue_candidates w job_id (c.id ∷ []) (charge_one user saved) in
    if is_empty sent.failed
    then (ok (one_queued job_id sent.queued), sent.after)
    else (err 503, refund_one user sent.after)

-- `upload_candidate_resume`
unfoldable pub upload_candidate_resume :
    World → Settings → Paths → ℕ → ℕ → ResumeFile → User → Handler BulkIngestResponse
unfolding store_resume
upload_candidate_resume w conf ps job_id candidate_id file user = do
  c ← get_owned_candidate job_id candidate_id user
  raise_if (not (is_accepted (extension ps file))) 400
  raise_if (ltb (max_bytes conf) (length file.content)) 413
  raise_if (ltb_ℤ user.credits (pos 1)) 402
  store_resume w ps job_id file user c
