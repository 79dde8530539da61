-- ===== src/Candidates/Resume/Credit.antt =====
-- app/api/ingest.py: credits, queue and file after `upload_candidate_resume`.
use right_hire.Base.{
  ℕ, suc, ◌≡◌, refl, ◌∙◌, ap, ◌⊎◌, inl, inr, Bool, true, false, not, none, some, List, [], ◌∷◌,
  ◌++◌, arith, length, Text, text_eq_iff, Dict, lookup, insert, lookup-insert, ltb, ==_self,
  Bool-cases,
}
use right_hire.Base.Int.{ℤ, pos, ◌+ℤ◌, ◌-ℤ◌, ltb_ℤ, int_laws}
use right_hire.Config.{Settings, max_bytes}
use right_hire.Store.{User, Candidate, pending, System, World, process_candidate}
use right_hire.Http.{Handler, Result, ok, err, raise_if, ◌>>◌}
use right_hire.Http.Reads.{raised, went_on, ran}
use right_hire.Queue.Laws.{after_one, enqueue_one_sent, enqueue_one_lost}
use right_hire.Candidates.{
  find_candidate, find_candidate-update, get_owned_candidate, Reads-get_owned_candidate, IsOwned,
  get_owned_candidate-IsOwned, set_credits,
}
use right_hire.Candidates.Batch.{BulkIngestResponse}
use right_hire.Candidates.Resume.{
  Paths, ResumeFile, resume_path, save_resume, save_candidate, with_resume_at, charge_one,
  refund_one, is_accepted, extension, store_resume, upload_candidate_resume,
}

-- The row waits, and its resume is the file that was sent.
pub record Attached (candidate_id : ℕ) (file : ResumeFile) (s' : System) : Type 0 where
  pub row : Candidate
  pub found : find_candidate candidate_id s'.candidates ≡ some row
  pub waits : row.status ≡ pending
  pub cleared : row.resume_text ≡ none
  pub path : Text
  pub linked : row.resume_url ≡ some path
  pub stored : lookup path s'.files ≡ some file.content

abbrev pub Outcome :
    ℕ → ℕ → ResumeFile → User → System → Result BulkIngestResponse × System → Type 0
Outcome job_id candidate_id file user s (ok r, s') =
    (s'.queue ≡ s.queue ++ process_candidate candidate_id job_id ∷ [])
    × (r.candidate_ids ≡ candidate_id ∷ [])
    × (s'.users ≡ set_credits user.id (user.credits -ℤ pos 1) s.users)
    × Attached candidate_id file s'
Outcome job_id candidate_id file user s (err e, s') =
    (s' ≡ s)
    ⊎ (e ≡ 503)
      × (s'.queue ≡ s.queue)
      × (s'.users ≡ set_credits user.id user.credits s.users)
      × Attached candidate_id file s'

refunded : (a : ℤ) → (a -ℤ pos 1) +ℤ pos 1 ≡ a
refunded a = grind int_laws

saved_content :
    (path : Text) (v : List ℕ) (files : Dict (List ℕ)) → lookup path (insert path v files) ≡ some v
saved_content path v files = ground (arith, lookup-insert path path v files, text_eq_iff path path)

set_twice :
    (i : ℕ) (a b : ℤ) (us : List User) → set_credits i b (set_credits i a us) ≡ set_credits i b us
set_twice i a b [] = refl
set_twice i a b (u ∷ us) = ground (arith, set_twice i a b us)

module _ (w : World) (ps : Paths) (job_id i : ℕ) (file : ResumeFile) (user : User) (c : Candidate)
    (s : System) (o : IsOwned job_id i s c) where
  abbrev path_of : Text
  path_of = resume_path ps c.id file

  abbrev charged : System
  charged =
      charge_one user
        (save_candidate c.id (with_resume_at w path_of) (save_resume path_of file.content s))

  found_saved : find_candidate i charged.candidates ≡ some (with_resume_at w path_of c)
  found_saved = ground (
    arith,
    find_candidate-update c.id i (with_resume_at w path_of) s.candidates (λ x. refl),
    o.found,
    o.named,
    ==_self i,
  )

  attached :
      (s' : System)
      → s'.candidates ≡ charged.candidates
      → s'.files ≡ charged.files
      → Attached i file s'
  attached s' rows files = record {
    row = with_resume_at w path_of c;
    found = ap (find_candidate i) rows ∙ found_saved;
    waits = refl;
    cleared = refl;
    path = path_of;
    linked = refl;
    stored = ap (lookup path_of) files ∙ saved_content path_of file.content s.files;
  }

  store_resume-Outcome : Outcome job_id i file user s (store_resume w ps job_id file user c s)
  unfolding store_resume
  store_resume-Outcome = elim (Bool-cases (w.accepts s.attempts)) [
    | inl t ↦ rw (enqueue_one_sent w job_id c.id charged t) (
      ap (λ k. s.queue ++ process_candidate k job_id ∷ []) o.named,
      ap (λ k. k ∷ []) o.named,
      refl,
      attached (after_one (process_candidate c.id job_id) charged) refl refl,
    )
    | inr t ↦ rw (enqueue_one_lost w job_id c.id charged t) (
        inr (
          refl,
          refl,
          set_twice user.id _ _ s.users
              ∙ ap (λ a. set_credits user.id a s.users) (refunded user.credits),
          attached (refund_one user (record charged { attempts = suc s.attempts })) refl refl,
        ))
  ]

-- The handler behind each of its checks.
abbrev with_credit : World → Paths → ℕ → ResumeFile → User → Candidate → Handler BulkIngestResponse
with_credit w ps job_id file user c =
    raise_if (ltb_ℤ user.credits (pos 1)) 402 >> store_resume w ps job_id file user c

abbrev of_size :
    World → Settings → Paths → ℕ → ResumeFile → User → Candidate → Handler BulkIngestResponse
of_size w conf ps job_id file user c =
    raise_if (ltb (max_bytes conf) (length file.content)) 413 >> with_credit w ps job_id file user c

abbrev of_type :
    World → Settings → Paths → ℕ → ResumeFile → User → Candidate → Handler BulkIngestResponse
of_type w conf ps job_id file user c =
    raise_if (not (is_accepted (extension ps file))) 400 >> of_size w conf ps job_id file user c

module _ (job_id i : ℕ) (file : ResumeFile) (user : User) (s : System) where
  Outcome-raise_if :
      (b : Bool) (e : ℕ) (k : Handler BulkIngestResponse)
      → Outcome job_id i file user s (k s)
      → Outcome job_id i file user s ((raise_if b e >> k) s)
  Outcome-raise_if true e k h = inl refl
  Outcome-raise_if false e k h = h

-- The upload of a resume is refused and changes nothing; or it answers with the candidate's id, takes
-- one credit and queues one message; or it answers 503, queues nothing and the user's credits are
-- what they were. In the last two cases the candidate is pending, its old text is gone, and its
-- resume is a stored file with the content that was sent.
pub upload_candidate_resume-Outcome :
    (w : World) (conf : Settings) (ps : Paths) (job_id candidate_id : ℕ) (file : ResumeFile)
    (user : User) (s : System)
    → Outcome job_id candidate_id file user s
        (upload_candidate_resume w conf ps job_id candidate_id file user s)
unfolding upload_candidate_resume
upload_candidate_resume-Outcome w conf ps job_id i file user s =
    elim (ran (get_owned_candidate job_id i user) (of_type w conf ps job_id file user) s
      (Reads-get_owned_candidate job_id i user)) [
        | raised e _ out ↦ rw out (inl refl)
        | went_on c owned out ↦ rw out (
            Outcome-raise_if job_id i file user s _ 400 (of_size w conf ps job_id file user c) (
              Outcome-raise_if job_id i file user s _ 413 (with_credit w ps job_id file user c) (
                Outcome-raise_if job_id i file user s _ 402 (store_resume w ps job_id file user c) (
                  store_resume-Outcome w ps job_id i file user c s
                    (get_owned_candidate-IsOwned job_id i user s owned)))))
      ]
