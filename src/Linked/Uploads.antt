-- ===== src/Linked/Uploads.antt =====
-- app/api/ingest.py: the uploads, and the foreign keys.
use right_hire.Base.{
  ℕ, suc, ◌≡◌, refl, sym, inl, inr, Bool, true, ◌&&◌, Bool-cases, some, List, [], ◌∷◌, map, arith,
  text, any, any-append_right, All, All-map_imp, ◌==◌, ==_self, is_empty, length, first_where,
}
use mathlib.Core.Path.{subst}
use right_hire.Base.Int.{ltb_ℤ, pos}
use right_hire.Config.{Settings}
use right_hire.Store.{User, Job, Candidate, queue_failed, System, World, has_id}
use right_hire.Http.{Handler, ok, raise_if, ◌>>=◌, ◌>>◌}
use right_hire.Http.Reads.{Reads-raise_if}
use right_hire.Queue.{enqueue_candidates}
use right_hire.Queue.Laws.{All-refused}
use right_hire.Jobs.{get_owned_job, Reads-get_owned_job, get_owned_job-IsOwnedJob}
use right_hire.Sheet.{Row}
use right_hire.Candidates.{Reads-get_owned_candidate}
use right_hire.Candidates.Batch.{
  Readers, Upload, new_candidates, add_candidates, record_failed, BulkIngestResponse, read_sheet,
  store_batch, ingest_candidates,
}
use right_hire.Candidates.Batch.Billing.{
  Reads-read_sheet, added, ids, failed_ids, final, store_batch_lem,
}
use right_hire.Candidates.Resume.{
  Paths, ResumeFile, resume_path, save_candidate, save_resume, with_resume_at, charge_one,
  store_resume, upload_candidate_resume,
}
use right_hire.Candidates.Remove.Links.{HasJob}
use right_hire.Linked.{
  Owns, Extends, Extends-same, Extends-trans, Extends-update_candidates, Extends-add_candidates,
  Extends-users,
}
use right_hire.Linked.Requests.{Extending, Extending-bind, Extends-fail, Extends-sent}

-- A row that a lookup finds is there.
any-first_where :
    {R : Type 0} (p : R → Bool) (rs : List R) (r : R) → first_where p rs ≡ some r → any p rs ≡ true
any-first_where p [] r h = cc
any-first_where p (x ∷ rs) r h = ground (arith, any-first_where p rs r)

new_candidates-HasJob :
    (w : World) (rd : Readers) (job_id n : ℕ) (js : List Job) (rows : List Row)
    → any (λ j. j.id == job_id) js ≡ true
    → All (HasJob js) (new_candidates w rd job_id n rows)
unfolding new_candidates
new_candidates-HasJob w rd job_id n js [] h = tt
new_candidates-HasJob w rd job_id n js (row ∷ rows) h =
    (h, new_candidates-HasJob w rd job_id (suc n) js rows h)

new_candidates-Owns :
    (w : World) (rd : Readers) (job_id n : ℕ) (rows : List Row)
    → All
        (λ i. Owns i job_id (new_candidates w rd job_id n rows))
        (map (λ c. c.id) (new_candidates w rd job_id n rows))
unfolding new_candidates
new_candidates-Owns w rd job_id n [] = tt
new_candidates-Owns w rd job_id n (row ∷ rows) =
    let rest = new_candidates w rd job_id (suc n) rows in
    (
      ground (arith, ==_self (w.uuid n), ==_self job_id),
      All-map_imp (λ i. Owns i job_id rest)
          (λ i. Owns i job_id (new_candidates w rd job_id n (row ∷ rows))) (map (λ c. c.id) rest)
          (λ i h. ground arith) (new_candidates-Owns w rd job_id (suc n) rows),
    )

module _ (w : World) (rd : Readers) (job_id : ℕ) (user : User) (rows : List Row) (s : System) where
  final-Extends :
      any (λ (j : Job). j.id == job_id) s.jobs ≡ true
      → Extends s.db (final w rd job_id user rows s).db
  final-Extends owner =
      let stored = add_candidates (added w rd job_id user rows s) s in
      let lost = failed_ids w rd job_id user rows s in
      let there =
        All-map_imp (λ i. Owns i job_id (added w rd job_id user rows s))
          (λ i. Owns i job_id stored.candidates) (ids w rd job_id user rows s)
          (λ i h.
            any-append_right (λ c. (c.id == i) && (c.job_id == job_id)) s.candidates
              (added w rd job_id user rows s) h)
          (new_candidates-Owns w rd job_id s.drawn rows) in
      let failing = record_failed w job_id lost stored in
      Extends-trans s.db stored.db _
        (Extends-add_candidates (added w rd job_id user rows s) s.db
          (new_candidates-HasJob w rd job_id s.drawn s.jobs rows owner))
        (Extends-trans stored.db failing.db _
          (Extends-fail w stored.drawn job_id queue_failed (text "error") lost stored.db (
            All-refused (λ i. Owns i job_id stored.candidates) w s.attempts
              (ids w rd job_id user rows s) there))
          (Extends-users _ _ failing.db))

  Extending-store_batch :
      any (λ (j : Job). j.id == job_id) s.jobs ≡ true
      → Extending s (store_batch w rd job_id user rows)
  Extending-store_batch owner = record {
    run =
        subst (λ p. Extends s.db p.1.db) (sym (store_batch_lem w rd job_id user rows s))
          (final-Extends owner);
  }

job_there :
    (job_id : ℕ) (user : User) (s : System) {job : Job}
    → (get_owned_job job_id user s).0 ≡ ok job
    → any (λ (j : Job). j.id == job_id) s.jobs ≡ true
job_there job_id user s {job} h =
    any-first_where (λ (j : Job). j.id == job_id) s.jobs job
      (get_owned_job-IsOwnedJob job_id user s h).found

module _ (w : World) (conf : Settings) (rd : Readers) (job_id : ℕ) (file : Upload)
    (user : User) where
  abbrev after_rows : List Row → Handler BulkIngestResponse
  after_rows rows =
      raise_if (ltb_ℤ user.credits (pos (length rows))) 402 >> store_batch w rd job_id user rows

  -- The rest of the request, once the job is found.
  abbrev after_job : Job → Handler BulkIngestResponse
  after_job job = raise_if job.jd_parse_pending 409 >> (read_sheet conf rd file >>= after_rows)

  module _ (s : System) (job : Job) (owner : any (λ (j : Job). j.id == job_id) s.jobs ≡ true) where
    Extending-after_rows : (rows : List Row) → Extending s (after_rows rows)
    Extending-after_rows rows =
        let short = ltb_ℤ user.credits (pos (length rows)) in
        Extending-bind s (raise_if short 402) (λ _. store_batch w rd job_id user rows)
          (Reads-raise_if short 402) (λ _ _. Extending-store_batch w rd job_id user rows s owner)

    Extending-after_job : Extending s (after_job job)
    Extending-after_job =
        Extending-bind s (raise_if job.jd_parse_pending 409)
          (λ _. read_sheet conf rd file >>= after_rows) (Reads-raise_if job.jd_parse_pending 409)
          (λ _ _.
            Extending-bind s (read_sheet conf rd file) after_rows (Reads-read_sheet conf rd file)
              (λ rows _. Extending-after_rows rows))

pub Extending-ingest_candidates :
    (w : World) (conf : Settings) (rd : Readers) (job_id : ℕ) (file : Upload) (user : User)
    (s : System)
    → Extending s (ingest_candidates w conf rd job_id file user)
unfolding ingest_candidates
Extending-ingest_candidates w conf rd job_id file user s =
    Extending-bind s (get_owned_job job_id user) (after_job w conf rd job_id file user)
      (Reads-get_owned_job job_id user)
      (λ job h. Extending-after_job w conf rd job_id file user s job (job_there job_id user s h))

Extending-store_resume :
    (w : World) (ps : Paths) (job_id : ℕ) (file : ResumeFile) (user : User) (s : System)
    (c : Candidate)
    → Extending s (store_resume w ps job_id file user c)
unfolding store_resume
Extending-store_resume w ps job_id file user s c =
    let path = resume_path ps c.id file in
    let saved = save_candidate c.id (with_resume_at w path) (save_resume path file.content s) in
    let charged = charge_one user saved in
    let sent = enqueue_candidates w job_id (c.id ∷ []) charged in
    record {
      run =
          Extends-trans s.db saved.db _
            (Extends-update_candidates (has_id c.id) (with_resume_at w path) s.db (λ x. refl)
              (λ x. refl))
            (Extends-trans saved.db charged.db _ (Extends-users _ _ saved.db) (
              Extends-sent w job_id (c.id ∷ []) charged (elim (Bool-cases (is_empty sent.failed)) [
                | inl t ↦ rw t (Extends-same sent.after.db)
                | inr t ↦ rw t (Extends-users _ _ sent.after.db)
              ])));
    }

pub Extending-upload_candidate_resume :
    (w : World) (conf : Settings) (ps : Paths) (job_id i : ℕ) (file : ResumeFile) (user : User)
    (s : System)
    → Extending s (upload_candidate_resume w conf ps job_id i file user)
unfolding upload_candidate_resume
Extending-upload_candidate_resume w conf ps job_id i file user s =
    search (Extending-bind, Reads-get_owned_candidate, Reads-raise_if, Extending-store_resume) depth
      16
