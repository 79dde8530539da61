-- ===== src/Linked/Work/Watch.antt =====
-- app/workers/tasks.py: a whole task and a whole sweep, and the foreign keys.
use right_hire.Base.{
  ℕ, ◌≡◌, refl, sym, ◌⊎◌, inl, inr, Bool, true, false, Bool-cases, Option-cases, none, some, List,
  [], ◌∷◌, arith, text, All, All-map_imp, All-select_where, select_where, first_where_holds, ◌==◌,
  leb,
}
use mathlib.Core.Path.{subst}
use right_hire.Config.{Settings}
use right_hire.Store.{
  Job, Candidate, CandidateStatus, pending, Failure, timed_out, requeue_failed, World, System,
  process_candidate, set_status, has_id,
}
use right_hire.Queue.{enqueue}
use right_hire.Jobs.{find_job}
use right_hire.Candidates.{find_candidate, failure_evaluation}
use right_hire.Worker.{WorkerState, Services, Attempt, done, broke}
use right_hire.Worker.Process.{evaluate, record_failure, handled, start}
use right_hire.Worker.Process as Process
use right_hire.Worker.Process.Settled.{
  process_candidate_no_candidate, process_candidate_no_job, process_candidate_rows, named_by,
}
use right_hire.Worker.Sweep.{
  Swept, is_stale, given_up, tried_again, save_row, explain, after_enqueue, sweep_one, sweep_all,
  sweep_stale_candidates,
}
use right_hire.Linked.{
  Owns, Owns-rows, Extends, Extends-same, Extends-trans, Extends-update_candidates,
  Extends-add_evaluations,
}
use right_hire.Linked.Requests.{id-set_status, job_id-set_status}
use right_hire.Linked.Edits.{db-enqueue}
use right_hire.Linked.Work.{evaluation_added, row_written, Works-evaluate}

module _ (w : World) (conf : Settings) (sv : Services) (c : Candidate) (job : Job) where
  handled-Extends :
      (s : WorkerState) (r : Attempt (Unit {0}) × WorkerState)
      → Owns c.id job.id r.1.candidates
      → Extends s.system.db r.1.system.db
      → Extends s.system.db (handled w c job.id r).system.db
  unfolding record_failure
  handled-Extends s (done _, s') o h = h
  handled-Extends s (broke why, s') o h = Extends-trans s.system.db s'.system.db _ h (
      evaluation_added w c.id job.id CandidateStatus.failed
        (failure_evaluation w s'.drawn c.id job.id why (text "error")) s' refl refl o)

  task-Extends :
      (s : WorkerState)
      → Owns c.id job.id s.candidates
      → Extends s.system.db (handled w c job.id (evaluate w conf sv c job (start w c s))).system.db
  task-Extends s o =
      let begun =
        row_written c.id (set_status w.now CandidateStatus.processing) s
          (id-set_status w.now CandidateStatus.processing)
          (job_id-set_status w.now CandidateStatus.processing) in
      let ran =
        Extends-trans s.system.db (start w c s).system.db _ begun
          ((Works-evaluate w conf sv c job).at (start w c s) (begun.owns c.id job.id o)) in
      handled-Extends s (evaluate w conf sv c job (start w c s)) (ran.owns c.id job.id o) ran

job_named : (j : ℕ) (js : List Job) (job : Job) → find_job j js ≡ some job → job.id ≡ j
job_named j js job h = ground (arith, first_where_holds (λ (x : Job). x.id == j) js job)

named_task :
    (w : World) (conf : Settings) (sv : Services) (c : Candidate) (job : Job) (i j : ℕ)
    (s : WorkerState)
    → c.id ≡ i
    → job.id ≡ j
    → Owns i j s.candidates
    → Extends s.system.db (handled w c j (evaluate w conf sv c job (start w c s))).system.db
named_task w conf sv c job i j s named owned o =
    subst
      (λ k. Extends s.system.db (handled w c k (evaluate w conf sv c job (start w c s))).system.db)
      owned
      (task-Extends w conf sv c job s (
        subst (λ k. Owns k job.id s.candidates) (sym named)
          (subst (λ k. Owns i k s.candidates) (sym owned) o)))

still_there :
    (i j : ℕ) (cs : List Candidate) (c : Candidate)
    → find_candidate i cs ≡ some c
    → (find_candidate i cs ≡ none) ⊎ Owns i j cs
    → Owns i j cs
still_there i j cs c found (inl absent) = cc
still_there i j cs c found (inr o) = o

-- A task for a candidate of the job, or for one that is gone.
pub process_candidate-Extends :
    (w : World) (conf : Settings) (sv : Services) (i j : ℕ) (s : WorkerState)
    → (find_candidate i s.candidates ≡ none) ⊎ Owns i j s.candidates
    → Extends s.system.db (Process.process_candidate w conf sv i j s).system.db
process_candidate-Extends w conf sv i j s o = elim (Option-cases (find_candidate i s.candidates)) [
  | inl absent ↦
      rw (process_candidate_no_candidate w conf sv i j s absent) (Extends-same s.system.db)
  | inr (c, found) ↦ elim (Option-cases (find_job j s.jobs)) [
    | inl absent ↦
        rw (process_candidate_no_job w conf sv i j s c found absent) (Extends-same s.system.db)
    | inr (job, owner) ↦ rw (process_candidate_rows w conf sv i j s c job found owner) (
        named_task w conf sv c job i j s (named_by i s.candidates c found)
          (job_named j s.jobs job owner) (still_there i j s.candidates c found o))
  ]
]

module _ (w : World) (c : Candidate) where
  -- A write to the row, and the explanation of a failure.
  explained :
      (why : Failure) (f : Candidate → Candidate) (s : System)
      → ((x : Candidate) → (f x).id ≡ x.id)
      → ((x : Candidate) → (f x).job_id ≡ x.job_id)
      → Owns c.id c.job_id s.candidates
      → Extends s.db (explain w c why (save_row c.id f s)).db
  explained why f s ids jobs o =
      let saved = Extends-update_candidates (has_id c.id) f s.db ids jobs in
      Extends-trans s.db (save_row c.id f s).db _ saved
        (Extends-add_evaluations _ (save_row c.id f s).db (saved.owns c.id c.job_id o, tt))

  sent_or_lost :
      (r : Swept) (p : Bool × System)
      → p.1.db ≡ r.after.db
      → Owns c.id c.job_id r.after.candidates
      → Extends r.after.db (after_enqueue w c r p).after.db
  sent_or_lost r (true, s) h o =
      subst (λ d. Extends d (save_row c.id (tried_again w pending c) s).db) h
        (Extends-update_candidates (has_id c.id) (tried_again w pending c) s.db (λ x. refl)
          (λ x. refl))
  sent_or_lost r (false, s) h o =
      subst
        (λ d.
          Extends d
            (explain w c requeue_failed
              (save_row c.id (tried_again w CandidateStatus.failed c) s)).db)
        h
        (explained requeue_failed (tried_again w CandidateStatus.failed c) s (λ x. refl) (λ x. refl)
          (subst (λ d. Owns c.id c.job_id d.candidates) (sym h) o))

  sweep_one-Extends :
      (conf : Settings) (r : Swept)
      → Owns c.id c.job_id r.after.candidates
      → Extends r.after.db (sweep_one w conf c r).after.db
  unfolding sweep_one
  sweep_one-Extends conf r o =
      elim (Bool-cases (leb conf.stale_candidate_max_retries c.stale_retries)) [
        | inl t ↦
            rw (sweep_one, t)
              (explained (timed_out c.stale_retries) (given_up w) r.after (λ x. refl) (λ x. refl) o)
        | inr t ↦
            rw (sweep_one, t)
              (sent_or_lost r (enqueue w (process_candidate c.id c.job_id) r.after)
                (db-enqueue w (process_candidate c.id c.job_id) r.after) o)
      ]

sweep_all-Extends :
    (w : World) (conf : Settings) (cs : List Candidate) (r : Swept)
    → All (λ c. Owns c.id c.job_id r.after.candidates) cs
    → Extends r.after.db (sweep_all w conf cs r).after.db
unfolding sweep_all
sweep_all-Extends w conf [] r h = Extends-same r.after.db
sweep_all-Extends w conf (c ∷ cs) r h =
    let first = sweep_one-Extends w c conf r h.0 in
    let r' = sweep_one w conf c r in
    Extends-trans r.after.db r'.after.db _ first (
      sweep_all-Extends w conf cs r' (
        All-map_imp (λ c. Owns c.id c.job_id r.after.candidates)
          (λ c. Owns c.id c.job_id r'.after.candidates) cs (λ x o. first.owns x.id x.job_id o) h.1))

pub sweep_stale_candidates-Extends :
    (w : World) (conf : Settings) (s : System)
    → Extends s.db (sweep_stale_candidates w conf s).after.db
unfolding sweep_stale_candidates
sweep_stale_candidates-Extends w conf s =
    sweep_all-Extends w conf (select_where (is_stale w conf) s.candidates)
      (record { after = s; requeued = 0; failed = 0 })
      (All-select_where (λ c. Owns c.id c.job_id s.candidates) (is_stale w conf) s.candidates
        (Owns-rows s.candidates))
