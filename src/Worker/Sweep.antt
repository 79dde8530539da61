-- ===== src/Worker/Sweep.antt =====
-- app/workers/tasks.py: `sweep_stale_candidates`.
pub mod Body
pub mod Counts
pub mod Turns
use right_hire.Base.{
  ℕ, suc, ◌+◌, ◌*◌, Bool, true, false, ◌&&◌, ◌||◌, List, [], ◌∷◌, ◌++◌, text, ltb, leb,
  select_where, update_where,
}
use right_hire.Config.{Settings}
use right_hire.Store.{
  Candidate, CandidateStatus, pending, processing, failed, status_eq, Failure, timed_out,
  requeue_failed, System, World, process_candidate, has_id,
}
use right_hire.Queue.{enqueue}
use right_hire.Candidates.{failure_evaluation}

-- `status in (pending, processing) and updated_at < cutoff`
abbrev pub is_stale : World → Settings → Candidate → Bool
is_stale w conf c =
    (status_eq c.status pending || status_eq c.status processing)
    && ltb (c.updated_at + 60 * conf.stale_candidate_timeout_minutes) w.now

-- The system, and the two counters.
pub record Swept : Type 0 where
  pub after : System
  pub requeued : ℕ
  pub failed : ℕ

abbrev pub save_row : ℕ → (Candidate → Candidate) → System → System
save_row i f s = record s {
  db = record s.db { candidates = update_where (has_id i) f s.candidates };
}

abbrev pub explain : World → Candidate → Failure → System → System
explain w c why s = record s {
  db = record s.db {
    evaluations =
        s.evaluations
        ++ failure_evaluation w s.drawn c.id c.job_id why (text "watchdog_timeout") ∷ [];
  };
  drawn = suc s.drawn;
}

abbrev pub given_up : World → Candidate → Candidate
given_up w c = record c { status = failed; updated_at = w.now }

-- `stale_retries` is one more than what was loaded.
abbrev pub tried_again : World → CandidateStatus → Candidate → Candidate → Candidate
tried_again w status loaded c = record c {
  stale_retries = suc loaded.stale_retries;
  status = status;
  updated_at = w.now;
}

abbrev pub time_out : World → Candidate → Swept → Swept
time_out w c r = record r {
  after = explain w c (timed_out c.stale_retries) (save_row c.id (given_up w) r.after);
  failed = suc r.failed;
}

-- After the enqueue: it was sent, or it raised.
abbrev pub after_enqueue : World → Candidate → Swept → Bool × System → Swept
after_enqueue w c r (true, s) = record r {
  after = save_row c.id (tried_again w pending c) s;
  requeued = suc r.requeued;
}
after_enqueue w c r (false, s) = record r {
  after = explain w c requeue_failed (save_row c.id (tried_again w CandidateStatus.failed c) s);
  failed = suc r.failed;
}

abbrev pub requeue_stale : World → Candidate → Swept → Swept
requeue_stale w c r = after_enqueue w c r (enqueue w (process_candidate c.id c.job_id) r.after)

-- The body of the loop.
unfoldable pub sweep_one : World → Settings → Candidate → Swept → Swept
unfolding enqueue
sweep_one w conf c r = elim (leb conf.stale_candidate_max_retries c.stale_retries) [
  | true ↦ time_out w c r
  | false ↦ requeue_stale w c r
]

unfoldable pub sweep_all : World → Settings → List Candidate → Swept → Swept
unfolding sweep_one
sweep_all w conf [] r = r
sweep_all w conf (c ∷ cs) r = sweep_all w conf cs (sweep_one w conf c r)

unfoldable pub sweep_stale_candidates : World → Settings → System → Swept
unfolding sweep_all
sweep_stale_candidates w conf s =
    sweep_all w conf (select_where (is_stale w conf) s.candidates)
      (record { after = s; requeued = 0; failed = 0 })
