-- ===== src/Lifecycle/Tasks.antt =====
-- app/workers/tasks.py: `process_candidate` and `sweep_stale_candidates`, on the board.
use right_hire.Base.{
  ℕ, ◌≡◌, ◌≢◌, ap, ◌∙◌, ◌⊎◌, inl, inr, true, ◌||◌, Option, some, List, [], ◌∷◌, map, arith,
  Distinct, Bool-cases, Option-cases, All, All-both, All-map_imp, All-select_where,
  All-select_where_holds, All-first_where, select_where, ◌==◌, if◌then◌else◌,
}
use mathlib.Core.Path.{subst}
use mathlib.Core.Option
use right_hire.Config.{Settings}
use right_hire.Store.{
  Candidate, CandidateStatus, pending, processing, failed, System, World, status_eq,
}
use right_hire.Jobs.{find_job}
use right_hire.Candidates.{find_candidate, find_candidate-update}
use right_hire.Worker.{WorkerState, Services}
use right_hire.Worker.Process.{process_candidate}
use right_hire.Worker.Process.Outcomes.{Ended}
use right_hire.Worker.Process.Settled.{
  settled_rows, named_by, process_candidate_no_candidate, process_candidate_no_job,
  process_candidate_rows,
}
use right_hire.Worker.Sweep.{is_stale, Swept, sweep_one, sweep_all, sweep_stale_candidates}
use right_hire.Worker.Sweep.Body.{SweptOne, sweep_one-SweptOne}
use right_hire.Lifecycle.{
  Kind, IsActive, waits, runs, Move, judged, broken, requeued, given_up, board, Moves,
}
use right_hire.Lifecycle.Rows.{Moves-same}

Moves-Ended :
    (i : ℕ) (st : CandidateStatus) (s s' : WorkerState) (c : Candidate)
    → find_candidate i s.candidates ≡ some c
    → Move Kind.evaluate (some c.status) (some st)
    → Ended i st s s'
    → Moves Kind.evaluate (board s.candidates) (board s'.candidates)
Moves-Ended i st s s' c was move e j = elim (Bool-cases (j == i)) [
  | inl t ↦
      let named : i ≡ j = ground arith in
      let before : board s.candidates i ≡ some c.status = ground arith in
      let after : board s'.candidates i ≡ some st = ground (arith, e.found, e.finished) in
      inr (
        subst (λ k. Move Kind.evaluate (board s.candidates k) (board s'.candidates k)) named
          (rw (before, after) move))
  | inr t ↦
      let ne : j ≢ i = λ same. ground arith in inl (ap (Option.map (λ c. c.status)) (e.others j ne))
]

pub process_candidate-Moves :
    (w : World) (conf : Settings) (sv : Services) (i job_id : ℕ) (s : WorkerState)
    → Moves Kind.evaluate
        (board s.candidates)
        (board (process_candidate w conf sv i job_id s).candidates)
process_candidate-Moves w conf sv i job_id s = elim (Option-cases (find_candidate i s.candidates)) [
  | inl absent ↦
      rw (process_candidate_no_candidate w conf sv i job_id s absent)
        (Moves-same Kind.evaluate s.candidates)
  | inr (c, found) ↦ elim (Option-cases (find_job job_id s.jobs)) [
    | inl absent ↦
        rw (process_candidate_no_job w conf sv i job_id s c found absent)
          (Moves-same Kind.evaluate s.candidates)
    | inr (job, owner) ↦
        rw (process_candidate_rows w conf sv i job_id s c job found owner)
          (elim (settled_rows w conf sv c job i job_id s (named_by i s.candidates c found) found) [
            | inl g ↦ Moves-Ended i CandidateStatus.done s _ c found (judged c.status) g.ended
            | inr g ↦ Moves-Ended i failed s _ c found (broken c.status) g.ended
          ])
  ]
]

-- What the watchdog may have done to a candidate: nothing, or one of its moves.
abbrev WasActive : List Candidate → ℕ → Type 0
WasActive cs i = (a : CandidateStatus) × IsActive a × (board cs i ≡ some a)

swept_move :
    (b b' : Option CandidateStatus) (a st : CandidateStatus)
    → IsActive a
    → b ≡ some a
    → b' ≡ some st
    → (st ≡ pending) ⊎ (st ≡ failed)
    → Move Kind.sweep b b'
swept_move b b' a st active before after (inl e) = rw (before, after, e) (requeued a active)
swept_move b b' a st active before after (inr e) = rw (before, after, e) (given_up a active)

module _ (w : World) (conf : Settings) (start : List Candidate) where
  abbrev StartedAs : Option CandidateStatus → ℕ → Type 0
  StartedAs b j = (b ≡ board start j) ⊎ Move Kind.sweep (board start j) b

  -- The body of the loop, at a row that was active when the sweep began.
  module _ (c : Candidate) (r : Swept) (one : SweptOne w conf c r (sweep_one w conf c r)) where
    after_one :
        (j : ℕ)
        → find_candidate j (sweep_one w conf c r).after.candidates ≡ (
            if j == c.id
            then Option.map one.change (find_candidate j r.after.candidates)
            else find_candidate j r.after.candidates)
    after_one j =
        ap (find_candidate j) one.candidates
        ∙ find_candidate-update c.id j one.change r.after.candidates one.keeps

    sweep_one-Moves :
        WasActive start c.id
        → Moves Kind.sweep (board start) (board r.after.candidates)
        → Moves Kind.sweep (board start) (board (sweep_one w conf c r).after.candidates)
    sweep_one-Moves (a, active, was) before j = elim (Bool-cases (j == c.id)) [
      | inl t ↦ elim (Option-cases (find_candidate j r.after.candidates)) [
        | inl gone ↦
            let same : board r.after.candidates j
                ≡ board (sweep_one w conf c r).after.candidates j =
              ground (arith, after_one j) in
            subst (λ b. StartedAs b j) same (before j)
        | inr (x, found) ↦
            let named : j ≡ c.id = ground arith in
            inr (
              swept_move (board start j) _ a (one.change x).status active
                (ap (board start) named ∙ was) (ground (arith, after_one j)) (one.placed x))
      ]
      | inr t ↦
          let same : board r.after.candidates j ≡ board (sweep_one w conf c r).after.candidates j =
            ground (arith, after_one j) in
          subst (λ b. StartedAs b j) same (before j)
    ]

  sweep_all-Moves :
      (cs : List Candidate) (r : Swept)
      → All (λ c. WasActive start c.id) cs
      → Moves Kind.sweep (board start) (board r.after.candidates)
      → Moves Kind.sweep (board start) (board (sweep_all w conf cs r).after.candidates)
  unfolding sweep_all
  sweep_all-Moves [] r h before = before
  sweep_all-Moves (c ∷ cs) r h before =
      sweep_all-Moves cs (sweep_one w conf c r) h.1
        (sweep_one-Moves c r (sweep_one-SweptOne w conf c r) h.0 before)

stale-IsActive :
    (w : World) (conf : Settings) (c : Candidate) → is_stale w conf c ≡ true → IsActive c.status
stale-IsActive w conf c h = status_active c.status (ground arith)
  where
    status_active :
        (a : CandidateStatus) → (status_eq a pending || status_eq a processing) ≡ true → IsActive a
    status_active CandidateStatus.pending t = waits
    status_active CandidateStatus.processing t = runs
    status_active CandidateStatus.done t = absurd (ground arith)
    status_active CandidateStatus.failed t = absurd (ground arith)

pub sweep_stale_candidates-Moves :
    (w : World) (conf : Settings) (s : System)
    → Distinct (map (λ c. c.id) s.candidates)
    → Moves Kind.sweep
        (board s.candidates)
        (board (sweep_stale_candidates w conf s).after.candidates)
unfolding sweep_stale_candidates
sweep_stale_candidates-Moves w conf s d =
    let rows = select_where (is_stale w conf) s.candidates in
    sweep_all-Moves w conf s.candidates rows (record { after = s; requeued = 0; failed = 0 })
      (All-map_imp (λ c. (is_stale w conf c ≡ true) × (find_candidate c.id s.candidates ≡ some c))
        (λ c. WasActive s.candidates c.id) rows
        (λ c h. (c.status, stale-IsActive w conf c h.0, ground arith))
        (All-both (λ c. is_stale w conf c ≡ true) (λ c. find_candidate c.id s.candidates ≡ some c)
          rows (All-select_where_holds (is_stale w conf) s.candidates)
          (All-select_where (λ c. find_candidate c.id s.candidates ≡ some c) (is_stale w conf)
            s.candidates (All-first_where (λ c. c.id) s.candidates d))))
      (Moves-same Kind.sweep s.candidates)
