-- ===== src/Jobs/Progress.antt =====
-- app/api/jobs.py: `job_progress`, the counts of a job's candidates by their status.
use right_hire.Base.{
  ℕ, suc, ◌+◌, ◌≡◌, refl, ◌∙◌, ap, Bool, true, ◌&&◌, Option, none, some, List, [], ◌∷◌, map, arith,
  length, ltb, ◌==◌, select_where, count_where, length-select_where, if◌then◌else◌,
}
use right_hire.Store.{User, Candidate, CandidateStatus, status_eq, System, of_job}
use right_hire.Http.{Handler, Result, ok, err, gets, ◌>>◌}
use right_hire.Http.Reads.{raised, went_on, ran}
use right_hire.Jobs.{get_owned_job, Reads-get_owned_job}

abbrev pub Counts : Type 0
Counts = List (CandidateStatus × ℕ)

abbrev bump : CandidateStatus → Counts → Counts
bump st [] = (st, 1) ∷ []
bump st ((t, n) ∷ counts) = if status_eq t st then (t, suc n) ∷ counts else (t, n) ∷ bump st counts

-- `select(Candidate.status, func.count()).group_by(Candidate.status)`
unfoldable pub status_counts : List Candidate → Counts
status_counts [] = []
status_counts (c ∷ cs) = bump c.status (status_counts cs)

-- `counts.get(status, 0)` and `sum(counts.values())`
abbrev pub count_of : CandidateStatus → Counts → ℕ
count_of st [] = 0
count_of st ((t, n) ∷ counts) = if status_eq t st then n else count_of st counts

abbrev pub sum_of : Counts → ℕ
sum_of [] = 0
sum_of ((t, n) ∷ counts) = n + sum_of counts

-- `func.max` of a column.
abbrev latest : List ℕ → Option ℕ
latest [] = none
latest (t ∷ ts) = elim (latest ts) [ none ↦ some t | some u ↦ if ltb t u then some u else some t ]

abbrev some_of : Option ℕ → List ℕ
some_of none = []
some_of (some t) = t ∷ []

abbrev later_of : Option ℕ → Option ℕ → Option ℕ
later_of (some t) (some u) = if ltb t u then some u else some t
later_of none u = u
later_of t none = t

pub record JobProgress : Type 0 where
  pub job_id : ℕ
  pub total : ℕ
  pub pending : ℕ
  pub processing : ℕ
  pub done : ℕ
  pub failed : ℕ
  pub last_updated : Option ℕ

abbrev progress : ℕ → System → JobProgress
progress job_id s =
    let counts = status_counts (select_where (of_job job_id) s.candidates) in
    record {
      job_id = job_id;
      total = sum_of counts;
      pending = count_of CandidateStatus.pending counts;
      processing = count_of CandidateStatus.processing counts;
      done = count_of CandidateStatus.done counts;
      failed = count_of CandidateStatus.failed counts;
      last_updated =
          later_of (latest (map (λ c. c.created_at) (select_where (of_job job_id) s.candidates))) (
            latest
              (map (λ e. e.created_at) (select_where (λ e. e.job_id == job_id) s.evaluations)));
    }

-- `job_progress`
unfoldable pub job_progress : ℕ → User → Handler JobProgress
unfolding status_counts
job_progress job_id user = do get_owned_job job_id user; gets (progress job_id)

sum_of-bump :
    (st : CandidateStatus) (counts : Counts) → sum_of (bump st counts) ≡ suc (sum_of counts)
sum_of-bump st [] = omega arith
sum_of-bump st ((t, n) ∷ counts) = ground (arith, sum_of-bump st counts)

status_eq-true : (a b : CandidateStatus) → status_eq a b ≡ true → a ≡ b
status_eq-true CandidateStatus.pending CandidateStatus.pending h = refl
status_eq-true CandidateStatus.pending CandidateStatus.processing h = cc
status_eq-true CandidateStatus.pending CandidateStatus.done h = cc
status_eq-true CandidateStatus.pending CandidateStatus.failed h = cc
status_eq-true CandidateStatus.processing CandidateStatus.pending h = cc
status_eq-true CandidateStatus.processing CandidateStatus.processing h = refl
status_eq-true CandidateStatus.processing CandidateStatus.done h = cc
status_eq-true CandidateStatus.processing CandidateStatus.failed h = cc
status_eq-true CandidateStatus.done CandidateStatus.pending h = cc
status_eq-true CandidateStatus.done CandidateStatus.processing h = cc
status_eq-true CandidateStatus.done CandidateStatus.done h = refl
status_eq-true CandidateStatus.done CandidateStatus.failed h = cc
status_eq-true CandidateStatus.failed CandidateStatus.pending h = cc
status_eq-true CandidateStatus.failed CandidateStatus.processing h = cc
status_eq-true CandidateStatus.failed CandidateStatus.done h = cc
status_eq-true CandidateStatus.failed CandidateStatus.failed h = refl

status_eq_self : (a : CandidateStatus) → status_eq a a ≡ true
status_eq_self CandidateStatus.pending = refl
status_eq_self CandidateStatus.processing = refl
status_eq_self CandidateStatus.done = refl
status_eq_self CandidateStatus.failed = refl

count_of-bump :
    (st a : CandidateStatus) (counts : Counts)
    → count_of st (bump a counts)
      ≡ (if status_eq a st then suc (count_of st counts) else count_of st counts)
count_of-bump st a [] = refl
count_of-bump st a ((t, n) ∷ counts) = ground (
  arith,
  status_eq-true t a,
  status_eq-true t st,
  status_eq-true a st,
  status_eq_self a,
  status_eq_self st,
  status_eq_self t,
  count_of-bump st a counts,
)

-- Grouping loses no row.
sum_of-status_counts : (cs : List Candidate) → sum_of (status_counts cs) ≡ length cs
unfolding status_counts
sum_of-status_counts [] = refl
sum_of-status_counts (c ∷ cs) =
    sum_of-bump c.status (status_counts cs) ∙ ap suc (sum_of-status_counts cs)

abbrev pub in_status : CandidateStatus → Candidate → Bool
in_status st c = status_eq c.status st

count_of-status_counts :
    (st : CandidateStatus) (cs : List Candidate)
    → count_of st (status_counts cs) ≡ count_where (in_status st) cs
unfolding status_counts
count_of-status_counts st [] = refl
count_of-status_counts st (c ∷ cs) =
    ground (arith, count_of-bump st c.status (status_counts cs), count_of-status_counts st cs)

count_where-select_where :
    (p q : Candidate → Bool) (cs : List Candidate)
    → count_where q (select_where p cs) ≡ count_where (λ c. p c && q c) cs
count_where-select_where p q [] = refl
count_where-select_where p q (c ∷ cs) = ground (arith, count_where-select_where p q cs)

abbrev digit : Bool → ℕ
digit b = if b then 1 else 0

one_status :
    (st : CandidateStatus)
    → digit (status_eq st CandidateStatus.pending)
        + digit (status_eq st CandidateStatus.processing)
        + digit (status_eq st CandidateStatus.done)
        + digit (status_eq st CandidateStatus.failed)
      ≡ 1
one_status CandidateStatus.pending = omega arith
one_status CandidateStatus.processing = omega arith
one_status CandidateStatus.done = omega arith
one_status CandidateStatus.failed = omega arith

-- Each row of the job stands in exactly one of the four counts.
four_statuses :
    (cs : List Candidate)
    → count_where (in_status CandidateStatus.pending) cs
        + count_where (in_status CandidateStatus.processing) cs
        + count_where (in_status CandidateStatus.done) cs
        + count_where (in_status CandidateStatus.failed) cs
      ≡ length cs
four_statuses [] = omega arith
four_statuses (c ∷ cs) = ground (arith, one_status c.status, four_statuses cs)

abbrev counted : ℕ → CandidateStatus → System → ℕ
counted job_id st s = count_where (λ c. of_job job_id c && in_status st c) s.candidates

pub record Counted (job_id : ℕ) (s : System) (p : JobProgress) : Type 0 where
  pub pending : p.pending ≡ counted job_id CandidateStatus.pending s
  pub processing : p.processing ≡ counted job_id CandidateStatus.processing s
  pub done : p.done ≡ counted job_id CandidateStatus.done s
  pub failed : p.failed ≡ counted job_id CandidateStatus.failed s
  pub total : p.total ≡ count_where (of_job job_id) s.candidates
  pub adds_up : p.pending + p.processing + p.done + p.failed ≡ p.total

abbrev pub Outcome : ℕ → System → Result JobProgress × System → Type 0
Outcome job_id s (ok p, s') = Counted job_id s p × (s' ≡ s)
Outcome job_id s (err e, s') = s' ≡ s

progress-Counted : (job_id : ℕ) (s : System) → Counted job_id s (progress job_id s)
progress-Counted job_id s =
    let rows = select_where (of_job job_id) s.candidates in
    let each = λ (st : CandidateStatus).
      count_of-status_counts st rows
      ∙ count_where-select_where (of_job job_id) (in_status st) s.candidates in
    record {
      pending = each CandidateStatus.pending;
      processing = each CandidateStatus.processing;
      done = each CandidateStatus.done;
      failed = each CandidateStatus.failed;
      total = sum_of-status_counts rows ∙ length-select_where (of_job job_id) s.candidates;
      adds_up = omega (
        arith,
        four_statuses rows,
        sum_of-status_counts rows,
        count_of-status_counts CandidateStatus.pending rows,
        count_of-status_counts CandidateStatus.processing rows,
        count_of-status_counts CandidateStatus.done rows,
        count_of-status_counts CandidateStatus.failed rows,
      );
    }

-- The progress of a job is refused, or has the number of the job's candidates in each status and in
-- all, and the four numbers add up to the total; it changes nothing.
pub job_progress-Outcome :
    (job_id : ℕ) (user : User) (s : System) → Outcome job_id s (job_progress job_id user s)
unfolding job_progress
job_progress-Outcome job_id user s =
    elim (ran (get_owned_job job_id user) (λ _. gets (progress job_id)) s
      (Reads-get_owned_job job_id user)) [
        | raised e _ out ↦ rw out refl
        | went_on _ _ out ↦ rw out (progress-Counted job_id s, refl)
      ]
