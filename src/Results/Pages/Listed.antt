-- ===== src/Results/Pages/Listed.antt =====
-- app/api/results.py: what a page and an export list.
use mathlib.Core.Path.{subst}
use right_hire.Base.{
  ℕ, suc, not, inl, inr, Bool-cases, count_where, ◌+◌, ◌≤◌, ◌≡◌, refl, ap, sym, ◌∙◌, Bool, true,
  false, arith, Option, List, [], ◌∷◌, ◌++◌, Text, All, All-take, All-drop, length, length-take_le,
  take, drop, take-add, drop-add, select_where, All-select_where_holds, if◌then◌else◌,
}
use right_hire.Store.{User, Job, Candidate, Failure, System, of_job}
use right_hire.Http.{Result, ok, err, gets}
use right_hire.Http.Reads.{raised, went_on, ran}
use right_hire.Jobs.{get_owned_job, Reads-get_owned_job, IsOwnedJob, get_owned_job-IsOwnedJob}
use right_hire.Results.{latest_evaluation}
use right_hire.Results.Pages.{
  IsOrder, CandidateWithEval, passes, listed, with_card, page, list_results,
}

module _ (shown : Failure → Text) (job : Job) (verdict : Option Text) (s : System) where
  pub listed-append :
      (xs ys : List Candidate)
      → listed shown job verdict s (xs ++ ys)
        ≡ listed shown job verdict s xs ++ listed shown job verdict s ys
  unfolding listed
  listed-append [] ys = refl
  listed-append (c ∷ xs) ys = ground (arith, listed-append xs ys)

  -- An entry of the list: a candidate of the job that passes the filter, with its latest evaluation.
  pub record IsEntry (x : CandidateWithEval) : Type 0 where
    pub in_job : of_job job.id x.candidate ≡ true
    pub passed : passes verdict (latest_evaluation x.candidate.id s.evaluations) ≡ true
    pub with_latest :
        x.evaluation ≡ with_card shown job s (latest_evaluation x.candidate.id s.evaluations)

  All-listed_if :
      (c : Candidate) (rest : List CandidateWithEval) (b : Bool)
      → of_job job.id c ≡ true
      → passes verdict (latest_evaluation c.id s.evaluations) ≡ b
      → All IsEntry rest
      → All IsEntry (
          if b
          then record {
            candidate = c;
            evaluation = with_card shown job s (latest_evaluation c.id s.evaluations);
          }
            ∷ rest
          else rest)
  All-listed_if c rest true own h k = (record { in_job = own; passed = h; with_latest = refl }, k)
  All-listed_if c rest false own h k = k

  listed-IsEntry :
      (cs : List Candidate)
      → All (λ c. of_job job.id c ≡ true) cs
      → All IsEntry (listed shown job verdict s cs)
  unfolding listed
  listed-IsEntry [] h = tt
  listed-IsEntry (c ∷ cs) h =
      All-listed_if c (listed shown job verdict s cs)
        (passes verdict (latest_evaluation c.id s.evaluations)) h.0 refl (listed-IsEntry cs h.1)

  length-listed_le : (cs : List Candidate) → length (listed shown job verdict s cs) ≤ length cs
  unfolding listed
  length-listed_le [] = omega arith
  length-listed_le (c ∷ cs) = ground (arith, length-listed_le cs)

-- What holds of all the rows holds of them in another order.
no_counterexample :
    (p : Candidate → Bool) (cs : List Candidate)
    → All (λ c. p c ≡ true) cs
    → count_where (λ c. not (p c)) cs ≡ 0
no_counterexample p [] h = refl
no_counterexample p (c ∷ cs) h = ground (arith, h.0, no_counterexample p cs h.1)

no_exception :
    (p : Candidate → Bool) (cs : List Candidate)
    → count_where (λ c. not (p c)) cs ≡ 0
    → All (λ c. p c ≡ true) cs
no_exception p [] h = tt
no_exception p (c ∷ cs) h = elim (Bool-cases (p c)) [
  | inl t ↦ (t, no_exception p cs (ground (arith, t)))
  | inr t ↦ absurd (ground (arith, t))
]

pub All-order :
    (order : List Candidate → List Candidate)
    → IsOrder order
    → (p : Candidate → Bool) (cs : List Candidate) → All (λ c. p c ≡ true) cs
    → All (λ c. p c ≡ true) (order cs)
All-order order any_order p cs h =
    no_exception p (order cs) (any_order (λ c. not (p c)) cs ∙ no_counterexample p cs h)

count_all : (cs : List Candidate) → count_where (λ c. true) cs ≡ length cs
count_all [] = refl
count_all (c ∷ cs) = ap suc (count_all cs)

pub length-order :
    (order : List Candidate → List Candidate)
    → IsOrder order
    → (cs : List Candidate) → length (order cs) ≡ length cs
length-order order any_order cs =
    sym (count_all (order cs)) ∙ any_order (λ c. true) cs ∙ count_all cs

module _ (shown : Failure → Text) (order : List Candidate → List Candidate) (job_id : ℕ)
    (verdict : Option Text) (user : User) (s : System) where
  abbrev pub entries : Job → (offset limit : ℕ) → List CandidateWithEval
  entries job offset limit = listed shown job verdict s (page shown order offset limit job s)

  abbrev pub entries_of : (offset limit : ℕ) → Result Job → Result (List CandidateWithEval)
  entries_of offset limit (ok job) = ok (entries job offset limit)
  entries_of offset limit (err e) = err e

  -- Whose page it is decides the check of the owner.
  pub list_results-entries :
      (offset limit : ℕ)
      → list_results shown order job_id verdict offset limit user s
        ≡ (entries_of offset limit (get_owned_job job_id user s).0, s)
  unfolding list_results
  list_results-entries offset limit =
      elim (ran (get_owned_job job_id user)
        (λ job. gets (λ s. listed shown job verdict s (page shown order offset limit job s))) s
        (Reads-get_owned_job job_id user)) [
          | raised e h out ↦ out ∙ ap (λ r. (entries_of offset limit r, s)) (sym h)
          | went_on job h out ↦ out ∙ ap (λ r. (entries_of offset limit r, s)) (sym h)
        ]

  entries-append :
      (job : Job) (offset m n : ℕ)
      → entries job offset (m + n) ≡ entries job offset m ++ entries job (offset + m) n
  entries-append job offset m n =
      let rows = order (select_where (of_job job.id) s.candidates) in
      ap (listed shown job verdict s) (take-add m n (drop offset rows))
      ∙ listed-append shown job verdict s (take m (drop offset rows))
          (take n (drop m (drop offset rows)))
      ∙ ap (λ l. entries job offset m ++ listed shown job verdict s (take n l))
          (sym (drop-add offset m rows))

  joined :
      (offset m n : ℕ) (r : Result Job) (xs ys : List CandidateWithEval)
      → entries_of offset m r ≡ ok xs
      → entries_of (offset + m) n r ≡ ok ys
      → entries_of offset (m + n) r ≡ ok (xs ++ ys)
  joined offset m n (ok job) xs ys h k = ground (arith, entries-append job offset m n)
  joined offset m n (err e) xs ys h k = absurd cc

  IsEntry-entries :
      IsOrder order
      → (job : Job) (offset limit : ℕ)
      → All (IsEntry shown job verdict s) (entries job offset limit)
  IsEntry-entries any_order job offset limit =
      let rows = order (select_where (of_job job.id) s.candidates) in
      listed-IsEntry shown job verdict s (page shown order offset limit job s) (
        All-take (λ c. of_job job.id c ≡ true) limit (drop offset rows)
          (All-drop (λ c. of_job job.id c ≡ true) offset rows
            (All-order order any_order (of_job job.id) (select_where (of_job job.id) s.candidates)
              (All-select_where_holds (of_job job.id) s.candidates))))

-- Where both requests meet the same order of the rows, two pages, one behind the other, are the page of
-- both lengths: no candidate is left out or listed twice, whatever the filter.
pub list_results-append :
    (shown : Failure → Text) (order : List Candidate → List Candidate) (job_id : ℕ)
    (verdict : Option Text) (offset m n : ℕ) (user : User) (s : System)
    (xs ys : List CandidateWithEval)
    → (list_results shown order job_id verdict offset m user s).0 ≡ ok xs
    → (list_results shown order job_id verdict (offset + m) n user s).0 ≡ ok ys
    → list_results shown order job_id verdict offset (m + n) user s ≡ (ok (xs ++ ys), s)
list_results-append shown order job_id verdict offset m n user s xs ys h k =
    let first = ap (λ p. p.0) (list_results-entries shown order job_id verdict user s offset m) in
    let second =
      ap (λ p. p.0) (list_results-entries shown order job_id verdict user s (offset + m) n) in
    list_results-entries shown order job_id verdict user s offset (m + n)
    ∙ ap (λ r. (r, s))
        (joined shown order job_id verdict user s offset m n (get_owned_job job_id user s).0 xs ys
          (sym first ∙ h) (sym second ∙ k))

-- What the request for a page answers with.
abbrev pub Listing :
    (Failure → Text)
    → ℕ
    → Option Text
    → ℕ
    → User
    → System
    → Result (List CandidateWithEval) × System
    → Type 0
Listing shown job_id verdict limit user s (ok xs, s') =
    (job : Job) × IsOwnedJob job_id user s job
    × All (IsEntry shown job verdict s) xs
    × (length xs ≤ limit)
    × (s' ≡ s)
Listing shown job_id verdict limit user s (err e, s') = s' ≡ s

module _ (shown : Failure → Text) (order : List Candidate → List Candidate) (job_id : ℕ)
    (verdict : Option Text) (user : User) (s : System) where
  entries_of-Listing :
      IsOrder order
      → (offset limit : ℕ) (r : Result Job) → (get_owned_job job_id user s).0 ≡ r
      → Listing shown job_id verdict limit user s
          (entries_of shown order job_id verdict user s offset limit r, s)
  entries_of-Listing any_order offset limit (err e) h = refl
  entries_of-Listing any_order offset limit (ok job) h =
      let rows = drop offset (order (select_where (of_job job.id) s.candidates)) in
      (
        job,
        get_owned_job-IsOwnedJob job_id user s h,
        IsEntry-entries shown order job_id verdict user s any_order job offset limit,
        omega (
          arith,
          length-listed_le shown job verdict s (take limit rows),
          length-take_le limit rows,
        ),
        refl,
      )

-- In whatever order the database gives the rows: a page is refused, or it lists at most as many entries as asked for, all of them candidates of the
-- user's own job that pass the filter on the verdict, each with its latest evaluation. Nothing changes.
pub list_results-Listing :
    (shown : Failure → Text) (order : List Candidate → List Candidate) (job_id : ℕ)
    (verdict : Option Text) (offset limit : ℕ) (user : User) (s : System)
    → IsOrder order
    → Listing shown job_id verdict limit user s
        (list_results shown order job_id verdict offset limit user s)
list_results-Listing shown order job_id verdict offset limit user s any_order =
    subst (Listing shown job_id verdict limit user s)
      (sym (list_results-entries shown order job_id verdict user s offset limit))
      (entries_of-Listing shown order job_id verdict user s any_order offset limit
        (get_owned_job job_id user s).0 refl)
