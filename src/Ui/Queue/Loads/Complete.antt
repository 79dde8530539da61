-- ===== src/Ui/Queue/Loads/Complete.antt =====
-- The pages that the results page loads, one after the other, over the API's own pages.
use native.Mathlib.Nat.{zero-add}
use right_hire.Base.{
  ℕ, zero, suc, ◌+◌, ◌≤◌, ◌<◌, ◌≡◌, refl, sym, ap, ◌∙◌, ◌⊎◌, inl, inr, true, false, ◌&&◌, none,
  some, List, [], ◌∷◌, ◌++◌, Text, text, arith, take, drop, length, length-append,
  length-select_where, count_where, All, All-append, All-take, All-drop, All-select_where_holds,
  leb, ◌==◌, Bool-cases, select_where,
}
use right_hire.Store.{User, Job, Candidate, Failure, System, of_job}
use right_hire.Http.{ok}
use right_hire.Jobs.{get_owned_job}
use right_hire.Results.Pages.{IsOrder, CandidateWithEval, listed}
use right_hire.Results.Pages.Listed.{list_results-entries, All-order, length-order}
use right_hire.Ui.{answered}
use right_hire.Ui.Queue.{ResultsState}
use right_hire.Ui.Queue.Loads.{Server, route, reset, load_results, load_more}

-- How long a page is: it is full, or it is the last.
full_or_last :
    {A : Type 0} (o n : ℕ) (xs : List A)
    → o ≤ length xs
    → (length (take n (drop o xs)) + o ≤ length xs)
      × ((length (take n (drop o xs)) == n) ≡ false → length (take n (drop o xs)) + o ≡ length xs)
full_or_last zero zero xs h = (omega arith, λ e. absurd (ground arith))
full_or_last zero (suc n) [] h = (omega arith, λ e. omega arith)
full_or_last zero (suc n) (x ∷ xs) h =
    let rest = full_or_last zero n xs (omega arith) in
    (omega (arith, rest.0), λ e. omega (arith, rest.1 (ground (arith, e))))
full_or_last (suc o) n [] h = absurd (omega arith)
full_or_last (suc o) n (x ∷ xs) h =
    let rest = full_or_last o n xs (omega arith) in
    (omega (arith, rest.0), λ e. omega (arith, rest.1 e))

-- Loading more, again and again.
abbrev pub load_more_times : ℕ → Server → ResultsState → ResultsState
load_more_times zero server st = st
load_more_times (suc n) server st = (load_more server (load_more_times n server st)).0

module _ (shown : Failure → Text) (order : ℕ → List Candidate → List Candidate)
    (any_order : (offset : ℕ) → IsOrder (order offset)) (detail : ℕ → Text) (user : User)
    (s : System) (job_id : ℕ) (job : Job) where
  abbrev rows : List Candidate
  rows = select_where (of_job job.id) s.candidates

  abbrev IsOwn : CandidateWithEval → Type 0
  IsOwn x = of_job job.id x.candidate ≡ true

  -- The entries of a page.
  abbrev page_at : (offset limit : ℕ) → List CandidateWithEval
  page_at offset limit = listed shown job none s (take limit (drop offset (order offset rows)))

  length-listed : (cs : List Candidate) → length (listed shown job none s cs) ≡ length cs
  unfolding listed
  length-listed [] = refl
  length-listed (c ∷ cs) = ap suc (length-listed cs)

  IsOwn-listed :
      (cs : List Candidate)
      → All (λ c. of_job job.id c ≡ true) cs
      → All IsOwn (listed shown job none s cs)
  unfolding listed
  IsOwn-listed [] h = tt
  IsOwn-listed (c ∷ cs) h = (h.0, IsOwn-listed cs h.1)

  IsOwn-page_at : (offset limit : ℕ) → All IsOwn (page_at offset limit)
  IsOwn-page_at offset limit = IsOwn-listed (take limit (drop offset (order offset rows))) (
      All-take (λ c. of_job job.id c ≡ true) limit (drop offset (order offset rows))
        (All-drop (λ c. of_job job.id c ≡ true) offset (order offset rows)
          (All-order (order offset) (any_order offset) (of_job job.id) rows
            (All-select_where_holds (of_job job.id) s.candidates))))

  length-page_at :
      (offset limit : ℕ)
      → offset ≤ length rows
      → (length (page_at offset limit) + offset ≤ length rows)
        × ((length (page_at offset limit) == limit) ≡ false
            → length (page_at offset limit) + offset ≡ length rows)
  length-page_at offset limit h =
      rw
        (
          length-listed (take limit (drop offset (order offset rows))),
          sym (length-order (order offset) (any_order offset) rows),
        )
        (full_or_last offset limit (order offset rows)
          (rw (length-order (order offset) (any_order offset) rows) h))

  -- What the API answers to a page.
  answered_page :
      (offset limit : ℕ)
      → (get_owned_job job_id user s).0 ≡ ok job
      → (leb 1 limit && leb limit 200) ≡ true
      → route shown order detail user s job_id none offset limit ≡ answered (page_at offset limit)
  unfolding route
  answered_page offset limit own within =
      rw
        (
          route,
          within,
          list_results-entries shown (order offset) job_id none user s offset limit,
          own,
        )
        refl

  -- The pages that have been loaded, and how many.
  record IsLoading (st : ResultsState) : Type 0 where
    same_job : st.selected_job_id ≡ some job_id
    same_filter : st.verdict_filter ≡ text "All"
    page_within : (leb 1 st.page_size && leb st.page_size 200) ≡ true
    counted : st.offset ≡ length st.results
    within : st.offset ≤ length rows
    own_rows : All IsOwn st.results
    ended : st.has_more ≡ false → st.offset ≡ length rows

  abbrev next : ResultsState → List CandidateWithEval
  next st = page_at st.offset st.page_size

  abbrev with_page : ResultsState → ResultsState
  with_page st = record st {
    results = st.results ++ next st;
    offset = st.offset + length (next st);
    has_more = length (next st) == st.page_size;
  }

  IsLoading-with_page :
      (st : ResultsState)
      → st.selected_job_id ≡ some job_id
      → st.verdict_filter ≡ text "All"
      → (leb 1 st.page_size && leb st.page_size 200) ≡ true
      → st.offset ≡ length st.results
      → st.offset ≤ length rows
      → All IsOwn st.results
      → IsLoading (with_page st)
  IsLoading-with_page st j f w c h o = record {
    same_job = j;
    same_filter = f;
    page_within = w;
    counted = ap (λ n. n + length (next st)) c ∙ sym (length-append st.results (next st));
    within = omega (arith, (length-page_at st.offset st.page_size h).0);
    own_rows = All-append IsOwn st.results (next st) o (IsOwn-page_at st.offset st.page_size);
    ended = λ e. omega (arith, (length-page_at st.offset st.page_size h).1 e);
  }

  module _ (own : (get_owned_job job_id user s).0 ≡ ok job) where
    abbrev server : Server
    server = route shown order detail user s

    load_more-page :
        (st : ResultsState)
        → IsLoading st
        → st.has_more ≡ true
        → (load_more server st).0 ≡ with_page st
    unfolding load_more
    load_more-page st h m = simp (
      load_more,
      h.same_job,
      m,
      h.same_filter,
      answered_page st.offset st.page_size own h.page_within,
    )

    load_more-stopped :
        (st : ResultsState) → IsLoading st → st.has_more ≡ false → (load_more server st).0 ≡ st
    unfolding load_more
    load_more-stopped st h m = simp (load_more, h.same_job, m)

    IsLoading-load_more : (st : ResultsState) → IsLoading st → IsLoading (load_more server st).0
    IsLoading-load_more st h = elim (Bool-cases st.has_more) [
      | inl m ↦ rw (load_more-page st h m) (
          IsLoading-with_page st h.same_job h.same_filter h.page_within h.counted h.within
            h.own_rows)
      | inr m ↦ rw (load_more-stopped st h m) h
    ]

    -- Every load brings the end nearer.
    abbrev IsFar : ℕ → ResultsState → Type 0
    IsFar n st = (st.has_more ≡ false) ⊎ (n < st.offset)

    IsFar-load_more :
        (n : ℕ) (st : ResultsState)
        → IsLoading st
        → IsFar n st
        → IsFar (suc n) (load_more server st).0
    IsFar-load_more n st h far = elim (Bool-cases st.has_more) [
      | inr m ↦ rw (load_more-stopped st h m) (inl m)
      | inl m ↦ elim (Bool-cases (length (next st) == st.page_size)) [
        | inr short ↦ rw (load_more-page st h m) (inl short)
        | inl full ↦ rw (load_more-page st h m) (inr (ground (arith, far, h.page_within, full)))
      ]
    ]

    abbrev start : ResultsState → ResultsState
    start st = record (reset st) { has_loaded = true }

    module _ (st : ResultsState) (j : st.selected_job_id ≡ some job_id)
        (f : st.verdict_filter ≡ text "All")
        (w : (leb 1 st.page_size && leb st.page_size 200) ≡ true) where
      load_results-page : (load_results server st).0 ≡ with_page (start st)
      unfolding load_results
      load_results-page = simp (load_results, j, f, answered_page 0 st.page_size own w, zero-add)

      IsLoading-load_results : IsLoading (load_results server st).0
      IsLoading-load_results =
          rw load_results-page (IsLoading-with_page (start st) j f w refl (omega arith) tt)

      IsFar-load_results : IsFar 0 (load_results server st).0
      IsFar-load_results = elim (Bool-cases (length (next (start st)) == st.page_size)) [
        | inr short ↦ rw load_results-page (inl short)
        | inl full ↦ rw load_results-page (inr (ground (arith, w, full)))
      ]

      IsLoading-load_more_times :
          (n : ℕ)
          → IsLoading (load_more_times n server (load_results server st).0)
            × IsFar n (load_more_times n server (load_results server st).0)
      IsLoading-load_more_times zero = (IsLoading-load_results, IsFar-load_results)
      IsLoading-load_more_times (suc n) =
          let before = IsLoading-load_more_times n in
          let st' = load_more_times n server (load_results server st).0 in
          (IsLoading-load_more st' before.0, IsFar-load_more n st' before.0 before.1)

    stopped :
        (n : ℕ) (st : ResultsState)
        → length rows ≤ n
        → IsLoading st
        → IsFar n st
        → st.has_more ≡ false
    stopped n st enough h (inl m) = m
    stopped n st enough h (inr past) = absurd (omega (arith, h.within, past, enough))

-- For a job of the user's own, with all verdicts asked for and a page size that the API allows, while
-- the data stays as it is, and in whatever order the database gives the rows to each request: after the
-- first page, and as many requests for more as the job has candidates, or fewer where no more are
-- offered, the page offers no more, and it lists as many entries as the job has candidates, each a
-- candidate of the job.
pub load_more_times_complete :
    (shown : Failure → Text) (order : ℕ → List Candidate → List Candidate) (detail : ℕ → Text)
    (user : User) (s : System) (job_id n : ℕ) (job : Job) (st : ResultsState)
    → ((offset : ℕ) → IsOrder (order offset))
    → (get_owned_job job_id user s).0 ≡ ok job
    → st.selected_job_id ≡ some job_id
    → st.verdict_filter ≡ text "All"
    → (leb 1 st.page_size && leb st.page_size 200) ≡ true
    → length (select_where (of_job job.id) s.candidates) ≤ n
    → (let api = route shown order detail user s in
        let st' = load_more_times n api (load_results api st).0 in
        (st'.has_more ≡ false)
        × (length st'.results ≡ count_where (of_job job.id) s.candidates)
        × All (λ x. of_job job.id x.candidate ≡ true) st'.results)
load_more_times_complete shown order detail user s job_id n job st any_order own j f w enough =
    let api = route shown order detail user s in
    let st' = load_more_times n api (load_results api st).0 in
    let all =
      IsLoading-load_more_times shown order any_order detail user s job_id job own st j f w n in
    let m = stopped shown order any_order detail user s job_id job own n st' enough all.0 all.1 in
    (
      m,
      sym all.0.counted ∙ all.0.ended m ∙ length-select_where (of_job job.id) s.candidates,
      all.0.own_rows,
    )
