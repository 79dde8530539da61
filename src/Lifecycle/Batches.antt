-- ===== src/Lifecycle/Batches.antt =====
-- app/api/ingest.py: cancellation, bulk retry and uploads, on the board.
use right_hire.Base.{
  ℕ, ◌≡◌, refl, ap, sym, ◌∙◌, inl, inr, Bool, true, ◌&&◌, some, List, [], ◌∷◌, map, arith, mem,
  Distinct, Bool-cases, Option-cases, is_empty, first_where-All, first_where-update_where,
  mem-selected_keys, select_where, if◌then◌else◌,
}
use mathlib.Core.Option
use right_hire.Store.{User, Candidate, pending, failed, System, World, has_id, of_job}
use right_hire.Queue.Laws.{refused, mem-refused, enqueue_candidates_lem}
use right_hire.Jobs.{Reads-get_owned_job}
use right_hire.Candidates.{find_candidate, mark, has_resume}
use right_hire.Candidates.Retry.{
  is_failed, retryable, save_mark, requeue_failed, retry_failed_candidates,
}
use right_hire.Candidates.Cancel.{is_pending, pending_ids, cancel, cancel_pending_candidates}
use right_hire.Lifecycle.{Kind, retried, cancelled, board, Moves}
use right_hire.Lifecycle.Rows.{Moves-same, Moves-update}
use right_hire.Lifecycle.Routes.{Living, Living-bind, Move-at, status_eq_failed}

-- With distinct ids, a row whose id is among those of the selected rows is selected.
selected_row :
    (p : Candidate → Bool) (cs : List Candidate) (i : ℕ) (c : Candidate)
    → Distinct (map (λ c. c.id) cs)
    → find_candidate i cs ≡ some c
    → mem c.id (map (λ c. c.id) (select_where p cs)) ≡ true
    → p c ≡ true
selected_row p cs i c d found t =
    sym (
      first_where-All (λ r. mem r.id (map (λ c. c.id) (select_where p cs)) ≡ p r) (has_id i) cs c
        (mem-selected_keys (λ c. c.id) p cs d) found)
    ∙ t

pending_status :
    (job_id : ℕ) (c : Candidate) → (of_job job_id c && is_pending c) ≡ true → c.status ≡ pending
pending_status job_id c h = ground arith

module _ (w : World) (job_id : ℕ) (s : System) (d : Distinct (map (λ c. c.id) s.candidates)) where
  Living-cancel : Living Kind.cancel s (cancel w job_id)
  unfolding cancel
  Living-cancel = record {
    run =
        Moves-update Kind.cancel (λ c. mem c.id (pending_ids job_id s.candidates))
          (λ c. record c { status = failed; updated_at = w.now }) s.candidates (λ c. refl)
          (λ i c found t.
            Move-at Kind.cancel
              (pending_status job_id c
                (selected_row (λ c. of_job job_id c && is_pending c) s.candidates i c d found t))
              refl cancelled);
  }

  pub Living-cancel_pending_candidates :
      (user : User) → Living Kind.cancel s (cancel_pending_candidates w job_id user)
  unfolding cancel_pending_candidates
  Living-cancel_pending_candidates user =
      search (Living-bind, Reads-get_owned_job, Living-cancel) depth 8

-- Those of a selection that are selected again.
select_where_twice :
    (p q : Candidate → Bool) (cs : List Candidate)
    → select_where q (select_where p cs) ≡ select_where (λ c. p c && q c) cs
select_where_twice p q [] = refl
select_where_twice p q (c ∷ cs) = ground (arith, select_where_twice p q cs)

-- Rows of failed candidates are marked pending, and some of them failed again.
module _ (w : World) (cs : List Candidate) (l lost : List ℕ)
    (were : (i : ℕ) (c : Candidate)
      → find_candidate i cs ≡ some c
      → mem c.id l ≡ true
      → c.status ≡ failed)
    (among : (i : ℕ) → mem i lost ≡ true → mem i l ≡ true) where
  abbrev marked_again : List Candidate
  marked_again = mark w.now failed lost (mark w.now pending l cs)

  found_again :
      (i : ℕ)
      → find_candidate i marked_again
        ≡ Option.map
            (λ c. if mem c.id lost then record c { status = failed; updated_at = w.now } else c)
            (Option.map
              (λ c. if mem c.id l then record c { status = pending; updated_at = w.now } else c)
              (find_candidate i cs))
  found_again i =
      first_where-update_where (λ (c : Candidate). c.id) i (λ c. mem c.id lost)
        (λ c. record c { status = failed; updated_at = w.now }) (mark w.now pending l cs)
        (λ c. refl)
      ∙ ap
          (Option.map (λ (c : Candidate).
            if mem c.id lost then record c { status = failed; updated_at = w.now } else c))
          (first_where-update_where (λ (c : Candidate). c.id) i (λ c. mem c.id l)
            (λ c. record c { status = pending; updated_at = w.now }) cs (λ c. refl))

  Moves-again : Moves Kind.retry (board cs) (board marked_again)
  Moves-again i = elim (Option-cases (find_candidate i cs)) [
    | inl missing ↦ inl (ground (arith, found_again i))
    | inr (c, found) ↦ elim (Bool-cases (mem c.id l)) [
      | inl t ↦ elim (Bool-cases (mem c.id lost)) [
        | inl u ↦ inl (ground (arith, found_again i, were i c))
        | inr u ↦
            let before : board cs i ≡ some failed = ground (arith, were i c) in
            let after : board marked_again i ≡ some pending = ground (arith, found_again i) in
            inr (rw (before, after) retried)
      ]
      | inr t ↦ inl (ground (arith, found_again i, among c.id))
    ]
  ]

-- Each id of a candidate to be retried is that of a failed one.
retryable_were :
    (job_id : ℕ) (cs : List Candidate)
    → Distinct (map (λ c. c.id) cs)
    → (i : ℕ) (c : Candidate) → find_candidate i cs ≡ some c
    → mem c.id (map (λ c. c.id) (retryable job_id cs)) ≡ true
    → c.status ≡ failed
retryable_were job_id cs d i c found t =
    let p : Candidate → Bool = λ c. (of_job job_id c && is_failed c) && has_resume c in
    let selected : mem c.id (map (λ c. c.id) (select_where p cs)) ≡ true =
      ap (λ l. mem c.id (map (λ x. x.id) l))
        (sym (select_where_twice (λ c. of_job job_id c && is_failed c) has_resume cs))
      ∙ t in
    let both : p c ≡ true = selected_row p cs i c d found selected in
    status_eq_failed c (ground arith)

module _ (w : World) (job_id : ℕ) (s : System) (d : Distinct (map (λ c. c.id) s.candidates)) where
  Living-requeue_failed : Living Kind.retry s (requeue_failed w job_id)
  unfolding requeue_failed
  Living-requeue_failed =
      let l = map (λ c. c.id) (retryable job_id s.candidates) in
      elim (Bool-cases (is_empty l)) [
        | inl t ↦ record { run = rw t (Moves-same Kind.retry s.candidates) }
        | inr t ↦ record {
          run =
              rw (t, enqueue_candidates_lem w job_id l (save_mark w pending l s))
                (Moves-again w s.candidates l (refused w s.attempts l)
                  (retryable_were job_id s.candidates d) (λ i. mem-refused w s.attempts i l));
        }
      ]

  pub Living-retry_failed_candidates :
      (user : User) → Living Kind.retry s (retry_failed_candidates w job_id user)
  unfolding retry_failed_candidates
  Living-retry_failed_candidates user =
      search (Living-bind, Reads-get_owned_job, Living-requeue_failed) depth 8
