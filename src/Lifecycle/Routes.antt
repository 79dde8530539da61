-- ===== src/Lifecycle/Routes.antt =====
-- app/api: what each route over single candidates, over a job's candidates and over jobs does to the
-- board.
use right_hire.Base.{
  ℕ, ◌≡◌, refl, ap, ◌∙◌, inl, inr, Bool, true, false, not, some, List, [], ◌∷◌, arith, ◌==◌,
  Bool-cases, is_empty, first_where_holds, update_where,
}
use right_hire.Store.{
  User, Candidate, CandidateStatus, pending, failed, System, World, has_id, set_status,
}
use right_hire.Http.{Handler, ok, raise_if, ◌>>=◌}
use right_hire.Http.Reads.{Reads, Reads-raise_if, related-bind}
use right_hire.Queue.{enqueue_candidates}
use right_hire.Candidates.{
  find_candidate, find_candidate-update, save_status, has_resume, IsOwned, get_owned_candidate,
  Reads-get_owned_candidate, get_owned_candidate-IsOwned,
}
use right_hire.Candidates.Retry.{is_failed, requeue, retry_candidate}
use right_hire.Linked.Requests.{id-set_status, db-enqueue_candidates}
use right_hire.Lifecycle.{Kind, Move, retried, board, Moves}
use right_hire.Lifecycle.Rows.{Moves-same, Moves-update}

-- A run of a handler from a state.
pub record Living (k : Kind) {A : Type 0} (s : System) (m : Handler A) : Type 0 where
  pub run : Moves k (board s.candidates) (board (m s).1.candidates)

pub Living-bind :
    (k : Kind) {A B : Type 0} (s : System) (m : Handler A) (f : A → Handler B)
    → Reads m
    → ((a : A) → (m s).0 ≡ ok a → Living k s (f a))
    → Living k s (m >>= f)
Living-bind k s m f h rest = record {
  run =
      related-bind (λ s s'. Moves k (board s.candidates) (board s'.candidates)) s m f
        (Moves-same k s.candidates) h (λ a from. (rest a from).run);
}

-- The board sees neither the queue nor the tables but the candidates'.
pub candidates-enqueue_candidates :
    (w : World) (job_id : ℕ) (ids : List ℕ) (s : System)
    → (enqueue_candidates w job_id ids s).after.candidates ≡ s.candidates
candidates-enqueue_candidates w job_id ids s =
    ap (λ d. d.candidates) (db-enqueue_candidates w job_id ids s)

pub status_eq_failed : (c : Candidate) → is_failed c ≡ true → c.status ≡ failed
status_eq_failed c h = ground arith

status-set_status :
    (now : ℕ) (st : CandidateStatus) (c : Candidate) → (set_status now st c).status ≡ st
status-set_status now st c = ground arith

-- Moves between statuses that are known by equations.
pub Move-at :
    (k : Kind) {a a' b b' : CandidateStatus}
    → a ≡ a'
    → b ≡ b'
    → Move k (some a') (some b')
    → Move k (some a) (some b)
Move-at k e e' m = rw (e, e') m

-- The row of a failed candidate that is queued again.
module _ (w : World) (c : Candidate) (cs : List Candidate) (found : find_candidate c.id cs ≡ some c)
    (was : c.status ≡ failed) where
  abbrev again : List Candidate
  again = update_where (has_id c.id) (set_status w.now pending) cs

  is_row :
      (i : ℕ) (x : Candidate)
      → find_candidate i cs ≡ some x
      → has_id c.id x ≡ true
      → x.status ≡ failed
  is_row i x h t =
      let named : x.id ≡ i = ground (arith, first_where_holds (has_id i) cs x) in
      let same : i ≡ c.id = ground arith in
      let there : find_candidate i cs ≡ some c = rw same found in ground arith

  retried-Moves : Moves Kind.retry (board cs) (board again)
  retried-Moves =
      Moves-update Kind.retry (has_id c.id) (set_status w.now pending) cs
        (id-set_status w.now pending)
        (λ i x h t. Move-at Kind.retry (is_row i x h t) (status-set_status w.now pending x) retried)

  abbrev lost : List Candidate
  lost = update_where (has_id c.id) (set_status w.now failed) again

  -- Failed, pending and failed again.
  lost_same : (i : ℕ) → board lost i ≡ board cs i
  lost_same i = elim (Bool-cases (i == c.id)) [
    | inl t ↦
        let named : i ≡ c.id = ground arith in
        let there : find_candidate i cs ≡ some c = rw named found in
        ground (
          arith,
          find_candidate-update c.id i (set_status w.now failed) again (id-set_status w.now failed),
          find_candidate-update c.id i (set_status w.now pending) cs (id-set_status w.now pending),
          status-set_status w.now failed (set_status w.now pending c),
        )
    | inr t ↦ ground (
      arith,
      find_candidate-update c.id i (set_status w.now failed) again (id-set_status w.now failed),
      find_candidate-update c.id i (set_status w.now pending) cs (id-set_status w.now pending),
    )
  ]

Living-requeue :
    (w : World) (job_id : ℕ) (s : System) (c : Candidate)
    → find_candidate c.id s.candidates ≡ some c
    → c.status ≡ failed
    → Living Kind.retry s (requeue w job_id c)
unfolding requeue
Living-requeue w job_id s c found was =
    let saved = save_status w c.id pending s in
    let sent = enqueue_candidates w job_id (c.id ∷ []) saved in
    let here = candidates-enqueue_candidates w job_id (c.id ∷ []) saved in
    elim (Bool-cases (is_empty sent.failed)) [
      | inl t ↦ record { run = rw (t, here) (retried-Moves w c s.candidates found was) }
      | inr t ↦ record { run = rw (t, here) (λ i. inl (lost_same w c s.candidates found was i)) }
    ]

raise_if_passes : (b : Bool) (e : ℕ) (s : System) → (raise_if b e s).0 ≡ ok tt → b ≡ false
raise_if_passes true e s h = ground arith
raise_if_passes false e s h = refl

pub owned_row :
    (job_id i : ℕ) (s : System) (c : Candidate)
    → IsOwned job_id i s c
    → find_candidate c.id s.candidates ≡ some c
owned_row job_id i s c o = ap (λ k. find_candidate k s.candidates) o.named ∙ o.found

pub Living-retry_candidate :
    (w : World) (job_id i : ℕ) (user : User) (s : System)
    → Living Kind.retry s (retry_candidate w job_id i user)
unfolding retry_candidate
Living-retry_candidate w job_id i user s =
    Living-bind Kind.retry s (get_owned_candidate job_id i user) _
      (Reads-get_owned_candidate job_id i user)
      (λ c owned.
        let o = get_owned_candidate-IsOwned job_id i user s owned in
        let there = owned_row job_id i s c o in
        Living-bind Kind.retry s (raise_if (not (is_failed c)) 400) _ (Reads-raise_if _ 400)
          (λ _ passed.
            Living-bind Kind.retry s (raise_if (not (has_resume c)) 400) (λ _. requeue w job_id c)
              (Reads-raise_if _ 400)
              (λ _ _. Living-requeue w job_id s c there (
                status_eq_failed c
                  (ground (arith, raise_if_passes (not (is_failed c)) 400 s passed))))))
