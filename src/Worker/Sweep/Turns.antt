-- ===== src/Worker/Sweep/Turns.antt =====
-- app/workers/tasks.py: the turns of the loop of `sweep_stale_candidates` together.
use right_hire.Base.{
  Option, ℕ, ◌+◌, ◌≡◌, refl, ◌∙◌, sym, inl, inr, true, false, List, [], ◌∷◌, ◌++◌, map, arith, ap,
  none, some, append_assoc, Parts, no_items, to_first, to_second, length, mem, ◌==◌, Bool-cases,
  count_where,
}
use mathlib.Core.Option
use right_hire.Config.{Settings}
use right_hire.Store.{Candidate, CandidateStatus, pending, failed, Evaluation, World}
use right_hire.Candidates.{find_candidate, find_candidate-update}
use right_hire.Worker.Sweep.{is_stale, Swept}
use right_hire.Worker.Sweep.Body.{task_of, GaveUp, Ends, is_requeued, has_failed, SweptOne}

-- One evaluation for each candidate, in order.
abbrev pub AllGaveUp : List Candidate → List Evaluation → Type 0
AllGaveUp [] [] = Unit
AllGaveUp [] (e ∷ es) = ⊥
AllGaveUp (c ∷ cs) [] = ⊥
AllGaveUp (c ∷ cs) (e ∷ es) = GaveUp c e × AllGaveUp cs es

-- The row with an id, when there is one, has a status.
abbrev pub HasStatus : CandidateStatus → ℕ → List Candidate → Type 0
HasStatus st i cs = (x : Candidate) → find_candidate i cs ≡ some x → x.status ≡ st

abbrev pub ids_of : List Candidate → List ℕ
ids_of cs = map (λ c. c.id) cs

Parts-mem :
    {cs requeued lost : List Candidate}
    → (i : ℕ) → Parts cs requeued lost
    → mem i (ids_of requeued) ≡ false
    → mem i (ids_of lost) ≡ false
    → mem i (ids_of cs) ≡ false
Parts-mem i no_items h k = refl
Parts-mem i (to_first p) h k = ground (arith, Parts-mem i p, h, k)
Parts-mem i (to_second p) h k = ground (arith, Parts-mem i p, h, k)

-- What the loop does over the rows `cs` that were loaded: each is requeued or given up.
pub record SweptAll (w : World) (conf : Settings) (cs : List Candidate) (r r' : Swept)
    : Type 0 where
  pub requeued : List Candidate
  pub lost : List Candidate
  pub reasons : List Evaluation
  pub parts : Parts cs requeued lost
  pub counted : (r'.requeued ≡ length requeued + r.requeued) × (r'.failed ≡ length lost + r.failed)
  pub sent : r'.after.queue ≡ r.after.queue ++ map task_of requeued
  pub explained : r'.after.evaluations ≡ r.after.evaluations ++ reasons
  pub each : AllGaveUp lost reasons
  -- A requeued row is pending again, and one that is lost has failed.
  pub are_pending :
      (i : ℕ)
      → mem i (ids_of requeued) ≡ true
      → mem i (ids_of lost) ≡ false
      → HasStatus pending i r'.after.candidates
  pub have_failed :
      (i : ℕ)
      → mem i (ids_of lost) ≡ true
      → mem i (ids_of requeued) ≡ false
      → HasStatus failed i r'.after.candidates
  -- The rows that were not loaded stay.
  pub others :
      (i : ℕ)
      → mem i (ids_of cs) ≡ false
      → find_candidate i r'.after.candidates ≡ find_candidate i r.after.candidates
  pub none_stale : count_where (is_stale w conf) r'.after.candidates ≡ 0
  pub users : r'.after.users ≡ r.after.users
  pub jobs : r'.after.jobs ≡ r.after.jobs

changed_status :
    (f : Candidate → Candidate) (st : CandidateStatus)
    → ((x : Candidate) → (f x).status ≡ st)
    → (o : Option Candidate) (x : Candidate) → Option.map f o ≡ some x
    → x.status ≡ st
changed_status f st becomes none x h = ground (arith, h)
changed_status f st becomes (some y) x h =
    sym (ap (λ (o : Option Candidate). elim o [ none ↦ st | some z ↦ z.status ]) h) ∙ becomes y

module _ (w : World) (conf : Settings) (c : Candidate) (cs : List Candidate) (r r' r'' : Swept)
    (one : SweptOne w conf c r r') where
  others_after :
      (i : ℕ)
      → mem i (ids_of (c ∷ cs)) ≡ false
      → ((k : ℕ)
          → mem k (ids_of cs) ≡ false
          → find_candidate k r''.after.candidates ≡ find_candidate k r'.after.candidates)
      → find_candidate i r''.after.candidates ≡ find_candidate i r.after.candidates
  others_after i h rest =
      let other : (i == c.id) ≡ false = ground (arith, h) in
      let later : mem i (ids_of cs) ≡ false = ground (arith, h) in
      rest i later
      ∙ ap (find_candidate i) one.candidates
      ∙ find_candidate-update c.id i one.change r.after.candidates one.keeps
      ∙ rw other refl

  -- The row of the body keeps its status when no later body has its id.
  status_after :
      (st : CandidateStatus)
      → ((x : Candidate) → (one.change x).status ≡ st)
      → (i : ℕ) → (i == c.id) ≡ true
      → find_candidate i r''.after.candidates ≡ find_candidate i r'.after.candidates
      → HasStatus st i r''.after.candidates
  status_after st becomes i same later x h =
      changed_status one.change st becomes (find_candidate i r.after.candidates) x (
        sym (
          later
          ∙ ap (find_candidate i) one.candidates
          ∙ find_candidate-update c.id i one.change r.after.candidates one.keeps
          ∙ rw same refl)
        ∙ h)

  -- The row of the body, or one of a later body.
  statuses_after :
      (st : CandidateStatus) (mine others : List Candidate)
      → ((x : Candidate) → (one.change x).status ≡ st)
      → (i : ℕ)
      → ((k : ℕ)
          → mem k (ids_of mine) ≡ false
          → mem k (ids_of others) ≡ false
          → find_candidate k r''.after.candidates ≡ find_candidate k r'.after.candidates)
      → ((k : ℕ)
          → mem k (ids_of mine) ≡ true
          → mem k (ids_of others) ≡ false
          → HasStatus st k r''.after.candidates)
      → mem i (ids_of (c ∷ mine)) ≡ true
      → mem i (ids_of others) ≡ false
      → HasStatus st i r''.after.candidates
  statuses_after st mine others becomes i stays rest h k = elim (Bool-cases (mem i (ids_of mine))) [
    | inl t ↦ rest i t k
    | inr t ↦ status_after st becomes i (ground (arith, h, t)) (stays i t k)
  ]

  -- The body, and then the rest of the loop.
  pub joined : Ends c one.change r r' → SweptAll w conf cs r' r'' → SweptAll w conf (c ∷ cs) r r''
  joined (is_requeued b n m q e) rest = record {
    requeued = c ∷ rest.requeued;
    lost = rest.lost;
    reasons = rest.reasons;
    parts = to_first rest.parts;
    counted = (omega (arith, rest.counted.0, n), omega (arith, rest.counted.1, m));
    sent =
        rest.sent
        ∙ ap (λ l. l ++ map task_of rest.requeued) q
        ∙ append_assoc r.after.queue (task_of c ∷ []) (map task_of rest.requeued);
    explained = rest.explained ∙ ap (λ l. l ++ rest.reasons) e;
    each = rest.each;
    are_pending = λ i h k.
        statuses_after pending rest.requeued rest.lost b i
          (λ j t u. rest.others j (Parts-mem j rest.parts t u)) rest.are_pending h k;
    have_failed = λ i h k. rest.have_failed i h (ground (arith, k));
    others = λ i h. others_after i h rest.others;
    none_stale = rest.none_stale;
    users = rest.users ∙ one.users;
    jobs = rest.jobs ∙ one.jobs;
  }
  joined (has_failed x b why n m q e) rest = record {
    requeued = rest.requeued;
    lost = c ∷ rest.lost;
    reasons = x ∷ rest.reasons;
    parts = to_second rest.parts;
    counted = (omega (arith, rest.counted.0, n), omega (arith, rest.counted.1, m));
    sent = rest.sent ∙ ap (λ l. l ++ map task_of rest.requeued) q;
    explained =
        rest.explained
        ∙ ap (λ l. l ++ rest.reasons) e
        ∙ append_assoc r.after.evaluations (x ∷ []) rest.reasons;
    each = (why, rest.each);
    are_pending = λ i h k. rest.are_pending i h (ground (arith, k));
    have_failed = λ i h k.
        statuses_after failed rest.lost rest.requeued b i
          (λ j t u. rest.others j (Parts-mem j rest.parts u t)) rest.have_failed h k;
    others = λ i h. others_after i h rest.others;
    none_stale = rest.none_stale;
    users = rest.users ∙ one.users;
    jobs = rest.jobs ∙ one.jobs;
  }
