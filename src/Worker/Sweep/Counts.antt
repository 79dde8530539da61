-- ===== src/Worker/Sweep/Counts.antt =====
-- app/workers/tasks.py: counters, queue and rows after `sweep_stale_candidates`.
use right_hire.Base.{
  ℕ, ◌≡◌, refl, sym, inl, inr, true, false, List, [], ◌∷◌, map, arith, append-nil, no_items, mem,
  All, ◌==◌, All-selected_keys, Bool-cases, select_where, count_where, update_where,
}
use mathlib.Core.Path.{subst}
use right_hire.Config.{Settings}
use right_hire.Store.{Candidate, System, World, has_id}
use right_hire.Worker.Sweep.{is_stale, Swept, sweep_one, sweep_all, sweep_stale_candidates}
use right_hire.Worker.Sweep.Body.{sweep_one-SweptOne}
use right_hire.Worker.Sweep.Turns.{SweptAll, joined}

-- Each stale row of the table has its id in the list of those still to be seen to.
abbrev Covered : World → Settings → List ℕ → List Candidate → Type 0
Covered w conf ids cs = All (λ c. is_stale w conf c ≡ true → mem c.id ids ≡ true) cs

module _ (w : World) (conf : Settings) where
  Covered-update :
      (i : ℕ) (ids : List ℕ) (f : Candidate → Candidate) (cs : List Candidate)
      → ((c : Candidate) → is_stale w conf (f c) ≡ false)
      → Covered w conf (i ∷ ids) cs
      → Covered w conf ids (update_where (has_id i) f cs)
  Covered-update i ids f [] fresh h = tt
  Covered-update i ids f (c ∷ cs) fresh h = elim (Bool-cases (c.id == i)) [
    | inl t ↦ rw t (λ stale. ground (arith, fresh c), Covered-update i ids f cs fresh h.1)
    | inr t ↦ rw t (λ stale. ground (arith, h.0 stale), Covered-update i ids f cs fresh h.1)
  ]

  Covered-nil : (cs : List Candidate) → Covered w conf [] cs → count_where (is_stale w conf) cs ≡ 0
  Covered-nil [] h = refl
  Covered-nil (c ∷ cs) h = elim (Bool-cases (is_stale w conf c)) [
    | inl t ↦ ground (arith, h.0 t)
    | inr t ↦ rw t (Covered-nil cs h.1)
  ]

module _ (w : World) (conf : Settings) where
  sweep_all-SweptAll :
      (cs : List Candidate) (r : Swept)
      → Covered w conf (map (λ c. c.id) cs) r.after.candidates
      → SweptAll w conf cs r (sweep_all w conf cs r)
  unfolding sweep_all
  sweep_all-SweptAll [] r h = record {
    requeued = [];
    lost = [];
    reasons = [];
    parts = no_items;
    counted = (omega arith, omega arith);
    sent = sym (append-nil r.after.queue);
    explained = sym (append-nil r.after.evaluations);
    each = tt;
    are_pending = λ i h k. ground (arith, h);
    have_failed = λ i h k. ground (arith, h);
    others = λ i h. refl;
    none_stale = Covered-nil w conf r.after.candidates h;
    users = refl;
    jobs = refl;
  }
  sweep_all-SweptAll (c ∷ cs) r h =
      let one = sweep_one-SweptOne w conf c r in
      let ids = map (λ (x : Candidate). x.id) cs in
      let covered =
        subst (Covered w conf ids) (sym one.candidates)
          (Covered-update w conf c.id ids one.change r.after.candidates one.fresh h) in
      joined w conf c cs r (sweep_one w conf c r) (sweep_all w conf cs (sweep_one w conf c r)) one
        one.ends (sweep_all-SweptAll cs (sweep_one w conf c r) covered)

  nothing_to_sweep :
      (cs : List Candidate)
      → count_where (is_stale w conf) cs ≡ 0
      → select_where (is_stale w conf) cs ≡ []
  nothing_to_sweep [] h = refl
  nothing_to_sweep (c ∷ cs) h = ground (arith, nothing_to_sweep cs)

-- A sweep counts each stale candidate once, as requeued or as failed. It adds to the queue the task of
-- each that is requeued, with its id and job, and for each that fails an evaluation about it, in its
-- job and without a verdict. The row of an id that is only requeued is pending, and that of an id that
-- only fails has failed. No candidate stays stale, and neither the rows of others nor users nor jobs
-- change.
pub sweep_stale_candidates-SweptAll :
    (w : World) (conf : Settings) (s : System)
    → SweptAll w conf
        (select_where (is_stale w conf) s.candidates)
        (record { after = s; requeued = 0; failed = 0 })
        (sweep_stale_candidates w conf s)
unfolding sweep_stale_candidates
sweep_stale_candidates-SweptAll w conf s =
    sweep_all-SweptAll w conf (select_where (is_stale w conf) s.candidates)
      (record { after = s; requeued = 0; failed = 0 })
      (All-selected_keys (λ c. c.id) (is_stale w conf) s.candidates)

-- A second sweep at the same time changes nothing.
pub sweep_stale_candidates_again :
    (w : World) (conf : Settings) (s : System)
    → let s' = (sweep_stale_candidates w conf s).after in
      sweep_stale_candidates w conf s' ≡ record { after = s'; requeued = 0; failed = 0 }
unfolding sweep_stale_candidates sweep_all
sweep_stale_candidates_again w conf s =
    let s' = (sweep_stale_candidates w conf s).after in
    rw (nothing_to_sweep w conf s'.candidates (sweep_stale_candidates-SweptAll w conf s).none_stale)
      refl
