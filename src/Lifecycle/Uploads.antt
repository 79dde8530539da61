-- ===== src/Lifecycle/Uploads.antt =====
-- app/api/ingest.py: `ingest_candidates`, on the board.
use right_hire.Base.{
  ℕ, suc, ◌≤◌, ◌≡◌, refl, ap, sym, ◌∙◌, inl, inr, true, false, none, some, List, [], ◌∷◌, ◌++◌, map,
  arith, mem, Bool-cases, Option-cases, All, first_where-All, first_where-append, first_where_holds,
  first_where-update_where, if◌then◌else◌, ◌==◌,
}
use mathlib.Core.Path.{subst}
use mathlib.Core.Option
use right_hire.Config.{Settings}
use right_hire.Store.{User, Candidate, pending, failed, System, World, has_id}
use right_hire.Http.Reads.{Reads-raise_if}
use right_hire.Queue.Laws.{All-refused}
use right_hire.Jobs.{Reads-get_owned_job}
use right_hire.Sheet.{Row}
use right_hire.Candidates.{find_candidate, mark}
use right_hire.Candidates.Batch.{Readers, Upload, new_candidates, store_batch, ingest_candidates}
use right_hire.Candidates.Batch.Billing.{
  Reads-read_sheet, added, ids, failed_ids, final, store_batch_lem,
}
use right_hire.Candidates.Batch.Placed.{All-pending}
use right_hire.Lifecycle.{Kind, queued, unsent, board, Moves}
use right_hire.Lifecycle.Routes.{Living, Living-bind}

-- No candidate has an id that is still to be drawn.
abbrev pub AreNew : World → System → Type 0
AreNew w s = (n : ℕ) → s.drawn ≤ n → find_candidate (w.uuid n) s.candidates ≡ none

All-at : (P : ℕ → Type 0) (i : ℕ) (l : List ℕ) → All P l → mem i l ≡ true → P i
All-at P i [] h t = absurd cc
All-at P i (x ∷ l) h t = elim (Bool-cases (x == i)) [
  | inl e ↦ let same : x ≡ i = ground arith in subst P same h.0
  | inr e ↦ All-at P i l h.1 (ground arith)
]

new_ids :
    (w : World) (rd : Readers) (job_id n : ℕ) (s : System) (rows : List Row)
    → AreNew w s
    → s.drawn ≤ n
    → All
        (λ i. find_candidate i s.candidates ≡ none)
        (map (λ c. c.id) (new_candidates w rd job_id n rows))
unfolding new_candidates
new_ids w rd job_id n s [] new h = tt
new_ids w rd job_id n s (row ∷ rows) new h =
    (new n h, new_ids w rd job_id (suc n) s rows new (omega arith))

-- Pending rows are added, and some of them marked failed.
module _ (now : ℕ) (cs new : List Candidate) (lost : List ℕ)
    (are_pending : All (λ c. c.status ≡ pending) new)
    (are_new : (i : ℕ) → mem i lost ≡ true → find_candidate i cs ≡ none) where
  abbrev stored : List Candidate
  stored = mark now failed lost (cs ++ new)

  found_stored :
      (i : ℕ)
      → find_candidate i stored
        ≡ Option.map
            (λ c. if mem c.id lost then record c { status = failed; updated_at = now } else c)
            (find_candidate i (cs ++ new))
  found_stored i =
      first_where-update_where (λ (c : Candidate). c.id) i (λ c. mem c.id lost)
        (λ c. record c { status = failed; updated_at = now }) (cs ++ new) (λ c. refl)

  old_row : (i : ℕ) (c : Candidate) → find_candidate i cs ≡ some c → mem c.id lost ≡ false
  old_row i c found = elim (Bool-cases (mem c.id lost)) [
    | inl t ↦
        let named : c.id ≡ i = ground (arith, first_where_holds (has_id i) cs c) in
        let gone : find_candidate i cs ≡ none =
          ap (λ k. find_candidate k cs) (sym named) ∙ are_new c.id t in
        absurd (ground arith)
    | inr t ↦ t
  ]

  Moves-stored : Moves Kind.upload (board cs) (board stored)
  Moves-stored i = elim (Option-cases (find_candidate i cs)) [
    | inr (c, found) ↦
        inl
          (ground (arith, found_stored i, first_where-append (has_id i) cs new, old_row i c found))
    | inl missing ↦ elim (Option-cases (find_candidate i new)) [
      | inl absent ↦ inl (ground (arith, found_stored i, first_where-append (has_id i) cs new))
      | inr (c, found) ↦
          let before : board cs i ≡ none = ground arith in
          let was : c.status ≡ pending =
            first_where-All (λ x. x.status ≡ pending) (has_id i) new c are_pending found in
          elim (Bool-cases (mem c.id lost)) [
            | inl t ↦
                let after : board stored i ≡ some failed =
                  ground (arith, found_stored i, first_where-append (has_id i) cs new) in
                inr (rw (before, after) unsent)
            | inr t ↦
                let after : board stored i ≡ some pending =
                  ground (arith, found_stored i, first_where-append (has_id i) cs new) in
                inr (rw (before, after) queued)
          ]
    ]
  ]

module _ (w : World) (rd : Readers) (job_id : ℕ) (user : User) (s : System) (new : AreNew w s) where
  final-Moves :
      (rows : List Row)
      → Moves Kind.upload (board s.candidates) (board (final w rd job_id user rows s).candidates)
  final-Moves rows =
      Moves-stored w.now s.candidates (added w rd job_id user rows s)
        (failed_ids w rd job_id user rows s) (All-pending w rd job_id s.drawn rows)
        (λ i.
          All-at (λ i. find_candidate i s.candidates ≡ none) i (failed_ids w rd job_id user rows s)
            (All-refused (λ i. find_candidate i s.candidates ≡ none) w s.attempts
              (ids w rd job_id user rows s) (new_ids w rd job_id s.drawn s rows new (omega arith))))

  Living-store_batch : (rows : List Row) → Living Kind.upload s (store_batch w rd job_id user rows)
  Living-store_batch rows = record {
    run =
        subst (λ p. Moves Kind.upload (board s.candidates) (board p.1.candidates))
          (sym (store_batch_lem w rd job_id user rows s)) (final-Moves rows);
  }

  pub Living-ingest_candidates :
      (conf : Settings) (file : Upload)
      → Living Kind.upload s (ingest_candidates w conf rd job_id file user)
  unfolding ingest_candidates
  Living-ingest_candidates conf file =
      search
        (Living-bind, Reads-get_owned_job, Reads-raise_if, Reads-read_sheet, Living-store_batch)
        depth 20
