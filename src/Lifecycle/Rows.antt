-- ===== src/Lifecycle/Rows.antt =====
-- The board after the statements that the program issues on the table of candidates.
use right_hire.Base.{
  ℕ, ◌≡◌, refl, inl, inr, Bool, true, none, some, List, map, arith, Distinct, Bool-cases,
  Option-cases, first_where-update_where, first_where-delete_where, delete_where, update_where,
}
use right_hire.Store.{Candidate}
use right_hire.Candidates.{find_candidate}
use right_hire.Lifecycle.{Kind, Move, remove, removed, board, Moves}

pub Moves-same : (k : Kind) (cs : List Candidate) → Moves k (board cs) (board cs)
Moves-same k cs i = inl refl

-- An update that leaves the status of every row.
pub Moves-update_same :
    (k : Kind) (p : Candidate → Bool) (f : Candidate → Candidate) (cs : List Candidate)
    → ((c : Candidate) → (f c).id ≡ c.id)
    → ((c : Candidate) → (f c).status ≡ c.status)
    → Moves k (board cs) (board (update_where p f cs))
Moves-update_same k p f cs ids same i = elim (Option-cases (find_candidate i cs)) [
  | inl none_there ↦
      inl (ground (arith, first_where-update_where (λ (c : Candidate). c.id) i p f cs ids))
  | inr (c, found) ↦
      inl (ground (arith, first_where-update_where (λ (c : Candidate). c.id) i p f cs ids, same c))
]

-- An update: each row that it selects makes a move.
pub Moves-update :
    (k : Kind) (p : Candidate → Bool) (f : Candidate → Candidate) (cs : List Candidate)
    → ((c : Candidate) → (f c).id ≡ c.id)
    → ((i : ℕ) (c : Candidate)
        → find_candidate i cs ≡ some c
        → p c ≡ true
        → Move k (some c.status) (some (f c).status))
    → Moves k (board cs) (board (update_where p f cs))
Moves-update k p f cs ids moves i = elim (Option-cases (find_candidate i cs)) [
  | inl missing ↦
      inl (ground (arith, first_where-update_where (λ (c : Candidate). c.id) i p f cs ids))
  | inr (c, found) ↦ elim (Bool-cases (p c)) [
    | inl t ↦
        let before : board cs i ≡ some c.status = ground arith in
        let after : board (update_where p f cs) i ≡ some (f c).status =
          ground (arith, first_where-update_where (λ (c : Candidate). c.id) i p f cs ids) in
        inr (rw (before, after) (moves i c found t))
    | inr t ↦ inl (ground (arith, first_where-update_where (λ (c : Candidate). c.id) i p f cs ids))
  ]
]

pub Moves-delete :
    (p : Candidate → Bool) (cs : List Candidate)
    → Distinct (map (λ c. c.id) cs)
    → Moves remove (board cs) (board (delete_where p cs))
Moves-delete p cs d i = elim (Option-cases (find_candidate i cs)) [
  | inl missing ↦ inl (ground (arith, first_where-delete_where (λ (c : Candidate). c.id) i p cs d))
  | inr (c, found) ↦ elim (Bool-cases (p c)) [
    | inl t ↦
        let before : board cs i ≡ some c.status = ground arith in
        let after : board (delete_where p cs) i ≡ none =
          ground (arith, first_where-delete_where (λ (c : Candidate). c.id) i p cs d) in
        inr (rw (before, after) (removed c.status))
    | inr t ↦ inl (ground (arith, first_where-delete_where (λ (c : Candidate). c.id) i p cs d))
  ]
]
