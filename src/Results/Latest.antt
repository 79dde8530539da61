-- ===== src/Results/Latest.antt =====
-- app/api/results.py: which evaluation is shown for a candidate.
use mathlib.Core.Path.{subst}
use right_hire.Base.{
  ℕ, ◌≡◌, ◌≢◌, refl, sym, Bool, true, false, Option, none, some, List, [], ◌∷◌, inl, inr, arith,
  All, All-map_imp, All-both, All-select_where, All-IsAmong, IsAmong, ==_iff, if◌then◌else◌,
  Bool-cases, select_where, select_where-All, All-select_where_holds,
}
use right_hire.Store.{Evaluation}
use right_hire.Results.{is_newer, newest, newer_of, of_candidate, latest_evaluation}

-- Not to be newer is an order.
is_newer_trans :
    (e f g : Evaluation) → is_newer f e ≡ false → is_newer g f ≡ false → is_newer g e ≡ false
is_newer_trans e f g h k = ground (arith, h, k)

is_newer_asym : (e f : Evaluation) → is_newer f e ≡ true → is_newer e f ≡ false
is_newer_asym e f h = ground (arith, h)

is_newer_self : (e : Evaluation) → is_newer e e ≡ false
is_newer_self e = ground arith

abbrev None : Evaluation → Type 0
None _ = ⊥

-- None is newer than the one that is picked; nothing is picked from nothing.
abbrev pub Newest : List Evaluation → Option Evaluation → Type 0
Newest es none = All None es
Newest es (some e) = All (λ f. is_newer f e ≡ false) es

newer_of_other : (e f : Evaluation) → is_newer f e ≡ true → newer_of e (some f) ≡ f
newer_of_other e f t = rw t refl

newer_of_first : (e f : Evaluation) → is_newer f e ≡ false → newer_of e (some f) ≡ e
newer_of_first e f t = rw t refl

newer_of-Newest :
    (e : Evaluation) (es : List Evaluation) (o : Option Evaluation)
    → Newest es o
    → Newest (e ∷ es) (some (newer_of e o))
newer_of-Newest e [] none h = (is_newer_self e, tt)
newer_of-Newest e (f ∷ es) none h = absurd h.0
newer_of-Newest e es (some f) h = elim (Bool-cases (is_newer f e)) [
  | inl t ↦
      subst (λ x. Newest (e ∷ es) (some x)) (sym (newer_of_other e f t)) (is_newer_asym e f t, h)
  | inr t ↦
      subst (λ x. Newest (e ∷ es) (some x)) (sym (newer_of_first e f t))
        (
          is_newer_self e,
          All-map_imp (λ g. is_newer g f ≡ false) (λ g. is_newer g e ≡ false) es
              (λ g k. is_newer_trans e f g t k) h,
        )
]

newest-Newest : (es : List Evaluation) → Newest es (newest es)
unfolding newest
newest-Newest [] = tt
newest-Newest (e ∷ es) = newer_of-Newest e es (newest es) (newest-Newest es)

-- One of the candidate's rows, and none of them is newer; or the candidate has no row.
abbrev pub LatestOf : ℕ → List Evaluation → Option Evaluation → Type 0
LatestOf i es none = All (λ e. of_candidate i e ≢ true) es
LatestOf i es (some e) =
    (e.candidate_id ≡ i)
    × IsAmong e es
    × All (λ f. of_candidate i f ≡ true → is_newer f e ≡ false) es

abbrev Picked : (Evaluation → Type 0) → Option Evaluation → Type 0
Picked P none = Unit
Picked P (some e) = P e

newer_of-Picked :
    (P : Evaluation → Type 0) (e : Evaluation) (o : Option Evaluation)
    → P e
    → Picked P o
    → P (newer_of e o)
newer_of-Picked P e none h k = h
newer_of-Picked P e (some f) h k = by_test (is_newer f e)
  where
    by_test : (b : Bool) → P (if b then f else e)
    by_test true = k
    by_test false = h

newest-Picked : (P : Evaluation → Type 0) (es : List Evaluation) → All P es → Picked P (newest es)
unfolding newest
newest-Picked P [] h = tt
newest-Picked P (e ∷ es) h = newer_of-Picked P e (newest es) h.0 (newest-Picked P es h.1)

Newest-LatestOf :
    (i : ℕ) (es : List Evaluation) (o : Option Evaluation)
    → Picked (λ e. (of_candidate i e ≡ true) × IsAmong e es) o
    → Newest (select_where (of_candidate i) es) o
    → LatestOf i es o
Newest-LatestOf i es none own h = select_where-All None (of_candidate i) es h
Newest-LatestOf i es (some e) own h = (
  (==_iff e.candidate_id i).0 own.0,
  own.1,
  select_where-All (λ f. is_newer f e ≡ false) (of_candidate i) es h,
)

-- The evaluation that is shown for a candidate is one of the stored rows, as it is stored, and the
-- candidate's; none of the candidate's was created later, or at the same time with a higher id. None
-- is shown only if there is none.
pub latest_evaluation-LatestOf :
    (i : ℕ) (es : List Evaluation) → LatestOf i es (latest_evaluation i es)
unfolding latest_evaluation
latest_evaluation-LatestOf i es =
    Newest-LatestOf i es (newest (select_where (of_candidate i) es))
      (newest-Picked (λ e. (of_candidate i e ≡ true) × IsAmong e es)
        (select_where (of_candidate i) es)
        (All-both (λ e. of_candidate i e ≡ true) (λ e. IsAmong e es)
          (select_where (of_candidate i) es) (All-select_where_holds (of_candidate i) es)
          (All-select_where (λ e. IsAmong e es) (of_candidate i) es (All-IsAmong es))))
      (newest-Newest (select_where (of_candidate i) es))
