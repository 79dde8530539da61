-- ===== src/Results/Stats/Sorted.antt =====
-- app/api/results.py: what `sorted` does to the scores.
use mathlib.Core.Path.{subst, sym}
use right_hire.Base.{
  ℕ, zero, suc, ◌≤◌, ◌<◌, ◌≡◌, refl, true, false, inl, inr, arith, Bool-cases, some, List, [], ◌∷◌,
  length, get_elem?, All, All-map_imp,
}
use right_hire.Base.Rational.{Rational, leb_ℚ, leb_ℚ_trans, leb_ℚ_total, leb_ℚ_refl}
use right_hire.Results.Stats.{insert_score, sorted}

inserted_here :
    (a b : Rational) (s : List Rational) → leb_ℚ a b ≡ true → insert_score a (b ∷ s) ≡ a ∷ b ∷ s
inserted_here a b s t = ground (arith, t)

inserted_later :
    (a b : Rational) (s : List Rational)
    → leb_ℚ a b ≡ false
    → insert_score a (b ∷ s) ≡ b ∷ insert_score a s
inserted_later a b s t = ground (arith, t)

All-insert_score :
    (P : Rational → Type 0) (a : Rational) (s : List Rational)
    → P a
    → All P s
    → All P (insert_score a s)
All-insert_score P a [] h k = (h, tt)
All-insert_score P a (b ∷ s) h k = elim (Bool-cases (leb_ℚ a b)) [
  | inl t ↦ subst (All P) (sym (inserted_here a b s t)) (h, k)
  | inr t ↦ subst (All P) (sym (inserted_later a b s t)) (k.0, All-insert_score P a s h k.1)
]

pub All-sorted : (P : Rational → Type 0) (s : List Rational) → All P s → All P (sorted s)
unfolding sorted
All-sorted P [] h = tt
All-sorted P (a ∷ s) h = All-insert_score P a (sorted s) h.0 (All-sorted P s h.1)

length-insert_score :
    (a : Rational) (s : List Rational) → length (insert_score a s) ≡ suc (length s)
length-insert_score a [] = refl
length-insert_score a (b ∷ s) = ground (arith, length-insert_score a s)

pub length-sorted : (s : List Rational) → length (sorted s) ≡ length s
unfolding sorted
length-sorted [] = refl
length-sorted (a ∷ s) = omega (arith, length-insert_score a (sorted s), length-sorted s)

-- Each score is at most all that follow it.
abbrev pub IsSorted : List Rational → Type 0
IsSorted [] = Unit
IsSorted (a ∷ s) = All (λ b. leb_ℚ a b ≡ true) s × IsSorted s

insert_score-IsSorted :
    (a : Rational) (s : List Rational) → IsSorted s → IsSorted (insert_score a s)
insert_score-IsSorted a [] h = (tt, tt)
insert_score-IsSorted a (b ∷ s) h = elim (Bool-cases (leb_ℚ a b)) [
  | inl t ↦
      let after =
        All-map_imp (λ c. leb_ℚ b c ≡ true) (λ c. leb_ℚ a c ≡ true) s (λ c k. leb_ℚ_trans a b c t k)
          h.0 in
      subst IsSorted (sym (inserted_here a b s t)) ((t, after), h)
  | inr t ↦ subst IsSorted (sym (inserted_later a b s t)) (
    All-insert_score (λ c. leb_ℚ b c ≡ true) a s (leb_ℚ_total a b t) h.0,
    insert_score-IsSorted a s h.1,
  )
]

pub sorted-IsSorted : (s : List Rational) → IsSorted (sorted s)
unfolding sorted
sorted-IsSorted [] = tt
sorted-IsSorted (a ∷ s) = insert_score-IsSorted a (sorted s) (sorted-IsSorted s)

-- An index in range has a score.
pub get_elem?-in_range :
    (s : List Rational) (i : ℕ) → i < length s → (a : Rational) × (get_elem? s i ≡ some a)
get_elem?-in_range [] i h = absurd (omega arith)
get_elem?-in_range (a ∷ s) zero h = (a, refl)
get_elem?-in_range (a ∷ s) (suc i) h = get_elem?-in_range s i (omega arith)

pub All-get_elem? :
    (P : Rational → Type 0) (s : List Rational) (i : ℕ) (a : Rational)
    → All P s
    → get_elem? s i ≡ some a
    → P a
All-get_elem? P [] i a h k = absurd cc
All-get_elem? P (b ∷ s) zero a h k = subst P (ground (arith, k)) h.0
All-get_elem? P (b ∷ s) (suc i) a h k = All-get_elem? P s i a h.1 k

-- A later score of a sorted list is not lower.
pub IsSorted-get_elem? :
    (s : List Rational) (i j : ℕ) (a b : Rational)
    → IsSorted s
    → i ≤ j
    → get_elem? s i ≡ some a
    → get_elem? s j ≡ some b
    → leb_ℚ a b ≡ true
IsSorted-get_elem? [] i j a b h l ha hb = absurd cc
IsSorted-get_elem? (c ∷ s) zero zero a b h l ha hb =
    let same : a ≡ b = ground (arith, ha, hb) in rw same (leb_ℚ_refl b)
IsSorted-get_elem? (c ∷ s) zero (suc j) a b h l ha hb =
    let first : c ≡ a = ground (arith, ha) in
    All-get_elem? (λ x. leb_ℚ a x ≡ true) s j b
      (subst (λ x. All (λ y. leb_ℚ x y ≡ true) s) first h.0) hb
IsSorted-get_elem? (c ∷ s) (suc i) zero a b h l ha hb = absurd (omega arith)
IsSorted-get_elem? (c ∷ s) (suc i) (suc j) a b h l ha hb =
    IsSorted-get_elem? s i j a b h.1 (omega arith) ha hb
