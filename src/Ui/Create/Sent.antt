-- ===== src/Ui/Create/Sent.antt =====
-- From the parsed description, over the criteria on the page, to the lists that are sent.
use mathlib.Core.Path.{subst}
use right_hire.Base.{
  ◌≡◌, refl, Bool, true, false, not, ◌||◌, inl, inr, Bool-cases, List, [], ◌∷◌, ◌++◌, map, Text,
  All, All-map_imp, arith, strip, is_empty, select_where, if◌then◌else◌,
}
use right_hire.Ui.Create.{
  nice, important, required, among, among_lower, criteria_from_parse, leveled, with_level, Split,
  split_criteria,
}
use right_hire.Ui.Create.Kept.{IsKept, IsPut, split_criteria-IsKept}

module _ {A : Type 0} where
  All-append_first : (P : A → Type 0) (xs ys : List A) → All P (xs ++ ys) → All P xs
  All-append_first P [] ys h = tt
  All-append_first P (x ∷ xs) ys h = (h.0, All-append_first P xs ys h.1)

  All-append_rest : (P : A → Type 0) (xs ys : List A) → All P (xs ++ ys) → All P ys
  All-append_rest P [] ys h = h
  All-append_rest P (x ∷ xs) ys h = All-append_rest P xs ys h.1

  All-select_where_before :
      (P : A → Type 0) (p : A → Bool) (xs : List A)
      → All P (select_where p xs)
      → All (λ x. p x ≡ true → P x) xs
  All-select_where_before P p [] h = tt
  All-select_where_before P p (x ∷ xs) h =
      let chosen = λ (b : Bool) (e : p x ≡ b).
        subst (λ c. All P (if c then x ∷ select_where p xs else select_where p xs)) e h in
      elim (Bool-cases (p x)) [
        | inl t ↦ (λ _. (chosen true t).0, All-select_where_before P p xs (chosen true t).1)
        | inr t ↦ (λ k. absurd (ground arith), All-select_where_before P p xs (chosen false t))
      ]

All-map_before :
    {A B : Type 0} (P : B → Type 0) (f : A → B) (xs : List A)
    → All P (map f xs)
    → All (λ x. P (f x)) xs
All-map_before P f [] h = tt
All-map_before P f (x ∷ xs) h = (h.0, All-map_before P f xs h.1)

-- A required skill is sent as one, and as a must-have as well where it is one in any case of letters.
abbrev pub IsRequired : List Text → Split → Text → Type 0
IsRequired must l s =
    is_empty (strip s) ≡ false
    → (among (strip s) l.required_skills ≡ true)
      × (among_lower s must ≡ true → among (strip s) l.must ≡ true)

-- A must-have is sent as required, unless a required skill stands for it; a preferred skill is sent as
-- one, unless a required skill or a must-have does.
abbrev pub IsMust : List Text → Split → Text → Type 0
IsMust required_skills l m =
    is_empty (strip m) ≡ false
    → among_lower m required_skills ≡ false
    → (among (strip m) l.required_skills ≡ true) × (among (strip m) l.must ≡ true)

abbrev pub IsPreferred : List Text → List Text → Split → Text → Type 0
IsPreferred required_skills must l s =
    is_empty (strip s) ≡ false
    → (among_lower s required_skills || among_lower s must) ≡ false
    → among (strip s) l.preferred ≡ true

IsRequired-sent :
    (must : List Text) (l : Split) (s : Text) → IsKept l (leveled must s) → IsRequired must l s
IsRequired-sent must l s h k = elim (Bool-cases (among_lower s must)) [
  | inl t ↦
      let put = subst (λ b. IsPut (if b then required else important) (strip s) l) t (h k) in
      (put.0, λ _. put.1)
  | inr t ↦ (
    subst (λ b. IsPut (if b then required else important) (strip s) l) t (h k),
    λ e. absurd (ground arith),
  )
]

-- No skill of the parsed description is lost where the criteria are sent as they were parsed: each one
-- that is not blank is sent under its importance, or another one stands for it that differs in the
-- case of letters at most.
pub criteria_from_parse-sent :
    (required_skills preferred must : List Text)
    → (let l = split_criteria (criteria_from_parse required_skills preferred must) in
        All (IsRequired must l) required_skills
        × All (IsMust required_skills l) must
        × All (IsPreferred required_skills must l) preferred)
unfolding criteria_from_parse
criteria_from_parse-sent required_skills preferred must =
    let l = split_criteria (criteria_from_parse required_skills preferred must) in
    let first = map (leveled must) required_skills in
    let second =
      map (with_level required) (select_where (λ m. not (among_lower m required_skills)) must) in
    let third =
      map (with_level nice)
        (select_where (λ s. not (among_lower s required_skills || among_lower s must)) preferred) in
    let kept : All (IsKept l) (first ++ (second ++ third)) =
      split_criteria-IsKept (criteria_from_parse required_skills preferred must) in
    let rest = All-append_rest (IsKept l) first (second ++ third) kept in
    (
      All-map_imp (λ s. IsKept l (leveled must s)) (IsRequired must l) required_skills
          (λ s h. IsRequired-sent must l s h)
          (All-map_before (IsKept l) (leveled must) required_skills
            (All-append_first (IsKept l) first (second ++ third) kept)),
      All-map_imp
          (λ m. not (among_lower m required_skills) ≡ true → IsKept l (with_level required m))
          (IsMust required_skills l) must (λ m h k e. h (rw e refl) k)
          (All-select_where_before (λ m. IsKept l (with_level required m))
            (λ m. not (among_lower m required_skills)) must
            (All-map_before (IsKept l) (with_level required) _
              (All-append_first (IsKept l) second third rest))),
      All-map_imp
          (λ s.
            not (among_lower s required_skills || among_lower s must) ≡ true
            → IsKept l (with_level nice s))
          (IsPreferred required_skills must l) preferred (λ s h k e. h (rw e refl) k)
          (All-select_where_before (λ s. IsKept l (with_level nice s))
            (λ s. not (among_lower s required_skills || among_lower s must)) preferred
            (All-map_before (IsKept l) (with_level nice) _
              (All-append_rest (IsKept l) second third rest))),
    )
