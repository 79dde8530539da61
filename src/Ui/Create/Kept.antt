-- ===== src/Ui/Create/Kept.antt =====
-- That no criterion is lost, from the parsed description to the lists that are sent.
use right_hire.Base.{
  ◌≡◌, refl, true, false, inl, inr, Bool-cases, List, [], ◌∷◌, Text, text_eq, text_eq_iff, All,
  any-append_left, any-append_right, arith, strip, is_empty,
}
use right_hire.Ui.Create.{
  Level, nice, important, required, Criterion, among, Split, added, put, put_criterion, split_from,
  split_criteria,
}

among_self : (t : Text) (ts : List Text) → among t (t ∷ ts) ≡ true
among_self t ts = ground (arith, (text_eq_iff t t).1 refl)

among-added : (t : Text) (ts : List Text) → among t (added t ts) ≡ true
among-added t ts = elim (Bool-cases (among t ts)) [
  | inl h ↦ rw h h
  | inr h ↦ rw h (any-append_right (λ u. text_eq u t) ts (t ∷ []) (among_self t []))
]

among-added_other : (t u : Text) (ts : List Text) → among t ts ≡ true → among t (added u ts) ≡ true
among-added_other t u ts h = elim (Bool-cases (among u ts)) [
  | inl k ↦ rw k h
  | inr k ↦ rw k (any-append_left (λ v. text_eq v t) ts (u ∷ []) h)
]

-- Where a text of some level stands among the lists.
abbrev pub IsPut : Level → Text → Split → Type 0
IsPut nice t l = among t l.preferred ≡ true
IsPut important t l = among t l.required_skills ≡ true
IsPut required t l = (among t l.required_skills ≡ true) × (among t l.must ≡ true)

IsPut-put : (v : Level) (t : Text) (l : Split) → IsPut v t (put v t l)
IsPut-put nice t l = among-added t l.preferred
IsPut-put important t l = among-added t l.required_skills
IsPut-put required t l = (among-added t l.required_skills, among-added t l.must)

-- What is put next moves nothing.
IsPut-put_other :
    (w : Level) (u : Text) (v : Level) (t : Text) (l : Split) → IsPut v t l → IsPut v t (put w u l)
IsPut-put_other nice u nice t l h = among-added_other t u l.preferred h
IsPut-put_other nice u important t l h = h
IsPut-put_other nice u required t l h = h
IsPut-put_other important u nice t l h = h
IsPut-put_other important u important t l h = among-added_other t u l.required_skills h
IsPut-put_other important u required t l h = (among-added_other t u l.required_skills h.0, h.1)
IsPut-put_other required u nice t l h = h
IsPut-put_other required u important t l h = among-added_other t u l.required_skills h
IsPut-put_other required u required t l h =
    (among-added_other t u l.required_skills h.0, among-added_other t u l.must h.1)

IsPut-split_from :
    (cs : List Criterion) (v : Level) (t : Text) (l : Split)
    → IsPut v t l
    → IsPut v t (split_from cs l)
IsPut-split_from [] v t l h = h
IsPut-split_from (c ∷ cs) v t l h =
    IsPut-split_from cs v t (put_criterion c l) (elim (Bool-cases (is_empty (strip c.label))) [
      | inl k ↦ rw k h
      | inr k ↦ rw k (IsPut-put_other c.level (strip c.label) v t l h)
    ])

-- A criterion is blank, or its text stands where its level says.
abbrev pub IsKept : Split → Criterion → Type 0
IsKept l c = is_empty (strip c.label) ≡ false → IsPut c.level (strip c.label) l

IsKept-from : (cs : List Criterion) (l : Split) → All (IsKept (split_from cs l)) cs
IsKept-from [] l = tt
IsKept-from (c ∷ cs) l = (
  λ k.
      IsPut-split_from cs c.level (strip c.label) (put_criterion c l)
        (rw k (IsPut-put c.level (strip c.label) l)),
  IsKept-from cs (put_criterion c l),
)

-- The criteria that are not blank are sent under their level: one that is nice to have as preferred,
-- an important one as a required skill, and a required one as a required skill and as a must-have.
pub split_criteria-IsKept : (cs : List Criterion) → All (IsKept (split_criteria cs)) cs
unfolding split_criteria
split_criteria-IsKept cs = IsKept-from cs _
