-- ===== src/Ui/Create.antt =====
-- ui/right_hire_ui/states/create_job_state.py: the criteria of a new job, from the parsed description
-- to the lists that are sent.
pub mod Kept
pub mod Sent
use right_hire.Base.{
  ℕ, zero, suc, Bool, true, false, not, ◌&&◌, ◌||◌, Option, none, some, List, [], ◌∷◌, ◌++◌, map,
  Text, text, text_eq, any, strip, lower, is_empty, length, ltb, select_where, if◌then◌else◌,
}

-- `CRITERION_LEVELS`
pub data Level : Type 0 where
  nice important required : Level

-- `level in _LEVEL_VALUES`
abbrev level_of : Text → Option Level
level_of t =
    if text_eq t (text "nice")
    then some nice
    else if text_eq t (text "important")
    then some important
    else if text_eq t (text "required")
    then some required
    else none

pub record Criterion : Type 0 where
  pub label : Text
  pub level : Level

-- `text in texts`, as it is and with another case of letters.
abbrev pub among : Text → List Text → Bool
among t ts = any (λ u. text_eq u t) ts

unfoldable pub among_lower : Text → List Text → Bool
unfolding lower
among_lower t ts = any (λ u. text_eq (lower u) (lower t)) ts

abbrev pub leveled : List Text → Text → Criterion
leveled must s = record { label = s; level = if among_lower s must then required else important }

abbrev pub with_level : Level → Text → Criterion
with_level l s = record { label = s; level = l }

-- `_criteria_from_parse`; a text is in `seen` where a required skill or a must-have is it in lower case.
unfoldable pub criteria_from_parse : (required_skills preferred must : List Text) → List Criterion
unfolding among_lower
criteria_from_parse required_skills preferred must =
    map (leveled must) required_skills
    ++ (map (with_level required) (select_where (λ m. not (among_lower m required_skills)) must)
        ++ map (with_level nice) (
            select_where (λ s. not (among_lower s required_skills || among_lower s must))
              preferred))

-- `set_criterion_text`, `set_criterion_level`: nothing happens at an index that is out of range.
abbrev edit_at : ℕ → (Criterion → Criterion) → List Criterion → List Criterion
edit_at i f [] = []
edit_at zero f (c ∷ cs) = f c ∷ cs
edit_at (suc i) f (c ∷ cs) = c ∷ edit_at i f cs

unfoldable pub set_criterion_text : ℕ → Text → List Criterion → List Criterion
set_criterion_text i value cs = edit_at i (λ c. record c { label = value }) cs

unfoldable pub set_criterion_level : ℕ → Text → List Criterion → List Criterion
set_criterion_level i level cs = elim (level_of level) [
  | none ↦ cs
  | some l ↦ edit_at i (λ c. record c { level = l }) cs
]

-- `remove_criterion`, `add_criterion`
unfoldable pub remove_criterion : ℕ → List Criterion → List Criterion
remove_criterion i [] = []
remove_criterion zero (c ∷ cs) = cs
remove_criterion (suc i) (c ∷ cs) = c ∷ remove_criterion i cs

unfoldable pub add_criterion : List Criterion → List Criterion
add_criterion cs = cs ++ record { label = []; level = important } ∷ []

-- `has_criteria`
unfoldable pub has_criteria : List Criterion → Bool
unfolding strip
has_criteria cs = any (λ c. not (is_empty (strip c.label))) cs

-- The three lists, while the criteria are gone through.
pub record Split : Type 0 where
  pub required_skills : List Text
  pub preferred : List Text
  pub must : List Text

abbrev pub added : Text → List Text → List Text
added t ts = if among t ts then ts else ts ++ t ∷ []

abbrev pub put : Level → Text → Split → Split
put nice t l = record l { preferred = added t l.preferred }
put important t l = record l { required_skills = added t l.required_skills }
put required t l = record l { required_skills = added t l.required_skills; must = added t l.must }

abbrev pub put_criterion : Criterion → Split → Split
put_criterion c l = if is_empty (strip c.label) then l else put c.level (strip c.label) l

abbrev pub split_from : List Criterion → Split → Split
split_from [] l = l
split_from (c ∷ cs) l = split_from cs (put_criterion c l)

-- `_split_criteria`
unfoldable pub split_criteria : List Criterion → Split
unfolding strip
split_criteria cs = split_from cs (record { required_skills = []; preferred = []; must = [] })
