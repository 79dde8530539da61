-- ===== src/Llm/Reading.antt =====
-- app/pipeline/parse.py and app/llm/factory.py: the text of a resume file, the prompts, and which
-- client answers. The libraries that read a file, and what the client answers, are arguments.
use right_hire.Base.{
  ℕ, zero, suc, Bool, true, false, ◌||◌, ◌-◌, Option, none, some, List, [], ◌∷◌, ◌++◌, Text, text,
  text_eq, lower, strip, starts_with, length, take, ltb, lookup, if◌then◌else◌,
}
use right_hire.Schemas.{ParsedResume, ParsedJd}
use right_hire.Llm.Retry.{End, value, gave_up, passed_on}

-- `"\n".join(pages)`
abbrev pub join_lines : List Text → Text
join_lines [] = []
join_lines (p ∷ []) = p
join_lines (p ∷ q ∷ ps) = p ++ (text "\n" ++ join_lines (q ∷ ps))

-- A file as the strategies find it: its suffix, its text if it is read as one, and the pages that
-- pymupdf, pdfplumber and the OCR give, where none is an exception.
pub record Document : Type 0 where
  pub suffix : Text
  pub plain : Text
  pub fitz_pages : Option (List Text)
  pub plumber_pages : Option (List (Option Text))
  pub ocr_pages : Option (List Text)

abbrev is_plain : Text → Bool
is_plain suffix = text_eq (lower suffix) (text ".txt") || text_eq (lower suffix) (text ".md")

-- A strategy's joined text where it is longer than the limit.
abbrev pub joined_over : ℕ → Option (List Text) → Option Text
joined_over limit none = none
joined_over limit (some pages) =
    let t = strip (join_lines pages) in if ltb limit (length t) then some t else none

-- `p.extract_text() or ""`
abbrev pub or_blank : List (Option Text) → List Text
or_blank [] = []
or_blank (none ∷ ps) = [] ∷ or_blank ps
or_blank (some t ∷ ps) = t ∷ or_blank ps

abbrev plumbed : Option (List (Option Text)) → Option (List Text)
plumbed none = none
plumbed (some ps) = some (or_blank ps)

abbrev or_else : Option Text → Text → Text
or_else (some t) u = t
or_else none u = u

-- `extract_text`; none is the `FileNotFoundError`.
unfoldable pub extract_text : Option Document → Option Text
extract_text none = none
extract_text (some d) =
    if is_plain d.suffix
    then some d.plain
    else some (
        or_else (joined_over 100 d.fitz_pages) (
          or_else (joined_over 100 (plumbed d.plumber_pages))
            (or_else (joined_over 0 d.ocr_pages) [])))

-- `s.replace(old, new)` for an `old` that is not empty, where `skip` code points of a match are left.
unfoldable pub replace_from : ℕ → Text → Text → Text → Text
replace_from skip old new [] = []
replace_from (suc n) old new (c ∷ s) = replace_from n old new s
replace_from zero old new (c ∷ s) = elim (starts_with (c ∷ s) old) [
  | true ↦ new ++ replace_from (length old - 1) old new s
  | false ↦ c ∷ replace_from zero old new s
]

-- The prompts: the template of prompts/ with the text put in, cut to its limit.
unfoldable pub resume_prompt : Text → ℕ → Text → Text
unfolding replace_from
resume_prompt template limit t = replace_from 0 (text "{{RESUME_TEXT}}") (take limit t) template

unfoldable pub jd_prompt : Text → ℕ → Text → Text
unfolding replace_from
jd_prompt template limit t = replace_from 0 (text "{{JD_TEXT}}") (take limit t) template

-- `parse_resume` and `parse_jd` after the prompt: any exception of the client is one of "unavailable".
abbrev pub normalized : {A : Type 0} → End A → Option A
normalized (value a) = some a
normalized gave_up = none
normalized passed_on = none

unfoldable pub parse_resume : (Text → End ParsedResume) → Text → ℕ → Text → Option ParsedResume
unfolding resume_prompt
parse_resume client template limit t = normalized (client (resume_prompt template limit t))

unfoldable pub parse_jd : (Text → End ParsedJd) → Text → ℕ → Text → Option ParsedJd
unfolding jd_prompt
parse_jd client template limit t = normalized (client (jd_prompt template limit t))

-- app/llm/factory.py: which client `get_provider` makes; none is the `ValueError`.
pub data Backend : Type 0 where
  local groq openai cerebras : Backend

abbrev backends : List (Text × Backend)
backends =
    (text "local", local)
    ∷ (text "groq", groq)
    ∷ (text "openai", openai)
    ∷ (text "cerebras", cerebras)
    ∷ []

unfoldable pub get_provider : Text → Option Backend
get_provider llm_backend = lookup (strip (lower llm_backend)) backends
