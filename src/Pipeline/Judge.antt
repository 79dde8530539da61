-- ===== src/Pipeline/Judge.antt =====
-- app/pipeline/judge.py: `build_judge_prompt`, and `judge_candidate` over a client that takes a prompt.
use right_hire.Base.{List, [], ◌∷◌, ◌++◌, Text, text, take, map, Option}
use right_hire.Schemas.{ParsedJd, JudgeOutput}
use right_hire.Pipeline.Match.{MatchResult}
use right_hire.Llm.Reading.{join_lines, replace_from, normalized}
use right_hire.Llm.Retry.{End}

-- `", ".join(texts)`
abbrev pub join_commas : List Text → Text
join_commas [] = []
join_commas (t ∷ []) = t
join_commas (t ∷ u ∷ ts) = t ++ (text ", " ++ join_commas (u ∷ ts))

abbrev or_text : Text → Text → Text
or_text [] other = other
or_text (c ∷ t) other = c ∷ t

abbrev dashed : Text → Text
dashed b = text "- " ++ b

-- The keys of the rubric.
abbrev criteria_text : List Text → Text
criteria_text [] = text "technical_fit, communication, leadership"
criteria_text (k ∷ ks) = join_commas (k ∷ ks)

unfoldable pub build_judge_prompt : Text → MatchResult → ParsedJd → List Text → Text
unfolding replace_from
build_judge_prompt template m jd rubric =
    let required = or_text (join_commas (take 10 jd.required_skills)) (text "N/A") in
    let skills = or_text (join_commas (take 10 m.matched_skills)) (text "none") in
    let bullets = or_text (join_lines (map dashed (take 5 m.matched_bullets))) (text "- (none)") in
    replace_from 0 (text "{{RUBRIC_CRITERIA}}") (criteria_text rubric) (
      replace_from 0 (text "{{MATCHED_BULLETS}}") bullets (
        replace_from 0 (text "{{MATCHED_SKILLS}}") skills
          (replace_from 0 (text "{{REQUIRED_SKILLS}}") required template)))

-- What the client makes of the prompt, as the judge of app/workers/tasks.py reads it: any exception is
-- one answer, none.
unfoldable pub judge_answer :
    (Text → End JudgeOutput) → Text → MatchResult → ParsedJd → List Text → Option JudgeOutput
unfolding build_judge_prompt
judge_answer client template m jd rubric =
    normalized (client (build_judge_prompt template m jd rubric))
