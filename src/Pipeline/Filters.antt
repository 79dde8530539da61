-- ===== src/Pipeline/Filters.antt =====
-- app/pipeline/filters.py: the hard rules.
pub mod Rules
use right_hire.Base.{
  Bool, true, false, not, ◌&&◌, ◌||◌, Option, none, some, List, [], ◌∷◌, map, Text, text, lower,
  strip, contains, Dict, lookup, lookup_or, is_empty, any, select_where, if◌then◌else◌,
}
use right_hire.Base.Rational.{Rational, ratio, ltb_ℚ, is_nonzero}
use right_hire.Schemas.{ParsedResume, ParsedJd}

-- Why a candidate is eliminated: the message, by its kind and what it names.
pub data Rejection : Type 0 where
  insufficient_experience : (yoe required : Rational) → Rejection
  location_mismatch : (candidate jd : Text) → Rejection
  missing_skills : List Text → Rejection

abbrev zero_float : Rational
zero_float = ratio 0 0

-- `thresholds.get("min_yoe", jd.min_yoe)`
abbrev pub yoe_threshold : ParsedJd → Dict Rational → Rational
yoe_threshold jd thresholds = lookup_or (text "min_yoe") jd.min_yoe thresholds

-- `jd.min_yoe and jd.min_yoe > 0`, and then the comparison.
abbrev pub too_junior : ParsedResume → ParsedJd → Dict Rational → Bool
too_junior c jd thresholds =
    (is_nonzero jd.min_yoe && ltb_ℚ zero_float jd.min_yoe)
    && ltb_ℚ c.yoe (yoe_threshold jd thresholds)

-- `thresholds.get("location_strict")` as a truth value.
abbrev pub is_strict : Dict Rational → Bool
is_strict thresholds = elim (lookup (text "location_strict") thresholds) [
  | none ↦ false
  | some v ↦ is_nonzero v
]

unfoldable pub place : Text → Text
unfolding lower strip
place t = strip (lower t)

abbrev pub elsewhere : ParsedResume → ParsedJd → Dict Rational → Bool
elsewhere c jd thresholds =
    let jd_loc = place jd.location in
    let cand_loc = place c.location in
    (is_strict thresholds && not (is_empty jd.location))
    && ((not (is_empty jd_loc) && not (is_empty cand_loc))
        && (not (contains cand_loc jd_loc) && not (contains jd_loc cand_loc)))

-- `skill.lower() in cs or cs in skill.lower()` for one of the candidate's skills.
unfoldable pub has_skill : ParsedResume → Text → Bool
unfolding lower
has_skill c skill =
    any (λ cs. contains (lower cs) (lower skill) || contains (lower skill) (lower cs)) c.skills

abbrev pub missing : ParsedResume → ParsedJd → List Text
missing c jd = select_where (λ skill. not (has_skill c skill)) jd.must_haves

-- `none` is a pass.
unfoldable pub apply_filters : ParsedResume → ParsedJd → Dict Rational → Option Rejection
apply_filters c jd thresholds =
    if too_junior c jd thresholds
    then some (insufficient_experience c.yoe (yoe_threshold jd thresholds))
    else (if elsewhere c jd thresholds
        then some (location_mismatch c.location jd.location)
        else (if is_empty (missing c jd) then none else some (missing_skills (missing c jd))))
