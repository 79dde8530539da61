-- ===== src/Pipeline/Match.antt =====
-- app/pipeline/match.py, over the taxonomy's canonical names and the similarity of two vectors,
-- which are arguments.
use right_hire.Base.{
  ◌-◌, ◌≤◌, ◌≡◌, Bool, true, List, [], ◌∷◌, ◌++◌, map, arith, length, take, Text, text_eq, lower,
  contains, is_empty, any, select_where, if◌then◌else◌,
}
use right_hire.Base.Rational.{Rational, ratio, leb_ℚ, ratio_bounds}
use right_hire.Schemas.{ParsedResume, ParsedJd}

abbrev known : Text → List Text → Bool
known t = any (λ u. text_eq u t)

-- `{... for s in texts}`: each value once.
unfoldable pub distinct : List Text → List Text
distinct [] = []
distinct (t ∷ ts) = let rest = distinct ts in if known t rest then rest else t ∷ rest

module _ (canonicalize : Text → Text) where
  abbrev pub canon : Text → Text
  canon s = lower (canonicalize s)

  -- `len(cand_set & jd_set) / len(jd_set)`
  unfoldable pub compute_skill_overlap : List Text → List Text → Rational
  unfolding distinct
  compute_skill_overlap candidate_skills jd_skills =
      let cand_set = map canon candidate_skills in
      let jd_set = distinct (map canon jd_skills) in
      if is_empty jd_set
      then ratio 1 0
      else ratio (length (select_where (λ s. known s cand_set) jd_set)) (length jd_set - 1)

  abbrev matched_skills : ParsedResume → List Text → List Text
  matched_skills resume jd_skills =
      select_where (λ s. known (canon s) (map canon resume.skills)) jd_skills

  abbrev matched_bullets : ParsedResume → List Text → List Text
  matched_bullets resume skills =
      select_where (λ bullet. any (λ s. contains (lower bullet) (lower s)) skills) resume.bullets

pub record MatchResult : Type 0 where
  pub skill_overlap : Rational
  pub cosine_sim : Rational
  pub matched_skills : List Text
  pub matched_bullets : List Text

abbrev pub all_jd_skills : ParsedJd → List Text
all_jd_skills jd = jd.required_skills ++ jd.preferred_skills

-- `match_candidate`; `similarity` is what `compute_cosine` returned.
unfoldable pub match_candidate : (Text → Text) → ParsedResume → ParsedJd → Rational → MatchResult
unfolding compute_skill_overlap
match_candidate canonicalize resume jd similarity =
    let skills = matched_skills canonicalize resume (all_jd_skills jd) in
    record {
      skill_overlap = compute_skill_overlap canonicalize resume.skills (all_jd_skills jd);
      cosine_sim = similarity;
      matched_skills = skills;
      matched_bullets = take 10 (matched_bullets canonicalize resume skills);
    }

length-select-le : (p : Text → Bool) (l : List Text) → length (select_where p l) ≤ length l
length-select-le p [] = omega arith
length-select-le p (t ∷ l) = ground (arith, length-select-le p l)

overlap_bounds :
    (p : Text → Bool) (l : List Text)
    → let overlap =
        if is_empty l then ratio 1 0 else ratio (length (select_where p l)) (length l - 1) in
      (leb_ℚ (ratio 0 0) overlap ≡ true) × (leb_ℚ overlap (ratio 1 0) ≡ true)
overlap_bounds p [] = ratio_bounds 1 0 (omega arith)
overlap_bounds p (t ∷ l) =
    ratio_bounds (length (select_where p (t ∷ l))) (length (t ∷ l) - 1)
      (omega (arith, length-select-le p (t ∷ l)))

-- The overlap is at least 0 and at most 1.
pub compute_skill_overlap_bounds :
    (canonicalize : Text → Text) (candidate_skills jd_skills : List Text)
    → let overlap = compute_skill_overlap canonicalize candidate_skills jd_skills in
      (leb_ℚ (ratio 0 0) overlap ≡ true) × (leb_ℚ overlap (ratio 1 0) ≡ true)
unfolding compute_skill_overlap
compute_skill_overlap_bounds canonicalize candidate_skills jd_skills =
    overlap_bounds (λ s. known s (map (canon canonicalize) candidate_skills))
      (distinct (map (canon canonicalize) jd_skills))
